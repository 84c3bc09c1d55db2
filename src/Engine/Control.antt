-- ===== src/Engine/Control.antt =====
-- engine/src/hypernet/Engine.cpp: the engine, the requests to stop it and the wait for one.
pub mod First
use network_engine_portfolio.Prelude.{
  ℕ, Bool, true, false, not, ◌&&◌, Option, none, some, List, [], ◌∷◌, ◌++◌, if◌then◌else◌,
}
use network_engine_portfolio.Core.Config.{EngineConfig}
use network_engine_portfolio.Engine.Outcome.{Outcome, done, waits}
use network_engine_portfolio.Engine.Worker.{Worker}

pub data EngineState : Type 0 where
  stopped running stopping : EngineState

pub data StopSource : Type 0 where
  no_source api signal : StopSource

-- The callbacks of an application for the life of the server.
pub data AppCall : Type 0 where
  server_start server_stop : AppCall

-- `metrics_server` says of a server that is there whether it has been asked to stop; `router` is how
-- many loops the router of the application has. `app_calls` keeps the callbacks made, with the
-- workers as they are then.
pub record Engine (S : Type 0) : Type 0 where
  pub config : EngineConfig
  pub idle_timeout_ms : ℕ
  pub heartbeat_interval_ms : ℕ
  pub app : Bool
  pub metrics_server : Option Bool
  pub is_running : Bool
  pub state : EngineState
  pub stop_source : StopSource
  pub stop_signal : ℕ
  pub main_tid_ready : Bool
  pub router : Option ℕ
  pub app_calls : List (AppCall × List (Worker S))

abbrev pub is_unset : StopSource → Bool
is_unset no_source = true
is_unset _ = false

module _ {S : Type 0} where
  unfoldable pub request_stop : StopSource → ℕ → Engine S → Engine S
  request_stop src signo e = if not (is_unset e.stop_source) then e else record e {
    stop_source = src;
    stop_signal = signo;
    state = stopping;
    is_running = false;
    metrics_server = elim e.metrics_server [ none ↦ none | some _ ↦ some true ];
  }

  -- Whether the main thread is woken, and the engine.
  unfoldable pub stop_engine : Engine S → Bool × Engine S
  stop_engine e = let e' = request_stop api 0 e in (e'.main_tid_ready, e')

  unfoldable pub reset_for_run : Engine S → Engine S
  reset_for_run e = record e {
    stop_source = no_source;
    stop_signal = 0;
    state = running;
    is_running = true;
  }

  unfoldable pub call_app : AppCall → List (Worker S) → Engine S → Engine S
  call_app call ws e = record e { app_calls = e.app_calls ++ (call, ws) ∷ [] }

-- What ends a `sigwait`: an error, the engine's own signal, the same after `stop()` on another
-- thread, or a signal from outside.
pub data Wake : Type 0 where
  failed woken stop_called : Wake
  signalled : ℕ → Wake

module _ {S : Type 0} where
  unfoldable pub wait_loop : List Wake → Engine S → Outcome (Engine S)
  wait_loop [] e = waits
  wait_loop (failed ∷ wakes) e = wait_loop wakes e
  wait_loop (woken ∷ wakes) e =
      let rest = wait_loop wakes e in if e.is_running then rest else done e
  wait_loop (stop_called ∷ wakes) e =
      let (wake, e') = stop_engine e in
      let rest = wait_loop wakes e' in if wake && not e'.is_running then done e' else rest
  wait_loop (signalled signo ∷ wakes) e = done (request_stop signal signo e)

  unfoldable pub wait_for_stop : List Wake → Engine S → Outcome (Engine S)
  wait_for_stop wakes e = if e.is_running then wait_loop wakes e else done e
