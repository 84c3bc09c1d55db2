-- ===== src/Engine/Run.antt =====
-- engine/src/hypernet/Engine.cpp: `run`, with the creation and the start of the workers.
pub mod Starts
pub mod Setup
pub mod Ends
pub mod Whole
pub mod Aborts
use network_engine_portfolio.Prelude.{
  ℕ, zero, suc, ◌+◌, Bool, true, false, not, ◌&&◌, Option, none, some, List, [], ◌∷◌, map, length,
  ◌==◌, if◌then◌else◌,
}
use network_engine_portfolio.Core.Config.{EngineOptions, make_effective_engine_options}
use network_engine_portfolio.Engine.Outcome.{Outcome, done, dangling, ◌>>=◌}
use network_engine_portfolio.Engine.Worker.{
  SessionCalls, Worker, no_thread, StartAnswers, initialize, configure_listener,
  set_app_callback_invoker,
}
use network_engine_portfolio.Engine.Worker.Life.{start, stop, shutdown}
use network_engine_portfolio.Engine.Control.{
  Engine, stopped, server_start, reset_for_run, Wake, wait_for_stop,
}
use network_engine_portfolio.Engine.Shutdown.{Surroundings, call_on_first, shutdown_gracefully}

abbrev is_empty : {A : Type 0} → List A → Bool
is_empty [] = true
is_empty (_ ∷ _) = false

abbrev pub loop_missing : {S : Type 0} → Worker S → Bool
loop_missing w = elim w.event_loop [ none ↦ true | some _ ↦ false ]

unfoldable pub any_loop_missing : {S : Type 0} → List (Worker S) → Bool
any_loop_missing [] = false
any_loop_missing (w ∷ ws) = if loop_missing w then true else any_loop_missing ws

module _ {S : Type 0} where
  -- The metrics server, if its port is given; false if it does not start.
  unfoldable pub start_metrics : Bool → Engine S → Bool × Engine S
  start_metrics starts e =
      if e.config.metrics_http_port == 0
      then (true, e)
      else if not starts
      then (false, record e { metrics_server = none })
      else (true, record e { metrics_server = some false })

  unfoldable pub stop_metrics : Engine S → Engine S
  stop_metrics e = record e { metrics_server = none }

  -- A `WorkerContext` from its options and the application.
  unfoldable pub new_worker : EngineOptions → ℕ → Engine S → Worker S
  new_worker opt i e = record {
    id = i;
    options = opt;
    idle_timeout_ms = e.idle_timeout_ms;
    heartbeat_interval_ms = e.heartbeat_interval_ms;
    app = e.app;
    event_loop = none;
    buffer_pool = false;
    session_manager = none;
    listener_configured = false;
    listener_config = record { address = []; port = 0; backlog = 128; reuse_port = true };
    acceptor = none;
    app_callbacks = false;
    running = false;
    thread = no_thread;
    initialized = false;
  }

  -- Whether the application has an invoker, and the workers.
  unfoldable pub setup_app_callbacks : Engine S → List (Worker S) → Bool × List (Worker S)
  setup_app_callbacks e ws =
      if not e.app
      then (false, ws)
      else if is_empty ws
      then (false, ws)
      else (true, map set_app_callback_invoker ws)

  unfoldable pub setup_routing : Engine S → List (Worker S) → Outcome (Engine S)
  setup_routing e ws =
      if any_loop_missing ws
      then dangling
      else done (if e.app then record e { router = some (length ws) } else e)

-- What the outside does in a run: the start of the metrics server and of the workers, by id; whether
-- `onServerStart` throws; and what wakes the main thread.
pub record Outside : Type 0 where
  pub hardware : ℕ
  pub metrics_starts : Bool
  pub start_answers : ℕ → StartAnswers
  pub start_throws : Bool
  pub wakes : List Wake

-- Whether `run` throws, the engine and the workers.
abbrev pub Ended : Type 0 → Type 0
Ended S = Bool × Engine S × List (Worker S)

module _ {S : Type 0} (calls : SessionCalls S) (env : Surroundings S) where
  unfoldable pub create_worker : EngineOptions → ℕ → Engine S → Worker S
  create_worker opt i e =
      let w = initialize calls (new_worker opt i e) in
      if not (e.config.listen_port == 0)
      then configure_listener e.config.listen_address e.config.listen_port opt.listen_backlog
          e.config.reuse_port w
      else w

  -- `count` workers, from the id `i` on.
  unfoldable pub create_workers : EngineOptions → (count i : ℕ) → Engine S → List (Worker S)
  create_workers opt zero i e = []
  create_workers opt (suc count) i e = create_worker opt i e ∷ create_workers opt count (suc i) e

  -- The starts, up to the first that raises.
  unfoldable pub start_each :
      (ℕ → StartAnswers) → List (Worker S) → Outcome (Bool × List (Worker S))
  start_each answers [] = done (false, [])
  start_each answers (w ∷ ws) = start calls env.drains (answers w.id) w >>= λ s.
      if s.0
      then done (true, s.1 ∷ ws)
      else (start_each answers ws >>= λ rest. done (rest.0, s.1 ∷ rest.1))

  unfoldable pub stop_each : List (Worker S) → Outcome (List (Worker S))
  stop_each [] = done []
  stop_each (w ∷ ws) = stop calls env.drains w >>= λ w'.
      shutdown calls env.drains w' >>= λ w''. stop_each ws >>= λ ws'. done (w'' ∷ ws')

  unfoldable pub start_workers : (ℕ → StartAnswers) → Engine S → List (Worker S) → Outcome (Ended S)
  start_workers answers e ws = start_each answers ws >>= λ s.
      if s.0
      then (stop_each s.1 >>= λ ws'.
          done (true, record e { is_running = false; state = stopped }, ws'))
      else done (false, e, s.1)

  -- What follows the shutdown.
  abbrev pub closed : Bool → Engine S × List (Worker S) → Ended S
  closed threw (e, ws) =
      (threw, record (stop_metrics e) { state = stopped; main_tid_ready = false }, ws)

  -- The handler of an exception.
  unfoldable pub abort_run :
      ℕ → EngineOptions → Bool → Engine S → List (Worker S) → Outcome (Ended S)
  abort_run fuel opt invoker e ws =
      shutdown_gracefully calls env fuel opt invoker (record e { is_running = false }) ws >>= λ r.
      done (closed true r)

  unfoldable pub serve :
      Outside → ℕ → EngineOptions → Bool → Engine S → List (Worker S) → Outcome (Ended S)
  serve o fuel opt invoker e ws = wait_for_stop o.wakes e >>= λ e'.
      shutdown_gracefully calls env fuel opt invoker e' ws >>= λ r. done (closed false r)

  unfoldable pub run_started : Outside → ℕ → EngineOptions → Bool → Ended S → Outcome (Ended S)
  run_started o fuel opt invoker (true, e, ws) = abort_run fuel opt invoker e ws
  run_started o fuel opt invoker (false, e, ws) =
      if not invoker
      then serve o fuel opt invoker e ws
      else (call_on_first calls env server_start e ws >>= λ r.
          if o.start_throws
          then abort_run fuel opt invoker r.0 r.1
          else serve o fuel opt invoker r.0 r.1)

  unfoldable pub run_workers : Outside → ℕ → EngineOptions → Engine S → Outcome (Ended S)
  run_workers o fuel opt e =
      let (invoker, ws) = setup_app_callbacks e (create_workers opt opt.worker_count 0 e) in
      setup_routing e ws >>= λ e'.
      start_workers o.start_answers e' ws >>= run_started o fuel opt invoker

  unfoldable pub run : Outside → ℕ → Engine S → Outcome (Ended S)
  run o fuel e =
      let opt = make_effective_engine_options o.hardware e.config in
      let (ok, e') =
        start_metrics o.metrics_starts (reset_for_run (record e { main_tid_ready = true })) in
      if ok then run_workers o fuel opt e' else abort_run fuel opt false e' []
