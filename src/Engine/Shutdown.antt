-- ===== src/Engine/Shutdown.antt =====
-- engine/src/hypernet/Engine.cpp: `shutdownGracefully_`, in its five phases.
pub mod Drain
pub mod Ends
use network_engine_portfolio.Prelude.{
  ℕ, zero, suc, ◌+◌, Bool, true, false, Option, none, some, List, [], ◌∷◌, map, ◌==◌, leb,
  if◌then◌else◌,
}
use network_engine_portfolio.Core.Config.{EngineOptions}
use network_engine_portfolio.Engine.Outcome.{Outcome, done, dangling, no_fuel, ◌>>=◌}
use network_engine_portfolio.Engine.Worker.{
  SessionCalls, Worker, request_stop_accepting, request_close_all, query_session_count_blocking,
  post_and_wait,
}
use network_engine_portfolio.Engine.Worker.Life.{shutdown}
use network_engine_portfolio.Engine.Control.{Engine, AppCall, server_stop, call_app}

-- What the outside does while the engine shuts down: which loops come to their last tasks; what
-- the workers, by poll and by id, answer to the query for their sessions; the clock at the start of
-- the drain and after each poll.
pub record Surroundings (S : Type 0) : Type 0 where
  pub drains : ℕ → Bool
  pub polls : ℕ → ℕ → Option (S → S)
  pub begin : ℕ
  pub clock : ℕ → ℕ

module _ {S : Type 0} (calls : SessionCalls S) (env : Surroundings S) where
  unfoldable pub query_all : ℕ → List (Worker S) → ℕ × List (Worker S)
  query_all poll [] = (0, [])
  query_all poll (w ∷ ws) =
      let (n, w') = query_session_count_blocking calls (env.polls poll w.id) w in
      let (rest, ws') = query_all poll ws in (n + rest, w' ∷ ws')

  -- The polls, from this one on; how many sessions are left, and the workers.
  unfoldable pub drain_sessions :
      (fuel deadline poll : ℕ) → List (Worker S) → Outcome (ℕ × List (Worker S))
  drain_sessions zero deadline poll ws = no_fuel
  drain_sessions (suc fuel) deadline poll ws =
      let (remaining, ws') = query_all poll ws in
      let rest = drain_sessions fuel deadline (suc poll) ws' in
      if remaining == 0
      then done (remaining, ws')
      else if leb deadline (env.clock poll)
      then done (remaining, ws')
      else rest

  unfoldable pub force_close : ℕ × List (Worker S) → List (Worker S)
  force_close (remaining, ws) =
      if remaining == 0 then ws else map (request_close_all calls false) ws

  unfoldable pub shutdown_all : List (Worker S) → Outcome (List (Worker S))
  shutdown_all [] = done []
  shutdown_all (w ∷ ws) =
      shutdown calls env.drains w >>= λ w'. shutdown_all ws >>= λ ws'. done (w' ∷ ws')

  -- The callback on the loop of worker 0.
  unfoldable pub call_on_first :
      AppCall → Engine S → List (Worker S) → Outcome (Engine S × List (Worker S))
  call_on_first call e [] = dangling
  call_on_first call e (w ∷ ws) =
      post_and_wait calls w >>= λ w'. done (call_app call (w ∷ ws) e, w' ∷ ws)

  unfoldable pub call_stop :
      Bool → Engine S → List (Worker S) → Outcome (Engine S × List (Worker S))
  call_stop invoker e ws = if invoker then call_on_first server_stop e ws else done (e, ws)

  unfoldable pub shutdown_first : Engine S × List (Worker S) → Outcome (Engine S × List (Worker S))
  shutdown_first (e, []) = done (e, [])
  shutdown_first (e, w ∷ ws) = shutdown calls env.drains w >>= λ w'. done (e, w' ∷ ws)

  -- Phases 3 to 5.
  unfoldable pub stop_workers :
      Bool → Engine S → List (Worker S) → Outcome (Engine S × List (Worker S))
  stop_workers invoker e [] = done (e, [])
  stop_workers invoker e (w ∷ ws) =
      shutdown_all ws >>= λ ws'. call_stop invoker e (w ∷ ws') >>= shutdown_first

  unfoldable pub shutdown_gracefully :
      ℕ → EngineOptions → Bool → Engine S → List (Worker S) → Outcome (Engine S × List (Worker S))
  shutdown_gracefully fuel opt invoker e [] = done (e, [])
  shutdown_gracefully fuel opt invoker e (w ∷ ws) =
      drain_sessions fuel (env.begin + opt.shutdown_drain_timeout) 0
        (map (request_stop_accepting false) (w ∷ ws))
      >>= λ drained. stop_workers invoker e (force_close drained)
