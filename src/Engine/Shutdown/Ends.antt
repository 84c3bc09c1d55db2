-- ===== src/Engine/Shutdown/Ends.antt =====
-- The whole shutdown.
use network_engine_portfolio.Prelude.{
  ℕ, ◌+◌, ◌≤◌, ◌<◌, ◌≡◌, refl, sym, ap, ◌∙◌, subst, Bool, true, false, List, [], ◌∷◌, map, arith,
  if◌then◌else◌,
}
use network_engine_portfolio.Core.Config.{EngineOptions}
use network_engine_portfolio.Engine.Outcome.{Outcome, done, ◌>>=◌}
use network_engine_portfolio.Engine.Worker.{SessionCalls, Worker, request_stop_accepting}
use network_engine_portfolio.Engine.Worker.Frame.{frame, Serving, post_and_wait-Answered}
use network_engine_portfolio.Engine.Worker.Down.{Down, shutdown-ShutDown}
use network_engine_portfolio.Engine.Control.{Engine, server_stop, call_app}
use network_engine_portfolio.Engine.Shutdown.{
  Surroundings, force_close, shutdown_all, call_on_first, call_stop, shutdown_first, stop_workers,
  shutdown_gracefully,
}
use network_engine_portfolio.Engine.Shutdown.Drain.{
  AllServing, kept, stop_accepting-frame, force_close-frame, drain_sessions-Drained,
}

abbrev pub AllDown : {S : Type 0} → List (Worker S) → Type 0
AllDown [] = Unit
AllDown (w ∷ ws) = Down w × AllDown ws

module _ {S : Type 0} (calls : SessionCalls S) (env : Surroundings S) where
  pub record AllStopped (ws : List (Worker S)) : Type 0 where
    pub rest : List (Worker S)
    pub returns : shutdown_all calls env ws ≡ done rest
    pub are_down : AllDown rest

  shutdown_all-AllStopped : (ws : List (Worker S)) → AllServing ws → AllStopped ws
  unfolding shutdown_all
  shutdown_all-AllStopped [] up = record { rest = []; returns = refl; are_down = tt }
  shutdown_all-AllStopped (w ∷ ws) up =
      let s = shutdown-ShutDown calls env.drains w (ap (λ p. p.0) up.0) in
      let r = shutdown_all-AllStopped ws up.1 in
      record {
        rest = s.rest ∷ r.rest;
        returns = rw (s.returns, r.returns) refl;
        are_down = (s.is_down, r.are_down);
      }

  -- What a shutdown comes to: the engine and the workers, and what the workers are when the
  -- application is told of it, the first in its loop and the others down.
  pub record Halted (stopping : Outcome (Engine S × List (Worker S))) (invoker : Bool)
      (e : Engine S) : Type 0 where
    pub engine : Engine S
    pub workers : List (Worker S)
    pub first : Worker S
    pub others : List (Worker S)
    pub returns : stopping ≡ done (engine, workers)
    pub are_down : AllDown workers
    pub first_up : Serving first
    pub others_down : AllDown others
    pub told : engine ≡ (if invoker then call_app server_stop (first ∷ others) e else e)

  stop_first :
      (invoker : Bool) (e : Engine S) (w : Worker S) (ws : List (Worker S))
      → Serving w
      → AllDown ws
      → Halted (call_stop calls env invoker e (w ∷ ws) >>= shutdown_first calls env) invoker e
  unfolding call_stop call_on_first shutdown_first
  stop_first false e w ws up down =
      let s = shutdown-ShutDown calls env.drains w (ap (λ p. p.0) up) in
      record {
        engine = e;
        workers = s.rest ∷ ws;
        first = w;
        others = ws;
        returns = rw s.returns refl;
        are_down = (s.is_down, down);
        first_up = up;
        others_down = down;
        told = refl;
      }
  stop_first true e w ws up down =
      let a = post_and_wait-Answered calls w up in
      let s = shutdown-ShutDown calls env.drains a.rest (ap (λ p. p.0) (a.same ∙ up)) in
      record {
        engine = call_app server_stop (w ∷ ws) e;
        workers = s.rest ∷ ws;
        first = w;
        others = ws;
        returns = rw (a.returns, s.returns) refl;
        are_down = (s.is_down, down);
        first_up = up;
        others_down = down;
        told = refl;
      }

  stop_workers-Halted :
      (invoker : Bool) (e : Engine S) (w : Worker S) (ws : List (Worker S))
      → AllServing (w ∷ ws)
      → Halted (stop_workers calls env invoker e (w ∷ ws)) invoker e
  unfolding stop_workers
  stop_workers-Halted invoker e w ws up =
      let r = shutdown_all-AllStopped ws up.1 in
      subst (λ o. Halted o invoker e)
        (ap (λ o. o >>= λ ws'. call_stop calls env invoker e (w ∷ ws') >>= shutdown_first calls env)
          (sym r.returns))
        (stop_first invoker e w r.rest up.0 r.are_down)

  stop_all-Halted :
      (invoker : Bool) (e : Engine S) (w : Worker S) (ws vs : List (Worker S))
      → AllServing (w ∷ ws)
      → map frame vs ≡ map frame (w ∷ ws)
      → Halted (stop_workers calls env invoker e vs) invoker e
  stop_all-Halted invoker e w ws [] up same = absurd cc
  stop_all-Halted invoker e w ws (v ∷ vs) up same =
      stop_workers-Halted invoker e v vs (kept (w ∷ ws) (v ∷ vs) same up)

  -- If every worker serves, the clock moves by one at least with each poll, and there is more fuel
  -- than the time that the drain has, then the shutdown returns, with every worker down: its
  -- thread is joined, and its loop, its sessions and its listener are gone. With an invoker the
  -- application has been told of the stop once, on the loop of the first worker, which served,
  -- when all others were down.
  pub shutdown_gracefully-Halted :
      (fuel : ℕ) (opt : EngineOptions) (invoker : Bool) (e : Engine S) (w : Worker S)
      (ws : List (Worker S))
      → ((i : ℕ) → env.begin + i ≤ env.clock i)
      → opt.shutdown_drain_timeout < fuel
      → AllServing (w ∷ ws)
      → Halted (shutdown_gracefully calls env fuel opt invoker e (w ∷ ws)) invoker e
  unfolding shutdown_gracefully
  shutdown_gracefully-Halted fuel opt invoker e w ws moves enough up =
      let asked : List (Worker S) = map (request_stop_accepting false) (w ∷ ws) in
      let d =
        drain_sessions-Drained calls env opt.shutdown_drain_timeout moves fuel 0 asked
          (omega (arith, enough)) (omega arith) in
      subst (λ o. Halted o invoker e)
        (ap (λ o. o >>= λ drained. stop_workers calls env invoker e (force_close calls env drained))
          (sym d.returns))
        (stop_all-Halted invoker e w ws (force_close calls env d.left) up
          (force_close-frame calls env d.left ∙ d.same ∙ stop_accepting-frame calls env (w ∷ ws)))
