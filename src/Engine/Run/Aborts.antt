-- ===== src/Engine/Run/Aborts.antt =====
-- A run in which the start of a worker raises.
use network_engine_portfolio.Prelude.{
  ℕ, suc, ◌+◌, ◌≡◌, refl, ap, ap₂, ◌∙◌, subst, true, false, Option, none, some, List, [], ◌∷◌, ◌++◌,
  map, length, arith,
}
use network_engine_portfolio.Core.Config.{
  EngineOptions, validate_engine_config, make_effective_engine_options,
}
use network_engine_portfolio.Engine.Outcome.{done, dangling, ◌>>=◌}
use network_engine_portfolio.Engine.Worker.{
  SessionCalls, Worker, request_stop_accepting, query_session_count_blocking, post_and_wait,
}
use network_engine_portfolio.Engine.Worker.Frame.{is_there}
use network_engine_portfolio.Engine.Worker.Down.{
  Down, stop-Stopped, shutdown-ShutDown, shutdown-idle,
}
use network_engine_portfolio.Engine.Control.{Engine, stopped, reset_for_run}
use network_engine_portfolio.Engine.Shutdown.{
  Surroundings, query_all, drain_sessions, force_close, shutdown_all, call_on_first, call_stop,
  stop_workers, shutdown_gracefully,
}
use network_engine_portfolio.Engine.Shutdown.Ends.{AllDown}
use network_engine_portfolio.Engine.Run.{
  Outside, start_workers, stop_each, abort_run, run_started, run, closed,
}
use network_engine_portfolio.Engine.Run.Starts.{
  any_fails, AllInitialized, AllBegun, start_each-EachBegun,
}
use network_engine_portfolio.Engine.Run.Setup.{
  created, created-AllReady, length-created, routed, run_workers_lem, run-Entered,
}

missing : {A : Type 0} (o : Option A) → is_there o ≡ false → o ≡ none
missing none e = refl
missing (some a) e = absurd cc

module _ {S : Type 0} where
  loopless : (w : Worker S) → Down w → w.event_loop ≡ none
  loopless w d = missing w.event_loop (ap (λ p. p.3) d.0)

  idle_listener : (w : Worker S) → Down w → request_stop_accepting false w ≡ w
  unfolding request_stop_accepting
  idle_listener w d = rw (request_stop_accepting, loopless w d) (rw (loopless w d) refl)

  idle_listeners : (ws : List (Worker S)) → AllDown ws → map (request_stop_accepting false) ws ≡ ws
  idle_listeners [] d = refl
  idle_listeners (w ∷ ws) d = ap₂ (λ v vs. v ∷ vs) (idle_listener w d.0) (idle_listeners ws d.1)

module _ {S : Type 0} (calls : SessionCalls S) (env : Surroundings S) where
  -- What the stop of all comes to.
  record EachStopped (ws : List (Worker S)) : Type 0 where
    rest : List (Worker S)
    returns : stop_each calls env ws ≡ done rest
    are_down : AllDown rest
    as_many : length rest ≡ length ws

  stop_each-EachStopped : (ws : List (Worker S)) → AllInitialized ws → EachStopped ws
  unfolding stop_each
  stop_each-EachStopped [] i = record { rest = []; returns = refl; are_down = tt; as_many = refl }
  stop_each-EachStopped (w ∷ ws) i =
      let s = stop-Stopped calls env.drains w in
      let d = shutdown-ShutDown calls env.drains s.rest (ap (λ p. p.0) s.same ∙ i.0) in
      let r = stop_each-EachStopped ws i.1 in
      record {
        rest = d.rest ∷ r.rest;
        returns = rw (s.returns, d.returns, r.returns) refl;
        are_down = (d.is_down, r.are_down);
        as_many = ap suc r.as_many;
      }

  idle_query :
      (answer : Option (S → S)) (w : Worker S)
      → Down w
      → query_session_count_blocking calls answer w ≡ (0, w)
  unfolding query_session_count_blocking
  idle_query answer w d = rw (query_session_count_blocking, loopless w d) (rw (loopless w d) refl)

  idle_queries :
      (poll : ℕ) (ws : List (Worker S)) → AllDown ws → query_all calls env poll ws ≡ (0, ws)
  unfolding query_all
  idle_queries poll [] d = refl
  idle_queries poll (w ∷ ws) d =
      ap₂ (λ (p q : ℕ × List (Worker S)). (p.0 + q.0, p.1 ++ q.1))
        (ap (λ (p : ℕ × Worker S). (p.0, p.1 ∷ [])) (idle_query (env.polls poll w.id) w d.0))
        (idle_queries poll ws d.1)

  idle_shutdowns : (ws : List (Worker S)) → AllDown ws → shutdown_all calls env ws ≡ done ws
  unfolding shutdown_all
  idle_shutdowns [] d = refl
  idle_shutdowns (w ∷ ws) d =
      rw (shutdown-idle calls env.drains w (ap (λ p. p.0) d.0.0), idle_shutdowns ws d.1) refl

  idle_call : (w : Worker S) → Down w → post_and_wait calls w ≡ dangling
  unfolding post_and_wait
  idle_call w d = rw (post_and_wait, loopless w d) refl

  -- The shutdown of workers that are down, with an invoker.
  shutdown_gracefully-dangling :
      (fuel : ℕ) (opt : EngineOptions) (e : Engine S) (w : Worker S) (ws : List (Worker S))
      → AllDown (w ∷ ws)
      → shutdown_gracefully calls env (suc fuel) opt true e (w ∷ ws) ≡ dangling
  unfolding shutdown_gracefully drain_sessions force_close stop_workers call_stop call_on_first
  shutdown_gracefully-dangling fuel opt e w ws d =
      rw
        (
          idle_listeners (w ∷ ws) d,
          idle_queries 0 (w ∷ ws) d,
          idle_shutdowns ws d.1,
          idle_call w d.0,
        )
        refl

  down-dangling :
      (o : Outside) (fuel : ℕ) (opt : EngineOptions) (e : Engine S) (ws : List (Worker S)) (n : ℕ)
      → AllDown ws
      → length ws ≡ suc n
      → run_started calls env o (suc fuel) opt true (true, e, ws) ≡ dangling
  unfolding run_started abort_run
  down-dangling o fuel opt e [] n d l = absurd (omega (arith, l))
  down-dangling o fuel opt e (w ∷ ws) n d l =
      ap (λ r. r >>= λ r. done (closed calls env true r))
        (shutdown_gracefully-dangling fuel opt (record e { is_running = false }) w ws d)

  -- If the start of a worker raises in a run that has an application, a valid configuration and a
  -- metrics server that starts if it is wanted, then the run follows the pointer of the invoker to
  -- the loop of the first worker after that loop has been destroyed.
  pub run-dangling :
      (o : Outside) (fuel : ℕ) (e : Engine S)
      → validate_engine_config o.hardware e.config ≡ none
      → e.app ≡ true
      → o.metrics_starts ≡ true
      → any_fails o.start_answers e.config.listen_port 0
          (make_effective_engine_options o.hardware e.config).worker_count
        ≡ true
      → run calls env o (suc fuel) e ≡ dangling
  unfolding start_workers reset_for_run
  run-dangling o fuel e valid a metrics fails =
      let opt : EngineOptions = make_effective_engine_options o.hardware e.config in
      let r = run-Entered calls env o (suc fuel) e valid metrics in
      let e' : Engine S = record (reset_for_run (record e { main_tid_ready = true })) {
        metrics_server = r.server;
      } in
      let ws : List (Worker S) = created calls env opt e' in
      let port : ℕ = e.config.listen_port in
      let b =
        start_each-EachBegun calls env o.start_answers port 0 ws
          (created-AllReady calls env opt e' a) in
      let long = length-created calls env opt e' in
      let raised = ap (any_fails o.start_answers port 0) long ∙ fails in
      let s = stop_each-EachStopped b.rest (subst (λ x. AllBegun x b.rest) raised b.state) in
      r.returns
      ∙ run_workers_lem calls env o (suc fuel) opt e' r.others a r.count
      ∙ rw (b.returns, raised, s.returns)
          (down-dangling o fuel opt
            (record (routed calls env opt e') { is_running = false; state = stopped }) s.rest
            r.others s.are_down (s.as_many ∙ b.as_many ∙ long ∙ r.count))
