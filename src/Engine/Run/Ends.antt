-- ===== src/Engine/Run/Ends.antt =====
-- A run that starts well and is asked to stop.
use network_engine_portfolio.Prelude.{
  ℕ, suc, ◌+◌, ◌≤◌, ◌<◌, ◌≡◌, refl, sym, ap, ◌∙◌, subst, true, false, none, some, List, [], ◌∷◌,
  ◌++◌, length, arith,
}
use network_engine_portfolio.Core.Config.{EngineOptions}
use network_engine_portfolio.Engine.Outcome.{Outcome, done, ◌>>=◌}
use network_engine_portfolio.Engine.Worker.{SessionCalls, Worker}
use network_engine_portfolio.Engine.Worker.Frame.{Serving, post_and_wait-Answered}
use network_engine_portfolio.Engine.Control.{
  Engine, stopped, StopSource, AppCall, server_start, server_stop, request_stop, call_app,
}
use network_engine_portfolio.Engine.Control.First.{
  first_stop, running_engine, stopped_by, wait_for_stop-first,
}
use network_engine_portfolio.Engine.Shutdown.{Surroundings, call_on_first, shutdown_gracefully}
use network_engine_portfolio.Engine.Shutdown.Drain.{AllServing}
use network_engine_portfolio.Engine.Shutdown.Ends.{AllDown, shutdown_gracefully-Halted}
use network_engine_portfolio.Engine.Run.{
  Outside, Ended, closed, stop_metrics, start_workers, serve, run_started, run_workers,
}
use network_engine_portfolio.Engine.Run.Starts.{any_fails, AllBegun, start_each-EachBegun}
use network_engine_portfolio.Engine.Run.Setup.{
  created, created-AllReady, length-created, routed, run_workers_lem,
}

module _ {S : Type 0} (calls : SessionCalls S) (env : Surroundings S) where
  -- A run that ends without an exception: the engine and the workers, what asked it to stop, and
  -- what the workers are when the application is told of the stop. `before` are the callbacks made
  -- until then.
  pub record Ran (out : Outcome (Ended S)) (before : List (AppCall × List (Worker S)))
      (source : StopSource × ℕ) : Type 0 where
    pub engine : Engine S
    pub workers : List (Worker S)
    pub first : Worker S
    pub others : List (Worker S)
    pub returns : out ≡ done (false, engine, workers)
    pub are_down : AllDown workers
    pub first_up : Serving first
    pub others_down : AllDown others
    pub told : engine.app_calls ≡ before ++ (server_stop, first ∷ others) ∷ []
    pub ended :
        (engine.state ≡ stopped)
        × (engine.is_running ≡ false)
        × (engine.main_tid_ready ≡ false)
        × (engine.metrics_server ≡ none)
    pub cause : (engine.stop_source ≡ source.0) × (engine.stop_signal ≡ source.1)

  module _ (o : Outside) (fuel : ℕ) (opt : EngineOptions) (source : StopSource × ℕ)
      (moves : (i : ℕ) → env.begin + i ≤ env.clock i) (enough : opt.shutdown_drain_timeout < fuel)
      (asked : first_stop o.wakes ≡ some source) where
    serve-Ran :
        (e : Engine S) (w : Worker S) (ws : List (Worker S))
        → AllServing (w ∷ ws)
        → Ran (serve calls env o fuel opt true (running_engine e) (w ∷ ws)) e.app_calls source
    unfolding serve stop_metrics request_stop call_app
    serve-Ran e w ws up =
        let e' : Engine S = request_stop source.0 source.1 (running_engine e) in
        let h = shutdown_gracefully-Halted calls env fuel opt true e' w ws moves enough up in
        record {
          engine = (closed calls env false (h.engine, h.workers)).1;
          workers = h.workers;
          first = h.first;
          others = h.others;
          returns =
              ap
                (λ r. r >>= λ e'. shutdown_gracefully calls env fuel opt true e' (w ∷ ws) >>= λ r.
                  done (closed calls env false r))
                (wait_for_stop-first o.wakes e ∙ ap (λ s. stopped_by s (running_engine e)) asked)
              ∙ ap (λ r. r >>= λ r. done (closed calls env false r)) h.returns;
          are_down = h.are_down;
          first_up = h.first_up;
          others_down = h.others_down;
          told = ap (λ (x : Engine S). x.app_calls) h.told;
          ended = (refl, ap (λ (x : Engine S). x.is_running) h.told, refl, refl);
          cause = (
            ap (λ (x : Engine S). x.stop_source) h.told,
            ap (λ (x : Engine S). x.stop_signal) h.told,
          );
        }

    module _ (quiet : o.start_throws ≡ false) where
      run_started-Ran :
          (e : Engine S) (w : Worker S) (ws : List (Worker S))
          → AllServing (w ∷ ws)
          → Ran
              (run_started calls env o fuel opt true (false, running_engine e, w ∷ ws))
              (e.app_calls ++ (server_start, w ∷ ws) ∷ [])
              source
      unfolding run_started call_on_first call_app
      run_started-Ran e w ws up =
          let a = post_and_wait-Answered calls w up.0 in
          let e' : Engine S = call_app server_start (w ∷ ws) (running_engine e) in
          subst (λ r. Ran r (e.app_calls ++ (server_start, w ∷ ws) ∷ []) source)
            (sym (rw (a.returns, quiet) refl)) (serve-Ran e' a.rest ws (a.same ∙ up.0, up.1))

      started-Ran :
          (e : Engine S) (vs ws : List (Worker S)) (n : ℕ)
          → length ws ≡ suc n
          → length vs ≡ length ws
          → AllServing vs
          → Ran
              (run_started calls env o fuel opt true (false, running_engine e, vs))
              (e.app_calls ++ (server_start, vs) ∷ [])
              source
      started-Ran e [] ws n l l' up = absurd (omega (arith, l, l'))
      started-Ran e (v ∷ vs) ws n l l' up = run_started-Ran e v vs up

      -- With what the workers are when the application is told of the start.
      pub record RanWhole (out : Outcome (Ended S)) (before : List (AppCall × List (Worker S)))
          : Type 0 where
        pub started : List (Worker S)
        pub started_up : AllServing started
        pub ran : Ran out (before ++ (server_start, started) ∷ []) source

      pub run_workers-RanWhole :
          (e : Engine S) (n : ℕ)
          → e.app ≡ true
          → opt.worker_count ≡ suc n
          → any_fails o.start_answers e.config.listen_port 0 opt.worker_count ≡ false
          → RanWhole (run_workers calls env o fuel opt (running_engine e)) e.app_calls
      unfolding start_workers
      run_workers-RanWhole e n a count well =
          let e' : Engine S = running_engine e in
          let ws : List (Worker S) = created calls env opt e' in
          let port : ℕ = e.config.listen_port in
          let b =
            start_each-EachBegun calls env o.start_answers port 0 ws
              (created-AllReady calls env opt e' a) in
          let long = length-created calls env opt e' in
          let fine = ap (any_fails o.start_answers port 0) long ∙ well in
          let up : AllServing b.rest = subst (λ x. AllBegun x b.rest) fine b.state in
          record {
            started = b.rest;
            started_up = up;
            ran =
                subst (λ r. Ran r (e.app_calls ++ (server_start, b.rest) ∷ []) source)
                  (sym
                    (run_workers_lem calls env o fuel opt e' n a count ∙ rw (b.returns, fine) refl))
                  (started-Ran (routed calls env opt e') b.rest ws n (long ∙ count) b.as_many up);
          }
