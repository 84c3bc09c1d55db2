-- ===== src/Engine/Run/Whole.antt =====
-- A run, from its call to its return.
use network_engine_portfolio.Prelude.{ℕ, ◌+◌, ◌≤◌, ◌<◌, ◌≡◌, sym, subst, true, false, none, some}
use network_engine_portfolio.Core.Config.{
  EngineOptions, validate_engine_config, make_effective_engine_options,
}
use network_engine_portfolio.Engine.Worker.{SessionCalls}
use network_engine_portfolio.Engine.Control.{Engine, StopSource, reset_for_run}
use network_engine_portfolio.Engine.Control.First.{first_stop}
use network_engine_portfolio.Engine.Shutdown.{Surroundings}
use network_engine_portfolio.Engine.Run.{Outside, run}
use network_engine_portfolio.Engine.Run.Starts.{any_fails}
use network_engine_portfolio.Engine.Run.Ends.{RanWhole, run_workers-RanWhole}
use network_engine_portfolio.Engine.Run.Setup.{run-Entered}

module _ {S : Type 0} (calls : SessionCalls S) (env : Surroundings S) where
  -- For a configuration that passes the validation, with an application, a metrics server that
  -- starts if it is wanted, workers whose starts do not raise, an onServerStart that does not
  -- throw, a request to stop, and a clock that moves by one at least with each poll of the drain,
  -- for which there is more fuel than it has time: run returns without an exception, with the
  -- engine stopped and the first request as the cause, and every worker down. The application is
  -- told of the start once, when all workers serve, and then of the stop once, when the first
  -- worker serves and all others are down.
  pub run-RanWhole :
      (o : Outside) (fuel : ℕ) (e : Engine S) (source : StopSource × ℕ)
      (moves : (i : ℕ) → env.begin + i ≤ env.clock i)
      (enough : (make_effective_engine_options o.hardware e.config).shutdown_drain_timeout < fuel)
      (asked : first_stop o.wakes ≡ some source) (quiet : o.start_throws ≡ false)
      → validate_engine_config o.hardware e.config ≡ none
      → e.app ≡ true
      → o.metrics_starts ≡ true
      → any_fails o.start_answers e.config.listen_port 0
          (make_effective_engine_options o.hardware e.config).worker_count
        ≡ false
      → RanWhole calls env o fuel
          (make_effective_engine_options o.hardware e.config)
          source
          moves
          enough
          asked
          quiet
          (run calls env o fuel e)
          e.app_calls
  unfolding reset_for_run
  run-RanWhole o fuel e source moves enough asked quiet valid a metrics well =
      let opt : EngineOptions = make_effective_engine_options o.hardware e.config in
      let r = run-Entered calls env o fuel e valid metrics in
      let e' : Engine S = record (reset_for_run (record e { main_tid_ready = true })) {
        metrics_server = r.server;
      } in
      subst (λ out. RanWhole calls env o fuel opt source moves enough asked quiet out e.app_calls)
        (sym r.returns)
        (run_workers-RanWhole calls env o fuel opt source moves enough asked quiet e' r.others a
          r.count well)
