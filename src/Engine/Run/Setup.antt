-- ===== src/Engine/Run/Setup.antt =====
-- What a run does with its workers before it starts them.
use network_engine_portfolio.Prelude.{
  ℕ, zero, suc, ◌≡◌, refl, ap, ◌∙◌, Bool, true, false, not, Option, none, some, List, [], ◌∷◌, map,
  length, arith, ◌<◌, ◌==◌, inl, inr, Bool-cases, if◌then◌else◌,
}
use network_engine_portfolio.Core.Config.{
  EngineOptions, validate_engine_config, make_effective_engine_options,
}
use network_engine_portfolio.Core.Config.Sound.{make_effective_engine_options-IsSound}
use network_engine_portfolio.Engine.Outcome.{done, dangling, ◌>>=◌}
use network_engine_portfolio.Engine.Worker.{SessionCalls, Worker, set_app_callback_invoker}
use network_engine_portfolio.Engine.Control.{Engine, reset_for_run}
use network_engine_portfolio.Engine.Shutdown.{Surroundings}
use network_engine_portfolio.Engine.Run.{
  Outside, loop_missing, any_loop_missing, setup_app_callbacks, setup_routing, create_workers,
  start_workers, run_started, run_workers, run, start_metrics, abort_run,
}
use network_engine_portfolio.Engine.Run.Starts.{
  AllReady, create_workers-AllReady, length-create_workers, set_invoker-AllReady,
}

module _ {S : Type 0} (calls : SessionCalls S) (env : Surroundings S) where
  loops_there :
      (port i : ℕ) (ws : List (Worker S))
      → AllReady calls env port i ws
      → any_loop_missing ws ≡ false
  unfolding any_loop_missing
  loops_there port i [] r = refl
  loops_there port i (w ∷ ws) r =
      ap (λ v. if loop_missing v then true else any_loop_missing ws) r.0.is
      ∙ loops_there port (suc i) ws r.1

  length-map : (f : Worker S → Worker S) (ws : List (Worker S)) → length (map f ws) ≡ length ws
  length-map f [] = refl
  length-map f (w ∷ ws) = ap suc (length-map f ws)

  -- The workers as they are started.
  unfoldable pub created : EngineOptions → Engine S → List (Worker S)
  created opt e = map set_app_callback_invoker (create_workers calls env opt opt.worker_count 0 e)

  pub created-AllReady :
      (opt : EngineOptions) (e : Engine S)
      → e.app ≡ true
      → AllReady calls env e.config.listen_port 0 (created opt e)
  unfolding created
  created-AllReady opt e a =
      set_invoker-AllReady calls env e.config.listen_port 0
        (create_workers calls env opt opt.worker_count 0 e)
        (create_workers-AllReady calls env opt opt.worker_count 0 e a)

  pub length-created :
      (opt : EngineOptions) (e : Engine S) → length (created opt e) ≡ opt.worker_count
  unfolding created
  length-created opt e =
      length-map set_app_callback_invoker (create_workers calls env opt opt.worker_count 0 e)
      ∙ length-create_workers calls env opt opt.worker_count 0 e

  abbrev pub routed : EngineOptions → Engine S → Engine S
  routed opt e = record e { router = some (length (created opt e)) }

  with_invoker :
      (e : Engine S) (ws : List (Worker S)) (n : ℕ)
      → e.app ≡ true
      → length ws ≡ suc n
      → setup_app_callbacks e ws ≡ (true, map set_app_callback_invoker ws)
  unfolding setup_app_callbacks
  with_invoker e [] n a l = absurd (omega (arith, l))
  with_invoker e (w ∷ ws) n a l =
      ap (λ b. if not b then (false, w ∷ ws) else (true, map set_app_callback_invoker (w ∷ ws))) a

  with_router :
      (opt : EngineOptions) (e : Engine S)
      → e.app ≡ true
      → setup_routing e (created opt e) ≡ done (routed opt e)
  unfolding setup_routing
  with_router opt e a =
      ap (λ b. if b then dangling else done (if e.app then routed opt e else e))
        (loops_there e.config.listen_port 0 (created opt e) (created-AllReady opt e a))
      ∙ ap (λ b. done (if b then routed opt e else e)) a

  -- With an application and a worker the run comes to the start of the workers.
  pub run_workers_lem :
      (o : Outside) (fuel : ℕ) (opt : EngineOptions) (e : Engine S) (n : ℕ)
      → e.app ≡ true
      → opt.worker_count ≡ suc n
      → run_workers calls env o fuel opt e ≡ (
          start_workers calls env o.start_answers (routed opt e) (created opt e)
          >>= run_started calls env o fuel opt true)
  unfolding run_workers created
  run_workers_lem o fuel opt e n a count =
      ap
        (λ s. setup_routing e s.1 >>= λ e'.
          start_workers calls env o.start_answers e' s.1 >>= run_started calls env o fuel opt s.0)
        (with_invoker e (create_workers calls env opt opt.worker_count 0 e) n a
          (length-create_workers calls env opt opt.worker_count 0 e ∙ count))
      ∙ ap
          (λ r. r >>= λ e'.
            start_workers calls env o.start_answers e' (created opt e)
            >>= run_started calls env o fuel opt true)
          (with_router opt e a)

  -- What the start of the metrics server comes to.
  pub record Measured (e : Engine S) : Type 0 where
    pub server : Option Bool
    pub returns : start_metrics true e ≡ (true, record e { metrics_server = server })

  start_metrics-Measured : (e : Engine S) → Measured e
  unfolding start_metrics
  start_metrics-Measured e = elim (Bool-cases (e.config.metrics_http_port == 0)) [
    | inl t ↦ record { server = e.metrics_server; returns = rw t refl }
    | inr f ↦ record { server = some false; returns = rw f refl }
  ]

  abbrev pub options : Outside → Engine S → EngineOptions
  options o e = make_effective_engine_options o.hardware e.config

  -- A run in which the metrics server starts, if it is wanted, comes to its workers.
  pub record Entered (o : Outside) (fuel : ℕ) (e : Engine S) : Type 0 where
    pub server : Option Bool
    pub returns :
        run calls env o fuel e
        ≡ run_workers calls env o fuel
            (options o e)
            (record (reset_for_run (record e { main_tid_ready = true })) {
              metrics_server = server;
            })
    pub others : ℕ
    pub count : (options o e).worker_count ≡ suc others

  positive : (n : ℕ) → 0 < n → (k : ℕ) × (n ≡ suc k)
  positive zero h = absurd (omega arith)
  positive (suc k) h = (k, refl)

  pub run-Entered :
      (o : Outside) (fuel : ℕ) (e : Engine S)
      → validate_engine_config o.hardware e.config ≡ none
      → o.metrics_starts ≡ true
      → Entered o fuel e
  unfolding run
  run-Entered o fuel e valid metrics =
      let e' : Engine S = reset_for_run (record e { main_tid_ready = true }) in
      let m = start_metrics-Measured e' in
      let (n, count) =
        positive (options o e).worker_count
          (make_effective_engine_options-IsSound o.hardware e.config valid).workers in
      record {
        server = m.server;
        returns =
            ap
              (λ r.
                if r.0
                then run_workers calls env o fuel (options o e) r.1
                else abort_run calls env fuel (options o e) false r.1 [])
              (ap (λ b. start_metrics b e') metrics ∙ m.returns);
        others = n;
        count = count;
      }
