-- ===== src/Engine/Run/Starts.antt =====
-- The workers that the engine creates, and the start of all of them.
use network_engine_portfolio.Prelude.{
  ℕ, zero, suc, ◌≡◌, refl, sym, ap, subst, Bool, true, false, not, List, [], ◌∷◌, map, length, ◌==◌,
  ==_iff, inl, inr, Bool-cases, if◌then◌else◌,
}
use network_engine_portfolio.Core.Config.{EngineOptions}
use network_engine_portfolio.Net.EventLoop.{Loop}
use network_engine_portfolio.Engine.Outcome.{done}
use network_engine_portfolio.Engine.Worker.{
  SessionCalls, Worker, no_thread, looping, StartAnswers, empty_loop, initialize,
  configure_listener, set_app_callback_invoker,
}
use network_engine_portfolio.Engine.Worker.Life.{start}
use network_engine_portfolio.Engine.Worker.Begin.{start_fails, ready, start-Begun}
use network_engine_portfolio.Engine.Worker.Frame.{frame, Serving}
use network_engine_portfolio.Engine.Control.{Engine}
use network_engine_portfolio.Engine.Shutdown.{Surroundings}
use network_engine_portfolio.Engine.Shutdown.Drain.{AllServing}
use network_engine_portfolio.Engine.Run.{new_worker, create_worker, create_workers, start_each}

abbrev pub AllInitialized : {S : Type 0} → List (Worker S) → Type 0
AllInitialized [] = Unit
AllInitialized (w ∷ ws) = (w.initialized ≡ true) × AllInitialized ws

-- Whether the start of one of the workers raises, of so many from an id on.
unfoldable pub any_fails : (ℕ → StartAnswers) → (port i count : ℕ) → Bool
any_fails answers port i zero = false
any_fails answers port i (suc count) =
    let rest = any_fails answers port (suc i) count in
    if start_fails (answers i) port then true else rest

-- What the workers are after the starts, by whether one raised.
abbrev pub AllBegun : {S : Type 0} → Bool → List (Worker S) → Type 0
AllBegun true ws = AllInitialized ws
AllBegun false ws = AllServing ws

module _ {S : Type 0} (calls : SessionCalls S) (env : Surroundings S) where
  -- A worker with an id that is ready to listen on a port.
  pub record Ready (port i : ℕ) (w : Worker S) : Type 0 where
    pub base : Worker S
    pub loop : Loop Unit
    pub sessions : S
    pub is : w ≡ ready calls env.drains base loop sessions
    pub listens : base.listener_config.port ≡ port
    pub named : base.id ≡ i

  abbrev pub AllReady : ℕ → ℕ → List (Worker S) → Type 0
  AllReady port i [] = Unit
  AllReady port i (w ∷ ws) = Ready port i w × AllReady port (suc i) ws

  create_with_app :
      (opt : EngineOptions) (i : ℕ) (e : Engine S)
      → Ready e.config.listen_port i (create_worker calls env opt i (record e { app = true }))
  unfolding create_worker initialize new_worker configure_listener
  create_with_app opt i e = elim (Bool-cases (e.config.listen_port == 0)) [
    | inl t ↦ record {
      base = new_worker opt i e;
      loop = empty_loop;
      sessions = calls.make i opt;
      is = rw t refl;
      listens = sym ((==_iff e.config.listen_port 0).0 t);
      named = refl;
    }
    | inr f ↦ record {
      base = record (new_worker opt i e) {
        listener_config = record {
          address = e.config.listen_address;
          port = e.config.listen_port;
          backlog = opt.listen_backlog;
          reuse_port = e.config.reuse_port;
        };
        listener_configured = true;
      };
      loop = empty_loop;
      sessions = calls.make i opt;
      is = rw f refl;
      listens = refl;
      named = refl;
    }
  ]

  create_worker-Ready :
      (opt : EngineOptions) (i : ℕ) (e : Engine S)
      → e.app ≡ true
      → Ready e.config.listen_port i (create_worker calls env opt i e)
  create_worker-Ready opt i e a =
      subst
        (λ b. Ready e.config.listen_port i (create_worker calls env opt i (record e { app = b })))
        (sym a) (create_with_app opt i e)

  pub create_workers-AllReady :
      (opt : EngineOptions) (count i : ℕ) (e : Engine S)
      → e.app ≡ true
      → AllReady e.config.listen_port i (create_workers calls env opt count i e)
  unfolding create_workers
  create_workers-AllReady opt zero i e a = tt
  create_workers-AllReady opt (suc count) i e a =
      (create_worker-Ready opt i e a, create_workers-AllReady opt count (suc i) e a)

  pub length-create_workers :
      (opt : EngineOptions) (count i : ℕ) (e : Engine S)
      → length (create_workers calls env opt count i e) ≡ count
  unfolding create_workers
  length-create_workers opt zero i e = refl
  length-create_workers opt (suc count) i e = ap suc (length-create_workers opt count (suc i) e)

  -- The invoker changes nothing that a start reads.
  pub set_invoker-AllReady :
      (port i : ℕ) (ws : List (Worker S))
      → AllReady port i ws
      → AllReady port i (map set_app_callback_invoker ws)
  unfolding set_app_callback_invoker
  set_invoker-AllReady port i [] r = tt
  set_invoker-AllReady port i (w ∷ ws) r = (
    record {
      base = record r.0.base { app_callbacks = true };
      loop = r.0.loop;
      sessions = r.0.sessions;
      is = ap set_app_callback_invoker r.0.is;
      listens = r.0.listens;
      named = r.0.named;
    },
    set_invoker-AllReady port (suc i) ws r.1,
  )

  AllReady-AllInitialized :
      (port i : ℕ) (ws : List (Worker S)) → AllReady port i ws → AllInitialized ws
  AllReady-AllInitialized port i [] r = tt
  AllReady-AllInitialized port i (w ∷ ws) r =
      (ap (λ v. v.initialized) r.0.is, AllReady-AllInitialized port (suc i) ws r.1)

  -- What the starts come to.
  pub record EachBegun (answers : ℕ → StartAnswers) (port i : ℕ) (ws : List (Worker S))
      : Type 0 where
    pub rest : List (Worker S)
    pub returns :
        start_each calls env answers ws ≡ done (any_fails answers port i (length ws), rest)
    pub state : AllBegun (any_fails answers port i (length ws)) rest
    pub as_many : length rest ≡ length ws

  -- What the start of one comes to, by its id and its port.
  pub record OneBegun (answers : ℕ → StartAnswers) (port i : ℕ) (w : Worker S) : Type 0 where
    pub rest : Worker S
    pub returns :
        start calls env.drains (answers w.id) w ≡ done (start_fails (answers i) port, rest)
    pub state : AllBegun (start_fails (answers i) port) (rest ∷ [])

  begun :
      (b : Bool) (w : Worker S)
      → frame w ≡ (true, not b, (if b then no_thread else looping), true)
      → AllBegun b (w ∷ [])
  begun true w e = (ap (λ p. p.0) e, tt)
  begun false w e = (e, tt)

  start-OneBegun :
      (answers : ℕ → StartAnswers) (port i : ℕ) (w : Worker S)
      → Ready port i w
      → OneBegun answers port i w
  start-OneBegun answers port i w r = subst (OneBegun answers port i) (sym r.is) (
      subst (λ p. OneBegun answers p i (ready calls env.drains r.base r.loop r.sessions)) r.listens
        (subst
          (λ j.
            OneBegun answers r.base.listener_config.port j
              (ready calls env.drains r.base r.loop r.sessions))
          r.named
          (let b = start-Begun calls env.drains (answers r.base.id) r.base r.loop r.sessions in
            record {
              rest = b.rest;
              returns = b.returns;
              state =
                  begun (start_fails (answers r.base.id) r.base.listener_config.port) b.rest
                    b.state;
            })))

  after :
      (answers : ℕ → StartAnswers) (port i : ℕ) (w : Worker S) (ws : List (Worker S)) (b : Bool)
      → start_fails (answers i) port ≡ b
      → OneBegun answers port i w
      → AllInitialized ws
      → EachBegun answers port (suc i) ws
      → EachBegun answers port i (w ∷ ws)
  unfolding start_each any_fails
  after answers port i w ws true fails one init each = record {
    rest = one.rest ∷ ws;
    returns = rw (one.returns, fails) refl;
    state = rw fails ((subst (λ b. AllBegun b (one.rest ∷ [])) fails one.state).0, init);
    as_many = refl;
  }
  after answers port i w ws false fails one init each = record {
    rest = one.rest ∷ each.rest;
    returns = rw (one.returns, fails, each.returns) refl;
    state = rw fails (
        both (any_fails answers port (suc i) (length ws)) one.rest each.rest
          (subst (λ b. AllBegun b (one.rest ∷ [])) fails one.state).0 each.state);
    as_many = ap suc each.as_many;
  }
    where
      both :
          (b : Bool) (v : Worker S) (vs : List (Worker S))
          → Serving v
          → AllBegun b vs
          → AllBegun b (v ∷ vs)
      both true v vs up rest = (ap (λ p. p.0) up, rest)
      both false v vs up rest = (up, rest)

  -- The starts of workers that are ready return; they raise if the start of one of them does.
  pub start_each-EachBegun :
      (answers : ℕ → StartAnswers) (port i : ℕ) (ws : List (Worker S))
      → AllReady port i ws
      → EachBegun answers port i ws
  unfolding start_each any_fails
  start_each-EachBegun answers port i [] r = record {
    rest = [];
    returns = refl;
    state = tt;
    as_many = refl;
  }
  start_each-EachBegun answers port i (w ∷ ws) r =
      after answers port i w ws (start_fails (answers i) port) refl
        (start-OneBegun answers port i w r.0) (AllReady-AllInitialized port (suc i) ws r.1)
        (start_each-EachBegun answers port (suc i) ws r.1)
