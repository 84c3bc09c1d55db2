-- ===== src/Engine/Worker/Begin.antt =====
-- The start of a worker that has been initialized.
use network_engine_portfolio.Prelude.{
  ℕ, ◌≡◌, refl, ◌⊎◌, ◌==◌, Bool, true, false, not, Option, none, some, inl, inr, Bool-cases,
  if◌then◌else◌,
}
use network_engine_portfolio.Net.EventLoop.{Loop, add_fd}
use network_engine_portfolio.Engine.Outcome.{done}
use network_engine_portfolio.Engine.Worker.{
  SessionCalls, Worker, no_thread, looping, StartAnswers, cleanup_listener, register_acceptor,
  install_listener, accept_mask, acceptor_handler,
}
use network_engine_portfolio.Engine.Worker.Life.{
  join_thread, join, stop, prepare_sessions, after_install, spawn, start_ready, start,
}
use network_engine_portfolio.Engine.Worker.Frame.{frame}

-- Whether a start raises: the thread cannot be created, or there is a port to listen on and either
-- the acceptor cannot be created or the reactor does not take it.
abbrev pub listener_fails : Option ℕ → Bool → Bool
listener_fails none added = true
listener_fails (some fd) added = not added

abbrev pub start_fails : StartAnswers → ℕ → Bool
start_fails answers port =
    if answers.spawned
    then (if port == 0 then false else listener_fails answers.created answers.added)
    else true

abbrev pub expected_acceptor : Bool → ℕ → Option ℕ → Option ℕ
expected_acceptor fails port created = if fails then none else if port == 0 then none else created

module _ {S : Type 0} (calls : SessionCalls S) (drains : ℕ → Bool) where
  -- A worker after its initialization, before its first start.
  abbrev pub ready : Worker S → Loop Unit → S → Worker S
  ready w l s = record w {
    app = true;
    event_loop = some l;
    buffer_pool = true;
    session_manager = some s;
    acceptor = none;
    running = false;
    thread = no_thread;
    initialized = true;
  }

  -- What a start comes to: whether it raises, and the worker.
  pub record Begun (answers : StartAnswers) (w : Worker S) : Type 0 where
    pub rest : Worker S
    pub returns :
        start calls drains answers w ≡ done (start_fails answers w.listener_config.port, rest)
    pub state : frame rest ≡ (
      true,
      not (start_fails answers w.listener_config.port),
      (if start_fails answers w.listener_config.port then no_thread else looping),
      true,
    )
    pub listens :
        rest.acceptor
        ≡ expected_acceptor
            (start_fails answers w.listener_config.port)
            w.listener_config.port
            answers.created

  -- The start of a worker that has been initialized returns; it raises if the thread cannot be
  -- created, or if there is a port to listen on and either the acceptor cannot be created or the
  -- reactor does not take it; then the worker has no thread, is not to run and does not listen,
  -- else its thread is in its loop and it listens on the acceptor if there is a port.
  pub start-Begun :
      (answers : StartAnswers) (w : Worker S) (l : Loop Unit) (s : S) → Begun answers (ready w l s)
  unfolding start start_ready spawn after_install install_listener register_acceptor add_fd stop
      join join_thread cleanup_listener
  start-Begun answers w l s =
      go answers.spawned answers.created answers.added (Bool-cases (w.listener_config.port == 0))
    where
      began : Worker S
      began = record (ready w l s) { running = true }

      entered : Worker S
      entered = record began {
        session_manager = some (prepare_sessions calls drains began s);
        thread = looping;
      }

      failed : Worker S
      failed = record entered { running = false; thread = no_thread }

      go :
          (spawned : Bool) (created : Option ℕ) (added : Bool)
          → ((w.listener_config.port == 0) ≡ true) ⊎ ((w.listener_config.port == 0) ≡ false)
          → Begun (record { spawned = spawned; created = created; added = added }) (ready w l s)
      go false created added _ = record {
        rest = ready w l s;
        returns = refl;
        state = refl;
        listens = refl;
      }
      go true created added (inl t) = record {
        rest = entered;
        returns = rw t refl;
        state = rw t refl;
        listens = rw t refl;
      }
      go true none added (inr f) = record {
        rest = failed;
        returns = rw f refl;
        state = rw f refl;
        listens = rw f refl;
      }
      go true (some fd) false (inr f) = record {
        rest = failed;
        returns = rw f refl;
        state = rw f refl;
        listens = rw f refl;
      }
      go true (some fd) true (inr f) = record {
        rest = record entered {
          event_loop = some (add_fd true l (some fd) accept_mask (some acceptor_handler)).1;
          acceptor = some fd;
        };
        returns = rw f refl;
        state = rw f refl;
        listens = rw f refl;
      }
