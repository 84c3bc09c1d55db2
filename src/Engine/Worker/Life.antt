-- ===== src/Engine/Worker/Life.antt =====
-- engine/src/hypernet/core/WorkerContext.cpp: the start of a worker's thread, what the thread does
-- when its loop ends, and the shutdown.
use network_engine_portfolio.Prelude.{ℕ, Bool, true, false, not, ◌||◌, none, some, if◌then◌else◌}
use network_engine_portfolio.Net.EventLoop.{Loop}
use network_engine_portfolio.Engine.Outcome.{Outcome, done, waits, ◌>>=◌}
use network_engine_portfolio.Engine.Worker.{
  SessionCalls, Worker, Thread, no_thread, looping, returned, StartAnswers, is_joinable,
  cleanup_listener, install_listener, catch_up,
}

-- `drains` says of a worker, by its id, whether its loop comes to what has been posted before it
-- finds that it has to stop.
module _ {S : Type 0} (calls : SessionCalls S) (drains : ℕ → Bool) where
  -- The thread's body after the loop.
  unfoldable pub finish_thread : Worker S → Worker S
  finish_thread w = cleanup_listener (record w {
    session_manager = elim w.session_manager [
      | none ↦ none
      | some s ↦ some (calls.shutdown_in_owner_thread s)
    ];
    thread = returned;
  })

  unfoldable pub join_thread : Thread → Worker S → Outcome (Worker S)
  join_thread no_thread w = done w
  join_thread returned w = done (record w { thread = no_thread })
  join_thread looping w =
      if w.running
      then waits
      else done (record (finish_thread (if drains w.id then catch_up calls w else w)) {
        thread = no_thread;
      })

  -- From another thread; it waits for ever on a thread whose loop goes on.
  unfoldable pub join : Worker S → Outcome (Worker S)
  join w = join_thread w.thread w

  unfoldable pub stop : Worker S → Outcome (Worker S)
  stop w = join (record w { running = false })

  abbrev pub reset : Worker S → Worker S
  reset w = record w {
    session_manager = none;
    acceptor = none;
    event_loop = none;
    buffer_pool = false;
    initialized = false;
  }

  unfoldable pub shutdown : Worker S → Outcome (Worker S)
  shutdown w = if not w.initialized then done w else (stop w >>= λ w'. done (reset w'))

  -- The destructor.
  unfoldable pub destroy : Worker S → Outcome (Worker S)
  destroy w = stop w >>= shutdown

  -- What the thread makes of the sessions before its listener.
  unfoldable pub prepare_sessions : Worker S → S → S
  prepare_sessions w s =
      calls.configure_timeouts w.idle_timeout_ms w.heartbeat_interval_ms
        (if w.app then calls.set_application s else s)

  -- The thread's body up to the loop, or to its return, and the wait for it: whether `start` raises.
  unfoldable pub after_install : Bool × Worker S → Outcome (Bool × Worker S)
  after_install (true, w) = done (false, record w { thread = looping })
  after_install (false, w) =
      stop (cleanup_listener (record w { running = false; thread = returned })) >>= λ w'.
      done (true, w')

  unfoldable pub spawn : StartAnswers → Loop Unit → S → Worker S → Outcome (Bool × Worker S)
  spawn answers l s w =
      if not answers.spawned
      then done (true, record w { running = false })
      else after_install (
          install_listener answers.created answers.added l
            (record w { session_manager = some (prepare_sessions w s) }))

  unfoldable pub start_ready : StartAnswers → Loop Unit → S → Worker S → Outcome (Bool × Worker S)
  start_ready answers l s w =
      if not w.app || w.running
      then done (false, w)
      else let w' : Worker S = record w { running = true } in
        if is_joinable w'.thread then join w' >>= spawn answers l s else spawn answers l s w'

  -- Whether an exception is raised, and the worker.
  unfoldable pub start : StartAnswers → Worker S → Outcome (Bool × Worker S)
  start answers w =
      if not w.initialized || not w.buffer_pool then done (false, w) else elim w.event_loop [
        | none ↦ done (false, w)
        | some l ↦ elim w.session_manager [
          | none ↦ done (false, w)
          | some s ↦ start_ready answers l s w
        ]
      ]
