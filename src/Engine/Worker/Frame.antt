-- ===== src/Engine/Worker/Frame.antt =====
-- What the calls of the main thread do to the thread and the loop of a worker that has started.
use network_engine_portfolio.Prelude.{
  ℕ, ◌≡◌, refl, sym, ap, ◌∙◌, Bool, true, false, Option, none, some, List, [], ◌∷◌, ◌==◌, inl, inr,
  Bool-cases, Option-cases,
}
use network_engine_portfolio.Net.EventLoop.{Loop, post}
use network_engine_portfolio.Engine.Outcome.{done}
use network_engine_portfolio.Engine.Worker.{
  SessionCalls, Worker, Thread, looping, is_looping, cleanup_task, count_task, close_all_task,
  callback_task, cleanup_listener, request_stop_accepting, close_all_sessions, run_worker_task,
  run_tasks, catch_up, request_close_all, answer_query, query_session_count_blocking, post_and_wait,
}

abbrev pub is_there : {A : Type 0} → Option A → Bool
is_there none = false
is_there (some _) = true

-- Whether a worker is initialized and is to run, its thread, and whether it has a loop.
abbrev pub frame : {S : Type 0} → Worker S → Bool × Bool × Thread × Bool
frame w = (w.initialized, w.running, w.thread, is_there w.event_loop)

-- A worker whose thread is in its loop.
abbrev pub Serving : {S : Type 0} → Worker S → Type 0
Serving w = frame w ≡ (true, true, looping, true)

module _ {S : Type 0} where
  framed :
      (w : Worker S) (l : Loop Unit)
      → w.event_loop ≡ some l
      → (w.initialized, w.running, w.thread, true) ≡ frame w
  framed w l e = ap (λ o. (w.initialized, w.running, w.thread, is_there o)) (sym e)

  pub cleanup_listener-frame : (w : Worker S) → frame (cleanup_listener w) ≡ frame w
  unfolding cleanup_listener
  cleanup_listener-frame w = elim (Option-cases w.acceptor) [
    | inl e ↦ rw (cleanup_listener, e) refl
    | inr (fd, e) ↦ elim (Option-cases w.event_loop) [
      | inl f ↦ rw (cleanup_listener, e, f) (rw f refl)
      | inr (l, f) ↦ rw (cleanup_listener, e, f) refl
    ]
  ]

  pub request_stop_accepting-frame :
      (w : Worker S) → frame (request_stop_accepting false w) ≡ frame w
  unfolding request_stop_accepting
  request_stop_accepting-frame w = elim (Option-cases w.event_loop) [
    | inl f ↦ rw (request_stop_accepting, f) (rw f refl)
    | inr (l, f) ↦ rw (request_stop_accepting, f) refl
  ]

module _ {S : Type 0} (calls : SessionCalls S) where
  close_all_sessions-frame : (w : Worker S) → frame (close_all_sessions calls w) ≡ frame w
  unfolding close_all_sessions
  close_all_sessions-frame w = elim (Option-cases w.session_manager) [
    | inl f ↦ rw (close_all_sessions, f) refl
    | inr (s, f) ↦ rw (close_all_sessions, f) refl
  ]

  run_worker_task-frame :
      (task : Option ℕ) (w : Worker S) → frame (run_worker_task calls task w) ≡ frame w
  unfolding run_worker_task
  run_worker_task-frame none w = refl
  run_worker_task-frame (some task) w = elim (Bool-cases (task == cleanup_task)) [
    | inl t ↦ rw t (cleanup_listener-frame w)
    | inr f ↦ elim (Bool-cases (task == close_all_task)) [
      | inl t ↦ rw (f, t) (close_all_sessions-frame w)
      | inr g ↦ rw (f, g) refl
    ]
  ]

  run_tasks-frame :
      (tasks : List (Option ℕ)) (w : Worker S) → frame (run_tasks calls tasks w) ≡ frame w
  unfolding run_tasks
  run_tasks-frame [] w = refl
  run_tasks-frame (task ∷ tasks) w =
      run_tasks-frame tasks (run_worker_task calls task w) ∙ run_worker_task-frame task w

  pub catch_up-frame : (w : Worker S) → frame (catch_up calls w) ≡ frame w
  unfolding catch_up
  catch_up-frame w = elim (Option-cases w.event_loop) [
    | inl f ↦ rw (catch_up, f) (rw f refl)
    | inr (l, f) ↦
        rw (catch_up, f)
          (run_tasks-frame l.tasks (record w { event_loop = some (record l { tasks = [] }) }))
  ]

  pub request_close_all-frame : (w : Worker S) → frame (request_close_all calls false w) ≡ frame w
  unfolding request_close_all
  request_close_all-frame w = elim (Option-cases w.event_loop) [
    | inl f ↦ rw (request_close_all, f) (rw f refl)
    | inr (l, f) ↦ elim (Option-cases w.session_manager) [
      | inl g ↦ rw (request_close_all, f, g) (rw f refl)
      | inr (s, g) ↦ rw (request_close_all, f, g) refl
    ]
  ]

  answer_query-frame :
      (answer : Option (S → S)) (w : Worker S) → frame (answer_query calls answer w).1 ≡ frame w
  unfolding answer_query
  answer_query-frame none w = refl
  answer_query-frame (some serve) w = elim (Bool-cases (is_looping w.thread)) [
    | inl t ↦ rw t (
        catch_up-frame (record w {
          session_manager = elim w.session_manager [ none ↦ none | some s ↦ some (serve s) ];
        }))
    | inr f ↦ rw f refl
  ]

  pub query-frame :
      (answer : Option (S → S)) (w : Worker S)
      → frame (query_session_count_blocking calls answer w).1 ≡ frame w
  unfolding query_session_count_blocking
  query-frame answer w = elim (Option-cases w.event_loop) [
    | inl f ↦ rw (query_session_count_blocking, f) (rw f refl)
    | inr (l, f) ↦ elim (Option-cases w.session_manager) [
      | inl g ↦ rw (query_session_count_blocking, f, g) (rw f refl)
      | inr (s, g) ↦
          rw (query_session_count_blocking, f, g)
            (answer_query-frame answer
              (record w { event_loop = some (post false l (some count_task)) }))
    ]
  ]

  -- What a call on a worker's loop comes to.
  pub record Answered (w : Worker S) : Type 0 where
    pub rest : Worker S
    pub returns : post_and_wait calls w ≡ done rest
    pub same : frame rest ≡ frame w

  pub post_and_wait-Answered : (w : Worker S) → Serving w → Answered w
  unfolding post_and_wait
  post_and_wait-Answered w up = elim (Option-cases w.event_loop) [
    | inl f ↦ absurd (cc)
    | inr (l, f) ↦ record {
      rest = catch_up calls (record w { event_loop = some (post false l (some callback_task)) });
      returns = rw (post_and_wait, f, ap (λ p. is_looping p.2) up) refl;
      same =
          catch_up-frame (record w { event_loop = some (post false l (some callback_task)) })
          ∙ framed w l f;
    }
  ]
