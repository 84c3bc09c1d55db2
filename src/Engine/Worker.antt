-- ===== src/Engine/Worker.antt =====
-- engine/src/hypernet/core/WorkerContext.cpp: a worker, its thread and its listener, and
-- `postAndWait` of engine/include/hypernet/core/AppCallbacks.hpp, as the main thread calls them.
pub mod Life
pub mod Frame
pub mod Begin
pub mod Down
use network_engine_portfolio.Prelude.{
  ℕ, ◌+◌, ◌^◌, Bool, true, false, not, ◌&&◌, ◌||◌, Option, none, some, List, [], ◌∷◌, ◌==◌,
  if◌then◌else◌, bit_or,
}
use network_engine_portfolio.Core.Config.{EngineOptions}
use network_engine_portfolio.Net.EventLoop.{Loop, post, add_fd, remove_fd}
use network_engine_portfolio.Engine.Outcome.{Outcome, done, waits, dangling, ◌>>=◌}

-- What a worker calls of its session manager, whose state is an `S`.
pub record SessionCalls (S : Type 0) : Type 0 where
  pub make : ℕ → EngineOptions → S
  pub set_application : S → S
  pub configure_timeouts : (idle_timeout_ms heartbeat_interval_ms : ℕ) → S → S
  pub session_count : S → ℕ
  pub close_all_by_policy : S → S
  pub shutdown_in_owner_thread : S → S

-- `thread_`: not joinable, its body in the event loop, or its body returned.
pub data Thread : Type 0 where
  no_thread looping returned : Thread

pub record ListenerConfig : Type 0 where
  pub address : List ℕ
  pub port : ℕ
  pub backlog : ℕ
  pub reuse_port : Bool

-- A null pointer is `none`, or false where nothing but its being null is read; the acceptor is the
-- descriptor that it listens on.
pub record Worker (S : Type 0) : Type 0 where
  pub id : ℕ
  pub options : EngineOptions
  pub idle_timeout_ms : ℕ
  pub heartbeat_interval_ms : ℕ
  pub app : Bool
  pub event_loop : Option (Loop Unit)
  pub buffer_pool : Bool
  pub session_manager : Option S
  pub listener_configured : Bool
  pub listener_config : ListenerConfig
  pub acceptor : Option ℕ
  pub app_callbacks : Bool
  pub running : Bool
  pub thread : Thread
  pub initialized : Bool

-- What the main thread posts to a worker.
abbrev pub cleanup_task : ℕ
cleanup_task = 0

abbrev pub count_task : ℕ
count_task = 1

abbrev pub close_all_task : ℕ
close_all_task = 2

abbrev pub callback_task : ℕ
callback_task = 3

abbrev pub empty_loop : Loop Unit
empty_loop = record { tasks = []; fd_contexts = []; signals = 0; app = tt }

-- The bits of `epoll` for input, edges, errors, hang-up and the peer's hang-up.
unfoldable pub accept_mask : ℕ
accept_mask = bit_or 1 (bit_or (2 ^ 31) (bit_or 8 (bit_or 16 8192)))

-- The name of the acceptor as a handler.
abbrev pub acceptor_handler : ℕ
acceptor_handler = 0

abbrev pub is_joinable : Thread → Bool
is_joinable no_thread = false
is_joinable _ = true

-- How the start of a worker goes: whether the thread can be created, the descriptor of the acceptor
-- if it can be, and whether the reactor takes it.
pub record StartAnswers : Type 0 where
  pub spawned : Bool
  pub created : Option ℕ
  pub added : Bool

abbrev pub is_looping : Thread → Bool
is_looping looping = true
is_looping _ = false

module _ {S : Type 0} where
  unfoldable pub configure_listener : List ℕ → ℕ → ℕ → Bool → Worker S → Worker S
  configure_listener address port backlog reuse_port w =
      if w.running || is_joinable w.thread then w else record w {
        listener_config = record {
          address = address;
          port = port;
          backlog = backlog;
          reuse_port = reuse_port;
        };
        listener_configured = true;
      }

  unfoldable pub set_app_callback_invoker : Worker S → Worker S
  set_app_callback_invoker w = record w { app_callbacks = true }

  -- What the reactor says to a removal is not read.
  unfoldable pub cleanup_listener : Worker S → Worker S
  cleanup_listener w = elim w.acceptor [
    | none ↦ w
    | some fd ↦ elim w.event_loop [
      | none ↦ w
      | some l ↦ record w { event_loop = some (remove_fd true l (some fd)).1; acceptor = none }
    ]
  ]

  unfoldable pub register_acceptor : Bool → Loop Unit → ℕ → Worker S → Bool × Worker S
  register_acceptor added l fd w =
      let (ok, l') = add_fd added l (some fd) accept_mask (some acceptor_handler) in
      if ok
      then (true, record w { event_loop = some l'; acceptor = some fd })
      else (false, record w { event_loop = some l'; acceptor = none })

  -- `l` is the loop of the worker.
  unfoldable pub install_listener : Option ℕ → Bool → Loop Unit → Worker S → Bool × Worker S
  install_listener created added l w =
      if w.listener_config.port == 0 then (true, w) else elim created [
        | none ↦ (false, record w { acceptor = none })
        | some fd ↦ register_acceptor added l fd w
      ]

  -- The caller is the main thread, or the worker's own.
  unfoldable pub request_stop_accepting : (in_owner_thread : Bool) → Worker S → Worker S
  request_stop_accepting in_owner_thread w = elim w.event_loop [
    | none ↦ w
    | some l ↦
        if in_owner_thread
        then cleanup_listener w
        else record w { event_loop = some (post false l (some cleanup_task)) }
  ]

module _ {S : Type 0} (calls : SessionCalls S) where
  unfoldable pub initialize : Worker S → Worker S
  initialize w = if w.initialized || not w.app then w else record w {
    event_loop = some empty_loop;
    buffer_pool = true;
    session_manager = some (calls.make w.id w.options);
    initialized = true;
  }

  unfoldable pub close_all_sessions : Worker S → Worker S
  close_all_sessions w = elim w.session_manager [
    | none ↦ w
    | some s ↦ record w { session_manager = some (calls.close_all_by_policy s) }
  ]

  unfoldable pub run_worker_task : Option ℕ → Worker S → Worker S
  run_worker_task none w = w
  run_worker_task (some task) w =
      if task == cleanup_task
      then cleanup_listener w
      else if task == close_all_task
      then close_all_sessions w
      else w

  unfoldable pub run_tasks : List (Option ℕ) → Worker S → Worker S
  run_tasks [] w = w
  run_tasks (task ∷ tasks) w = run_tasks tasks (run_worker_task task w)

  -- The worker's loop comes to what has been posted.
  unfoldable pub catch_up : Worker S → Worker S
  catch_up w = elim w.event_loop [
    | none ↦ w
    | some l ↦ run_tasks l.tasks (record w { event_loop = some (record l { tasks = [] }) })
  ]

  unfoldable pub request_close_all : (in_owner_thread : Bool) → Worker S → Worker S
  request_close_all in_owner_thread w = elim w.event_loop [
    | none ↦ w
    | some l ↦ elim w.session_manager [
      | none ↦ w
      | some _ ↦
          if in_owner_thread
          then close_all_sessions w
          else record w { event_loop = some (post false l (some close_all_task)) }
    ]
  ]

  abbrev pub count_sessions : Worker S → ℕ
  count_sessions w = elim w.session_manager [ none ↦ 0 | some s ↦ calls.session_count s ]

  -- The answer is `none` if the worker does not come to the query in time, else what its loop has
  -- done to the sessions before it does.
  unfoldable pub answer_query : Option (S → S) → Worker S → ℕ × Worker S
  answer_query none w = (0, w)
  answer_query (some serve) w =
      let w' = catch_up (record w {
        session_manager = elim w.session_manager [ none ↦ none | some s ↦ some (serve s) ];
      }) in
      if is_looping w.thread then (count_sessions w', w') else (0, w)

  unfoldable pub query_session_count_blocking : Option (S → S) → Worker S → ℕ × Worker S
  query_session_count_blocking answer w = elim w.event_loop [
    | none ↦ (0, w)
    | some l ↦ elim w.session_manager [
      | none ↦ (0, w)
      | some _ ↦
          answer_query answer (record w { event_loop = some (post false l (some count_task)) })
    ]
  ]

  -- `postAndWait` on the loop of this worker, from another thread.
  unfoldable pub post_and_wait : Worker S → Outcome (Worker S)
  post_and_wait w = elim w.event_loop [
    | none ↦ dangling
    | some l ↦
        if is_looping w.thread
        then done (catch_up (record w { event_loop = some (post false l (some callback_task)) }))
        else waits
  ]
