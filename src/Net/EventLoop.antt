-- ===== src/Net/EventLoop.antt =====
-- engine/src/hypernet/net/EventLoop.cpp and engine/src/hypernet/core/TaskQueue.cpp: one turn of a
-- worker's loop. Tasks, handlers and the callbacks of timers are names, and parameters say what they
-- do. An event is a number, the mask of its flags.
pub mod Drain
pub mod Fds
pub mod Wakeup
use network_engine_portfolio.Prelude.{
  ℕ, zero, suc, ◌+◌, ◌-◌, ◌*◌, ◌^◌, Bool, true, false, not, Option, none, some, List, [], ◌∷◌, ◌++◌,
  ◌==◌, ltb, if◌then◌else◌,
}
use network_engine_portfolio.Map.{Map, find, put, erase_key, same_id}
use network_engine_portfolio.Core.Timer.{TimerWheel, tick_at}

pub record FdContext : Type 0 where
  pub handler : ℕ
  pub registered_events : ℕ

-- The tasks in order, `none` an empty function; the contexts of the descriptors; how often the
-- eventfd was signalled; and what the callbacks keep.
pub record Loop (A : Type 0) : Type 0 where
  pub tasks : List (Option ℕ)
  pub fd_contexts : Map ℕ FdContext
  pub signals : ℕ
  pub app : A

module _ {A : Type 0} where
  unfoldable pub push : Loop A → Option ℕ → Loop A
  push l task = record l { tasks = l.tasks ++ task ∷ [] }

  unfoldable pub try_pop : Loop A → Option (Option ℕ × Loop A)
  try_pop l = elim l.tasks [ [] ↦ none | task ∷ rest ↦ some (task, record l { tasks = rest }) ]

  unfoldable pub post : (in_owner_thread : Bool) → Loop A → Option ℕ → Loop A
  post in_owner_thread l task =
      let l' = push l task in if in_owner_thread then l' else record l' { signals = l'.signals + 1 }

  -- `none` stands for a negative descriptor and for a null handler; `ok` is the reactor's answer.
  unfoldable pub add_fd : (ok : Bool) → Loop A → Option ℕ → ℕ → Option ℕ → Bool × Loop A
  add_fd ok l none events handler = (false, l)
  add_fd ok l (some fd) events none = (false, l)
  add_fd ok l (some fd) events (some handler) = if not ok then (false, l) else (
    true,
    record l {
      fd_contexts =
          put same_id l.fd_contexts fd (record { handler = handler; registered_events = events });
    },
  )

  unfoldable pub update_fd : (ok : Bool) → Loop A → Option ℕ → ℕ → Bool × Loop A
  update_fd ok l none events = (false, l)
  update_fd ok l (some fd) events = elim (find same_id l.fd_contexts fd) [
    | none ↦ (false, l)
    | some c ↦ if not ok then (false, l) else (
      true,
      record l {
        fd_contexts = put same_id l.fd_contexts fd (record c { registered_events = events });
      },
    )
  ]

  unfoldable pub remove_fd : (ok : Bool) → Loop A → Option ℕ → Bool × Loop A
  remove_fd ok l none = (false, l)
  remove_fd ok l (some fd) = (ok, record l { fd_contexts = erase_key same_id l.fd_contexts fd })

-- The resolution of the wheel, as an `int` that is not 0.
unfoldable pub compute_poll_timeout_ms : {K : Type 0} → TimerWheel K → ℕ
compute_poll_timeout_ms w =
    if w.tick_resolution == 0
    then 1
    else if ltb (2 ^ 31 - 1) w.tick_resolution
    then 2 ^ 31 - 1
    else w.tick_resolution

-- What the callbacks can change: the wheel and the loop.
abbrev pub World : Type 0 → Type 0 → Type 0
World K A = TimerWheel K × Loop A

module _ {K A : Type 0} (run_task : ℕ → World K A → World K A) where
  unfoldable pub run_popped : Option ℕ → World K A → World K A
  run_popped none w = w
  run_popped (some task) w = run_task task w

  -- `none`: the fuel ran out.
  unfoldable pub drain_tasks : ℕ → World K A → Option (World K A)
  drain_tasks zero w = none
  drain_tasks (suc fuel) (wheel, l) = elim (try_pop l) [
    | none ↦ some (wheel, l)
    | some (task, l') ↦ drain_tasks fuel (run_popped task (wheel, l'))
  ]

module _ {K A : Type 0} (handle : (handler events : ℕ) → World K A → World K A) where
  unfoldable pub dispatch_event : World K A → ℕ × ℕ → World K A
  dispatch_event (wheel, l) (fd, events) = elim (find same_id l.fd_contexts fd) [
    | none ↦ (wheel, l)
    | some c ↦ handle c.handler events (wheel, l)
  ]

  unfoldable pub dispatch_events : World K A → List (ℕ × ℕ) → World K A
  dispatch_events w [] = w
  dispatch_events w (e ∷ es) = dispatch_events (dispatch_event w e) es

-- A turn: `ready` are the events that the reactor found, none if its wait failed; `now` and `later`
-- are what the clock says at the two ticks.
module _ {K A : Type 0} (run_task : ℕ → World K A → World K A)
    (run_timer : K → Loop A → Loop A × List (ℕ × K))
    (handle : (handler events : ℕ) → World K A → World K A) where
  unfoldable pub run_events : ℕ → ℕ → List (ℕ × ℕ) → World K A → World K A
  run_events now later ready (wheel, l) =
      let (wheel', l') = dispatch_events handle (tick_at run_timer now wheel l) ready in
      tick_at run_timer later wheel' l'

  unfoldable pub run_once : (fuel now later : ℕ) → List (ℕ × ℕ) → World K A → Option (World K A)
  run_once fuel now later ready w = elim (drain_tasks run_task fuel w) [
    | none ↦ none
    | some w' ↦ drain_tasks run_task fuel (run_events now later ready w')
  ]
