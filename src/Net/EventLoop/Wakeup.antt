-- ===== src/Net/EventLoop/Wakeup.antt =====
-- engine/src/hypernet/net/EventLoop.cpp: the eventfd that wakes the loop for a task from another
-- thread, `signalWakeup_` and `drainWakeupFd_`, and how `post` and the turns of the loop interleave.
use network_engine_portfolio.Prelude.{
  ℕ, suc, ◌+◌, ◌≤◌, ◌<◌, ◌≡◌, ap, sym, subst, ◌⊎◌, inl, inr, Option, none, some, List, [], ◌∷◌,
  arith,
}

-- What a write or a read of the eventfd comes to: all eight bytes, EINTR, EAGAIN, or another errno.
pub data FdAnswer : Type 0 where
  whole interrupted would_block failed : FdAnswer

-- The counter of the eventfd afterwards; `none` if the answers run out.
unfoldable pub signal_wakeup : List FdAnswer → ℕ → Option ℕ
signal_wakeup [] counter = none
signal_wakeup (whole ∷ answers) counter = some (counter + 1)
signal_wakeup (interrupted ∷ answers) counter = signal_wakeup answers counter
signal_wakeup (would_block ∷ answers) counter = some counter
signal_wakeup (failed ∷ answers) counter = some counter

-- A read takes the whole counter.
unfoldable pub drain_wakeup : List FdAnswer → ℕ → Option ℕ
drain_wakeup [] counter = none
drain_wakeup (whole ∷ answers) counter = drain_wakeup answers 0
drain_wakeup (interrupted ∷ answers) counter = drain_wakeup answers counter
drain_wakeup (would_block ∷ answers) counter = some counter
drain_wakeup (failed ∷ answers) counter = some counter

-- What the kernel does with a write to a valid eventfd that does not block: it takes all eight bytes,
-- perhaps after interruptions, and refuses only when the counter has no room, so that it is not 0.
pub data Delivers (counter : ℕ) : List FdAnswer → Type 0 where
  delivered : {answers : List FdAnswer} → Delivers counter (whole ∷ answers)
  retried :
      {answers : List FdAnswer}
      → Delivers counter answers
      → Delivers counter (interrupted ∷ answers)
  full : {answers : List FdAnswer} → 0 < counter → Delivers counter (would_block ∷ answers)

-- Where `runOnce` is: in its first `drainTasks`, in the tick before `wait`, in `wait`, in the handlers
-- and the tick behind it, or in its last `drainTasks`.
pub data Phase : Type 0 where
  draining ticking polling handling draining_last : Phase

-- The tasks in the queue, those of them that callbacks of the timers before `wait` posted, which make
-- no signal on the loop's own thread, the callers of `post` on other threads that have pushed and not
-- yet signalled, the counter of the eventfd, and the phase.
pub record Shared : Type 0 where
  pub tasks : ℕ
  pub own : ℕ
  pub unsignalled : ℕ
  pub counter : ℕ
  pub phase : Phase

-- A step of a thread. The push of `post` on another thread and its signal are two steps, so that
-- others come between them; a post on the loop's own thread, from a task, a timer or a handler, only
-- pushes.
pub data Step : Shared → Shared → Type 0 where
  push_step :
      (s : Shared) → Step s (record s { tasks = s.tasks + 1; unsignalled = s.unsignalled + 1 })
  signal_step :
      (s : Shared) (n c : ℕ) (answers : List FdAnswer)
      → s.unsignalled ≡ suc n
      → Delivers s.counter answers
      → signal_wakeup answers s.counter ≡ some c
      → Step s (record s { unsignalled = n; counter = c })
  task_posts : (s : Shared) → s.phase ≡ draining → Step s (record s { tasks = s.tasks + 1 })
  run_step :
      (s : Shared) (n : ℕ) → s.phase ≡ draining → s.tasks ≡ suc n → Step s (record s { tasks = n })
  found_empty :
      (s : Shared)
      → s.phase ≡ draining
      → s.tasks ≡ 0
      → Step s (record s { own = 0; phase = ticking })
  timer_posts :
      (s : Shared) → s.phase ≡ ticking → Step s (record s { tasks = s.tasks + 1; own = s.own + 1 })
  ticked : (s : Shared) → s.phase ≡ ticking → Step s (record s { phase = polling })
  waited : (s : Shared) → s.phase ≡ polling → Step s (record s { phase = handling })
  wakeup_handled :
      (s : Shared) (c : ℕ) (answers : List FdAnswer)
      → s.phase ≡ handling
      → drain_wakeup answers s.counter ≡ some c
      → Step s (record s { counter = c })
  handler_posts : (s : Shared) → s.phase ≡ handling → Step s (record s { tasks = s.tasks + 1 })
  handled : (s : Shared) → s.phase ≡ handling → Step s (record s { phase = draining_last })
  last_posts : (s : Shared) → s.phase ≡ draining_last → Step s (record s { tasks = s.tasks + 1 })
  last_runs :
      (s : Shared) (n : ℕ)
      → s.phase ≡ draining_last
      → s.tasks ≡ suc n
      → Step s (record s { tasks = n })
  turned :
      (s : Shared) → s.phase ≡ draining_last → s.tasks ≡ 0 → Step s (record s { phase = draining })

pub data Reach (s : Shared) : Shared → Type 0 where
  here : Reach s s
  next : {t u : Shared} → Reach s t → Step t u → Reach s u

abbrev or_zero : Option ℕ → ℕ
or_zero none = 0
or_zero (some n) = n

signal_wakeup-positive :
    {counter c : ℕ} {answers : List FdAnswer}
    → Delivers counter answers
    → signal_wakeup answers counter ≡ some c
    → 0 < c
unfolding signal_wakeup
signal_wakeup-positive {counter} {c} delivered e =
    let k : counter + 1 ≡ c = ap or_zero e in omega (arith, k)
signal_wakeup-positive (retried d) e = signal_wakeup-positive d e
signal_wakeup-positive {counter} {c} (full h) e =
    let k : counter ≡ c = ap or_zero e in omega (arith, h, k)

-- From the tick to the end of `wait`, either all tasks are the timers' own, or a signal was made or
-- is under way.
abbrev Announced : Phase → Shared → Type 0
Announced draining s = Unit
Announced handling s = Unit
Announced draining_last s = Unit
Announced ticking s = (s.tasks ≤ s.own) ⊎ (0 < s.counter + s.unsignalled)
Announced polling s = (s.tasks ≤ s.own) ⊎ (0 < s.counter + s.unsignalled)

abbrev IsAnnounced : Shared → Type 0
IsAnnounced s = Announced s.phase s

announced : (p : Phase) (s : Shared) → 0 < s.counter + s.unsignalled → Announced p s
announced draining s h = tt
announced handling s h = tt
announced draining_last s h = tt
announced ticking s h = inr h
announced polling s h = inr h

module _ (s t : Shared) where
  anywhere : {p : Phase} → s.phase ≡ p → Announced p t → Announced s.phase t
  anywhere e h = subst (λ q. Announced q t) (sym e) h

timer_posted :
    (s : Shared)
    → Announced ticking s
    → Announced ticking (record s { tasks = s.tasks + 1; own = s.own + 1 })
timer_posted s (inl h) = inl (omega (arith, h))
timer_posted s (inr h) = inr h

Step-IsAnnounced : {s t : Shared} → Step s t → IsAnnounced s → IsAnnounced t
Step-IsAnnounced (push_step s) h = announced s.phase _ (omega arith)
Step-IsAnnounced (signal_step s n c answers e d w) h =
    announced s.phase _ (omega (arith, signal_wakeup-positive d w))
Step-IsAnnounced (task_posts s p) h = anywhere s _ p tt
Step-IsAnnounced (run_step s n p e) h = anywhere s _ p tt
Step-IsAnnounced (found_empty s p e) h = inl (omega (arith, e))
Step-IsAnnounced (timer_posts s p) h =
    anywhere s _ p (timer_posted s (subst (λ q. Announced q s) p h))
Step-IsAnnounced (ticked s p) h = subst (λ q. Announced q s) p h
Step-IsAnnounced (waited s p) h = tt
Step-IsAnnounced (wakeup_handled s c answers p e) h = anywhere s _ p tt
Step-IsAnnounced (handler_posts s p) h = anywhere s _ p tt
Step-IsAnnounced (handled s p) h = tt
Step-IsAnnounced (last_posts s p) h = anywhere s _ p tt
Step-IsAnnounced (last_runs s n p e) h = anywhere s _ p tt
Step-IsAnnounced (turned s p e) h = tt

Reach-IsAnnounced : {s t : Shared} → IsAnnounced s → Reach s t → IsAnnounced t
Reach-IsAnnounced h here = h
Reach-IsAnnounced h (next r st) = Step-IsAnnounced st (Reach-IsAnnounced h r)

-- No wake-up of another thread is lost: however posts and the turns of the loop interleave from
-- the start of a turn, if the loop waits while more tasks are in the queue than the timers of this
-- turn posted before the wait, then the eventfd is readable, or a caller of post is about to make
-- it so.
pub polling-signalled :
    (s t : Shared)
    → s.phase ≡ draining
    → Reach s t
    → t.phase ≡ polling
    → t.own < t.tasks
    → 0 < t.counter + t.unsignalled
polling-signalled s t d r p foreign =
    let start : IsAnnounced s = subst (λ q. Announced q s) (sym d) tt in
    let waits : Announced polling t = subst (λ q. Announced q t) p (Reach-IsAnnounced start r) in
    elim waits [ inl all_own ↦ absurd (omega (arith, all_own, foreign)) | inr h ↦ h ]
