-- ===== src/Net/EventLoop/Drain.antt =====
-- How much fuel a drain of the tasks needs.
use network_engine_portfolio.Prelude.{
  ℕ, zero, suc, ◌+◌, ◌≤◌, ◌<◌, ◌≡◌, refl, ap, inl, inr, Option, none, some, List, [], ◌∷◌, arith,
}
use network_engine_portfolio.Map.Laws.{List-cases}
use network_engine_portfolio.Core.Timer.{TimerWheel}
use network_engine_portfolio.Net.EventLoop.{Loop, try_pop, World, run_popped, drain_tasks}

module _ (cost : ℕ → ℕ) where
  -- What the tasks of a queue cost together; one turn of the loop for a task, and what it costs.
  unfoldable pub queue_cost : List (Option ℕ) → ℕ
  queue_cost [] = 0
  queue_cost (none ∷ tasks) = 1 + queue_cost tasks
  queue_cost (some task ∷ tasks) = 1 + cost task + queue_cost tasks

  module _ {K A : Type 0} (run_task : ℕ → World K A → World K A)
      (cheap : (task : ℕ) (w : World K A)
        → queue_cost (run_task task w).1.tasks ≤ queue_cost w.1.tasks + cost task) where
    -- What a drain comes to.
    pub record Drained (fuel : ℕ) (w : World K A) : Type 0 where
      pub rest : World K A
      pub returns : drain_tasks run_task fuel w ≡ some rest
      pub empty : rest.1.tasks ≡ []

    empty-Drained :
        (fuel : ℕ) (wheel : TimerWheel K) (l : Loop A)
        → l.tasks ≡ []
        → Drained (suc fuel) (wheel, l)
    unfolding drain_tasks try_pop
    empty-Drained fuel wheel l e = record {
      rest = (wheel, l);
      returns = rw (try_pop, e) refl;
      empty = e;
    }

    popped :
        (o : Option ℕ) (w : World K A)
        → queue_cost (run_popped run_task o w).1.tasks + 1 ≤ queue_cost (o ∷ w.1.tasks)
    unfolding queue_cost run_popped
    popped none w = omega arith
    popped (some task) w = omega (arith, cheap task w)

    -- If tasks have costs such that what a task posts, with one for each task posted, costs at
    -- most what the task itself does, then a drain with more fuel than the cost of the queue and
    -- one for each of its tasks returns, and leaves the queue empty.
    pub drain_tasks-ends : (fuel : ℕ) (w : World K A) → queue_cost w.1.tasks < fuel → Drained fuel w
    unfolding drain_tasks try_pop
    drain_tasks-ends zero w h = absurd (omega arith)
    drain_tasks-ends (suc fuel) (wheel, l) h = elim (List-cases l.tasks) [
      | inl e ↦ empty-Drained fuel wheel l e
      | inr (o, rest, e) ↦
          let w' : World K A = run_popped run_task o (wheel, record l { tasks = rest }) in
          let next =
            drain_tasks-ends fuel w'
              (omega (arith, h, popped o (wheel, record l { tasks = rest }), ap queue_cost e)) in
          record { rest = next.rest; returns = rw (try_pop, e) next.returns; empty = next.empty }
    ]
