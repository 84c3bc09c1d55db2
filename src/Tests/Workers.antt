-- ===== src/Tests/Workers.antt =====
-- The loop of a worker, its pool of blocks and its options at concrete inputs.
use network_engine_portfolio.Prelude.{
  ℕ, zero, suc, ◌+◌, ◌≤◌, ◌≡◌, refl, true, Option, List, [], ◌∷◌, ◌++◌, some, none, arith, tabulate,
}
use network_engine_portfolio.Core.Timer.{TimerWheel}
use network_engine_portfolio.Core.Config.{
  EngineConfig, validate_engine_config, checks, first_failure, effective_worker_threads,
  make_effective_engine_options, recv_ring_small,
}
use network_engine_portfolio.Core.Config.Sound.{IsSound, make_effective_engine_options-IsSound}
use network_engine_portfolio.Buffer.Pool.{BufferPool, make_pool}
use network_engine_portfolio.Buffer.Pool.Blocks.{count, Use, takes, gives, use_all, use_all-once}
use network_engine_portfolio.Net.EventLoop.{Loop, World}
use network_engine_portfolio.Net.EventLoop.Drain.{queue_cost, Drained, drain_tasks-ends}

abbrev pub config : EngineConfig
config = record {
  listen_address = 49 ∷ [];
  listen_port = 9000;
  listen_backlog = 0;
  worker_threads = 0;
  reuse_port = true;
  metrics_http_port = 0;
  shutdown_drain_timeout_ms = 0;
  shutdown_poll_interval_ms = 0;
  tick_resolution_ms = 0;
  timer_slots = 0;
  max_epoll_events = 0;
  buffer_block_size = 256;
  buffer_block_count = 0;
  recv_ring_capacity = 1024;
  send_ring_capacity = 0;
  max_payload_len = 4000;
}

valid : validate_engine_config 8 config ≡ none
unfolding validate_engine_config checks first_failure effective_worker_threads
valid = refl

small_ring :
    validate_engine_config 8 (record config { recv_ring_capacity = 1023 }) ≡ some recv_ring_small
unfolding validate_engine_config checks first_failure effective_worker_threads
small_ring = refl

make_effective_engine_options-IsSound_example : IsSound (make_effective_engine_options 8 config)
make_effective_engine_options-IsSound_example = make_effective_engine_options-IsSound 8 config valid

abbrev pool : BufferPool
pool = record { block_size = 16; block_count = 2; storage_size = 32; free_list = 0 ∷ 16 ∷ [] }

made : make_pool 16 2 ≡ some pool
unfolding make_pool tabulate
made = refl

-- Both blocks are taken, one more is asked for, and one is given back twice.
abbrev uses : List Use
uses = takes ∷ takes ∷ takes ∷ gives 16 ∷ gives 16 ∷ []

use_all-once_example :
    count 16 (use_all (record { pool = pool; lent = [] }) uses).pool.free_list
      + count 16 (use_all (record { pool = pool; lent = [] }) uses).lent
    ≤ 1
use_all-once_example = use_all-once 16 2 16 pool uses (omega arith) made

abbrev wheel : TimerWheel ℕ
wheel = record {
  tick_resolution = 10;
  slot_count = 1;
  slots = [] ∷ [];
  last_tick_time = 0;
  current_tick = 0;
  next_id = 1;
  active_timers = 0;
}

abbrev loop : Loop (List ℕ)
loop = record { tasks = some 2 ∷ none ∷ []; fd_contexts = []; signals = 0; app = [] }

-- A task posts the one below it.
abbrev posts : ℕ → World ℕ (List ℕ) → World ℕ (List ℕ)
posts zero (w, l) = (w, l)
posts (suc n) (w, l) = (w, record l { tasks = l.tasks ++ some n ∷ [] })

cost_of_posted :
    (n : ℕ) (tasks : List (Option ℕ))
    → queue_cost (λ k. k) (tasks ++ some n ∷ []) ≤ queue_cost (λ k. k) tasks + suc n
unfolding queue_cost
cost_of_posted n [] = omega arith
cost_of_posted n (none ∷ tasks) = omega (arith, cost_of_posted n tasks)
cost_of_posted n (some k ∷ tasks) = omega (arith, cost_of_posted n tasks)

cheap :
    (task : ℕ) (w : World ℕ (List ℕ))
    → queue_cost (λ k. k) (posts task w).1.tasks ≤ queue_cost (λ k. k) w.1.tasks + task
cheap zero (w, l) = omega arith
cheap (suc n) (w, l) = cost_of_posted n l.tasks

drain_tasks-ends_example : Drained (λ k. k) posts cheap 5 (wheel, loop)
unfolding queue_cost
drain_tasks-ends_example = drain_tasks-ends (λ k. k) posts cheap 5 (wheel, loop) (omega arith)
