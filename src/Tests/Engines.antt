-- ===== src/Tests/Engines.antt =====
-- Runs of the engine with two workers.
use network_engine_portfolio.Prelude.{
  ℕ, ◌+◌, ◌≤◌, ◌<◌, ◌≡◌, refl, true, false, none, some, [], ◌∷◌, ◌==◌, arith,
}
use network_engine_portfolio.Core.Config.{
  EngineConfig, EngineOptions, validate_engine_config, checks, first_failure,
  effective_worker_threads, make_effective_engine_options, override, defend, fit_payload,
}
use network_engine_portfolio.Engine.Outcome.{dangling}
use network_engine_portfolio.Engine.Worker.{SessionCalls, Worker, looping, empty_loop}
use network_engine_portfolio.Engine.Worker.Begin.{Begun, ready, start-Begun}
use network_engine_portfolio.Engine.Control.{
  Engine, stopped, no_source, signal, woken, failed, signalled,
}
use network_engine_portfolio.Engine.Control.First.{first_stop}
use network_engine_portfolio.Engine.Shutdown.{Surroundings, shutdown_gracefully}
use network_engine_portfolio.Engine.Shutdown.Ends.{Halted, shutdown_gracefully-Halted}
use network_engine_portfolio.Engine.Run.{Outside, run}
use network_engine_portfolio.Engine.Run.Starts.{any_fails}
use network_engine_portfolio.Engine.Run.Ends.{RanWhole}
use network_engine_portfolio.Engine.Run.Whole.{run-RanWhole}
use network_engine_portfolio.Engine.Run.Aborts.{run-dangling}
use network_engine_portfolio.Tests.Workers.{config}

-- The sessions of a worker are counted only.
abbrev calls : SessionCalls ℕ
calls = record {
  make = λ id opt. 3;
  set_application = λ s. s;
  configure_timeouts = λ idle heartbeat s. s;
  session_count = λ s. s;
  close_all_by_policy = λ s. 0;
  shutdown_in_owner_thread = λ s. 0;
}

-- The sessions do not go away by themselves.
abbrev env : Surroundings ℕ
env = record { drains = λ id. true; polls = λ poll id. some (λ s. s); begin = 0; clock = λ i. i }

abbrev short_drain : EngineConfig
short_drain = record config { shutdown_drain_timeout_ms = 2 }

abbrev engine : Engine ℕ
engine = record {
  config = short_drain;
  idle_timeout_ms = 0;
  heartbeat_interval_ms = 0;
  app = true;
  metrics_server = none;
  is_running = false;
  state = stopped;
  stop_source = no_source;
  stop_signal = 0;
  main_tid_ready = false;
  router = none;
  app_calls = [];
}

abbrev outside : Outside
outside = record {
  hardware = 2;
  metrics_starts = true;
  start_answers = λ id. record { spawned = true; created = some (10 + id); added = true };
  start_throws = false;
  wakes = failed ∷ woken ∷ signalled 15 ∷ [];
}

-- The reactor does not take the second listener.
abbrev second_fails : Outside
second_fails = record outside {
  start_answers = λ id. record { spawned = true; created = some (10 + id); added = id == 0 };
}

abbrev opt : EngineOptions
opt = make_effective_engine_options 2 short_drain

moves : (i : ℕ) → env.begin + i ≤ env.clock i
moves i = omega arith

enough : opt.shutdown_drain_timeout < 3
unfolding make_effective_engine_options override defend fit_payload
enough = omega arith

asked : first_stop outside.wakes ≡ some (signal, 15)
unfolding first_stop
asked = refl

valid : validate_engine_config 2 short_drain ≡ none
unfolding validate_engine_config checks first_failure effective_worker_threads
valid = refl

well : any_fails outside.start_answers short_drain.listen_port 0 opt.worker_count ≡ false
unfolding any_fails make_effective_engine_options override defend fit_payload
    effective_worker_threads
well = refl

fails : any_fails second_fails.start_answers short_drain.listen_port 0 opt.worker_count ≡ true
unfolding any_fails make_effective_engine_options override defend fit_payload
    effective_worker_threads
fails = refl

run-RanWhole_example :
    RanWhole calls env outside 3 opt
      (signal, 15)
      moves
      enough
      asked
      refl
      (run calls env outside 3 engine)
      []
run-RanWhole_example =
    run-RanWhole calls env outside 3 engine (signal, 15) moves enough asked refl valid refl refl
      well

run-dangling_example : run calls env second_fails 1 engine ≡ dangling
run-dangling_example = run-dangling calls env second_fails 0 engine valid refl refl fails

-- A worker as the engine creates it, and one that serves.
abbrev worker : Worker ℕ
worker = record {
  id = 0;
  options = opt;
  idle_timeout_ms = 0;
  heartbeat_interval_ms = 0;
  app = true;
  event_loop = some empty_loop;
  buffer_pool = true;
  session_manager = some 3;
  listener_configured = true;
  listener_config = record { address = 49 ∷ []; port = 9000; backlog = 128; reuse_port = true };
  acceptor = none;
  app_callbacks = true;
  running = true;
  thread = looping;
  initialized = true;
}

start-Begun_example :
    Begun calls env.drains
      (record { spawned = true; created = some 10; added = false })
      (ready calls env.drains worker empty_loop 3)
start-Begun_example =
    start-Begun calls env.drains (record { spawned = true; created = some 10; added = false })
      worker empty_loop 3

shutdown_gracefully-Halted_example :
    Halted calls env
      (shutdown_gracefully calls env 3 opt true engine (worker ∷ worker ∷ []))
      true
      engine
shutdown_gracefully-Halted_example =
    shutdown_gracefully-Halted calls env 3 opt true engine worker (worker ∷ []) moves enough
      (refl, (refl, tt))
