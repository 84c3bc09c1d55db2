-- ===== src/Tests/Listeners.antt =====
-- The router, the acceptor, the status server and the loader of the configuration at concrete inputs.
use network_engine_portfolio.Prelude.{
  ℕ, ◌≡◌, ◌+◌, ◌<◌, refl, Bool, true, false, Option, none, some, List, [], ◌∷◌, ◌++◌, ◌==◌, arith,
  if◌then◌else◌,
}
use network_engine_portfolio.Core.Config.{
  validate_engine_config, checks, first_failure, effective_worker_threads,
  make_effective_engine_options,
}
use network_engine_portfolio.Core.Config.Sound.{IsSound}
use network_engine_portfolio.Core.Config.Keys
use network_engine_portfolio.Core.Config.Loader.{
  Int64, pos, negsuc, Tables, info, out_of_range, ok, err, GlobalConfig, store_int, store_value,
  scan_cli_for_config_path, checked_uint_from_i64,
}
use network_engine_portfolio.Core.Config.Loader.Apply.{
  store_log_level, store_reuse_port, apply_network, apply_tuning, apply_engine_toml, apply_app_toml,
  validate_fail_fast, load_root, load_path, load,
}
use network_engine_portfolio.Core.Config.Loader.Loaded.{load-IsSound}
use network_engine_portfolio.Monitoring.Http.Text.{get_method, metrics_query}
use network_engine_portfolio.Monitoring.Http.{Texts, handle_client, send_all}
use network_engine_portfolio.Monitoring.Http.RoundTrip.{
  print_request, has_byte, handle_client-metrics,
}
use network_engine_portfolio.Monitoring.Http.SendAll.{goes_on, all_go_on, progress, send_all-whole}
use network_engine_portfolio.Net.Acceptor.{client, try_again, interrupted, on_acceptable}
use network_engine_portfolio.Net.Acceptor.Accepts.{
  accept_all, clients, goes_on as accepts_on, stops_loop, on_acceptable-accepts,
}
use network_engine_portfolio.Net.EventLoop.Wakeup.{
  Shared, draining, ticking, polling, push_step, found_empty, timer_posts, ticked, Reach, here,
  next, polling-signalled,
}
use network_engine_portfolio.Net.Router.{Target, RoutedPacket, broadcast}
use network_engine_portfolio.Net.Router.Groups.{reached_on}
use network_engine_portfolio.Net.Router.Each.{send_each, reached-broadcast}
use network_engine_portfolio.Net.Session.Send.{sent, would_block}
use network_engine_portfolio.Tests.Workers.{config}

-- Two sessions of worker 1, one of worker 0, and one whose worker is not there.
abbrev targets : List Target
targets =
    record { id = 1; owner_worker_id = some 1 }
    ∷ record { id = 2; owner_worker_id = some 0 }
    ∷ record { id = 3; owner_worker_id = some 1 }
    ∷ record { id = 4; owner_worker_id = some 2 }
    ∷ []

abbrev packet : RoutedPacket
packet = record { opcode = 7; body = 5 ∷ [] }

reached-broadcast_example :
    reached_on 1 (broadcast (some 0) (true ∷ true ∷ []) (λ t p. true) targets packet)
    ≡ reached_on 1 (send_each (some 0) (true ∷ true ∷ []) (λ t p. true) targets packet)
reached-broadcast_example =
    reached-broadcast (some 0) (true ∷ true ∷ []) (λ t p. true) 1 targets packet

-- The callback keeps the clients, the last one first.
on_acceptable-accepts_example :
    on_acceptable
      (λ fd fds. fd ∷ fds)
      (client 5 ∷ interrupted ∷ client 6 ∷ [] ++ try_again ∷ client 7 ∷ [])
      []
    ≡ some (accept_all (λ fd fds. fd ∷ fds) (clients (client 5 ∷ interrupted ∷ client 6 ∷ [])) [])
unfolding accepts_on stops_loop
on_acceptable-accepts_example =
    on_acceptable-accepts (λ fd fds. fd ∷ fds) (client 5 ∷ interrupted ∷ client 6 ∷ []) try_again
      (client 7 ∷ []) [] refl refl

send_all-whole_example :
    send_all (sent 2 ∷ would_block ∷ sent 1 ∷ []) (1 ∷ 2 ∷ 3 ∷ []) (9 ∷ [])
    ≡ some (true, 9 ∷ [] ++ 1 ∷ 2 ∷ 3 ∷ [])
unfolding all_go_on goes_on progress
send_all-whole_example =
    send_all-whole (sent 2 ∷ would_block ∷ sent 1 ∷ []) (1 ∷ 2 ∷ 3 ∷ []) (9 ∷ []) refl (omega arith)

abbrev texts : Texts
texts = record {
  plain = 1 ∷ [];
  prometheus = 2 ∷ [];
  bad_request = (3 ∷ [], 4 ∷ []);
  not_allowed = (5 ∷ [], 6 ∷ []);
  ok = 7 ∷ [];
  not_found = (8 ∷ [], 9 ∷ []);
}

-- The query is one letter, the version another, and two bytes follow.
handle_client-metrics_example :
    handle_client texts
      (42 ∷ [])
      true
      (some (print_request get_method (metrics_query ++ 97 ∷ []) (98 ∷ []) (13 ∷ 10 ∷ [])))
    ≡ some (record { code = 200; reason = 7 ∷ []; media_type = 2 ∷ []; body = 42 ∷ [] })
unfolding has_byte
handle_client-metrics_example =
    handle_client-metrics texts (42 ∷ []) (97 ∷ []) (98 ∷ []) (13 ∷ 10 ∷ []) refl refl refl
      (omega arith)

-- The root has a table for the engine, which has the number of workers.
abbrev tables : Int64 → Tables Bool
tables workers = record {
  as_table = λ root key. if root then (if key == Keys.engine then some false else none) else none;
  int_value = λ root key. if key == Keys.worker_threads then some workers else none;
  string_value = λ root key. none;
  bool_value = λ root key. none;
}

abbrev defaults : GlobalConfig
defaults = record {
  engine = config;
  more = record {
    log_level = info;
    log_file_path = [];
    metrics_http_address = [];
    idle_timeout_ms = 60000;
    heartbeat_interval_ms = 15000;
  };
  sim = record { fep_host = 49 ∷ []; fep_port = 9000; connection_count = 1; auto_scope = false };
  fep = record { upstream_host = []; upstream_port = 0; worker_threads = 0; handoff_mode = false };
}

abbrev arguments : List (Option (List ℕ))
arguments = none ∷ some Keys.config_letter ∷ some (97 ∷ []) ∷ []

abbrev loaded : GlobalConfig
loaded = record defaults { engine = record config { worker_threads = 4 } }

loads : load (tables (pos 4)) (λ c. c) 2 (λ p. true) (λ p. some true) defaults arguments ≡ ok loaded
unfolding load load_path load_root scan_cli_for_config_path apply_engine_toml apply_network
    apply_tuning apply_app_toml validate_fail_fast store_int store_value store_log_level
    store_reuse_port checked_uint_from_i64 validate_engine_config checks first_failure
    effective_worker_threads
loads = refl

refuses :
    load (tables (negsuc 0)) (λ c. c) 2 (λ p. true) (λ p. some true) defaults arguments
    ≡ err (out_of_range Keys.worker_threads)
unfolding load load_path load_root scan_cli_for_config_path apply_engine_toml apply_network
    apply_tuning apply_app_toml validate_fail_fast store_int store_value store_log_level
    store_reuse_port checked_uint_from_i64 validate_engine_config checks first_failure
    effective_worker_threads
refuses = refl

load-IsSound_example :
    (validate_engine_config 2 loaded.engine ≡ none)
    × IsSound (make_effective_engine_options 2 loaded.engine)
load-IsSound_example =
    load-IsSound (tables (pos 4)) (λ c. c) 2 (λ p. true) (λ p. some true) defaults loaded arguments
      loads

-- Another thread posts while the loop waits, and has not signalled yet.
abbrev running_loop : Shared
running_loop = record { tasks = 0; own = 0; unsignalled = 0; counter = 0; phase = draining }

abbrev ticking_loop : Shared
ticking_loop = record running_loop { phase = ticking }

abbrev waiting_loop : Shared
waiting_loop = record running_loop { tasks = 1; unsignalled = 1; phase = polling }

polling-signalled_example : 0 < waiting_loop.counter + waiting_loop.unsignalled
polling-signalled_example =
    polling-signalled running_loop waiting_loop refl
      (next (next (next here (found_empty running_loop refl refl)) (ticked ticking_loop refl))
        (push_step (record running_loop { phase = polling })))
      refl (omega arith)

-- A timer posts on the loop's own thread right before the wait: the loop waits with a task in the
-- queue, and nothing is there to wake it.
timer_post_waits : Reach running_loop (record running_loop { tasks = 1; own = 1; phase = polling })
timer_post_waits =
    next (next (next here (found_empty running_loop refl refl)) (timer_posts ticking_loop refl))
      (ticked (record ticking_loop { tasks = 1; own = 1 }) refl)
