-- ===== src/Core/Config.antt =====
-- engine/src/hypernet/EngineConfig.cpp and engine/include/hypernet/core/EffectiveOptions.hpp: the
-- validation of a configuration, and the options that the workers get from it.
pub mod Sound
pub mod Keys
pub mod Loader
use network_engine_portfolio.Prelude.{
  ℕ, ◌-◌, ◌*◌, ◌^◌, min, Bool, true, false, not, ◌&&◌, Option, none, some, List, [], ◌∷◌, ◌==◌, ltb,
  if◌then◌else◌,
}

-- The fields that the validation and the options read, with those of the engine's defaults at 0.
pub record EngineConfig : Type 0 where
  pub listen_address : List ℕ
  pub listen_port : ℕ
  pub listen_backlog : ℕ
  pub worker_threads : ℕ
  pub reuse_port : Bool
  pub metrics_http_port : ℕ
  pub shutdown_drain_timeout_ms : ℕ
  pub shutdown_poll_interval_ms : ℕ
  pub tick_resolution_ms : ℕ
  pub timer_slots : ℕ
  pub max_epoll_events : ℕ
  pub buffer_block_size : ℕ
  pub buffer_block_count : ℕ
  pub recv_ring_capacity : ℕ
  pub send_ring_capacity : ℕ
  pub max_payload_len : ℕ

-- Which of the exceptions is thrown.
pub data ConfigError : Type 0 where
  listen_address_empty listen_port_range metrics_port_taken workers_range tick_range : ConfigError
  slots_range epoll_range block_size_small block_count_range recv_ring_small : ConfigError
  send_ring_small payload_range reuse_port_needed : ConfigError

-- `hardware` is `std::thread::hardware_concurrency()`.
unfoldable pub effective_worker_threads : ℕ → EngineConfig → ℕ
effective_worker_threads hardware cfg =
    if not (cfg.worker_threads == 0)
    then cfg.worker_threads
    else if hardware == 0
    then 1
    else hardware

abbrev pub is_empty : List ℕ → Bool
is_empty [] = true
is_empty (_ ∷ _) = false

-- A number that is given and below a bound.
abbrev pub is_given_below : ℕ → ℕ → Bool
is_given_below n bound = not (n == 0) && ltb n bound

unfoldable pub checks : ℕ → EngineConfig → List (Bool × ConfigError)
checks hardware cfg =
    (is_empty cfg.listen_address && not (cfg.listen_port == 0), listen_address_empty)
    ∷ (ltb 65535 cfg.listen_port, listen_port_range)
    ∷ (
      not (cfg.metrics_http_port == 0)
          && ((cfg.metrics_http_port == cfg.listen_port) && not (cfg.listen_port == 0)),
      metrics_port_taken,
    )
    ∷ (is_given_below cfg.worker_threads 1, workers_range)
    ∷ (is_given_below cfg.tick_resolution_ms 1, tick_range)
    ∷ (is_given_below cfg.timer_slots 1, slots_range)
    ∷ (is_given_below cfg.max_epoll_events 1, epoll_range)
    ∷ (is_given_below cfg.buffer_block_size 256, block_size_small)
    ∷ (is_given_below cfg.buffer_block_count 1, block_count_range)
    ∷ (is_given_below cfg.recv_ring_capacity 1024, recv_ring_small)
    ∷ (is_given_below cfg.send_ring_capacity 1024, send_ring_small)
    ∷ (is_given_below cfg.max_payload_len 1, payload_range)
    ∷ (
      not (cfg.listen_port == 0)
          && (ltb 1 (effective_worker_threads hardware cfg) && not cfg.reuse_port),
      reuse_port_needed,
    )
    ∷ []

-- The first check that fails throws.
unfoldable pub first_failure : List (Bool × ConfigError) → Option ConfigError
first_failure [] = none
first_failure ((fails, error) ∷ rest) = if fails then some error else first_failure rest

unfoldable pub validate_engine_config : ℕ → EngineConfig → Option ConfigError
validate_engine_config hardware cfg = first_failure (checks hardware cfg)

-- Durations are in milliseconds.
pub record EngineOptions : Type 0 where
  pub worker_count : ℕ
  pub listen_backlog : ℕ
  pub shutdown_drain_timeout : ℕ
  pub shutdown_poll_interval : ℕ
  pub tick_resolution : ℕ
  pub slot_count : ℕ
  pub max_epoll_events : ℕ
  pub block_size : ℕ
  pub block_count : ℕ
  pub recv_capacity : ℕ
  pub send_capacity : ℕ
  pub max_payload_len : ℕ

-- `EngineOptions opt{}`; the two durations are set next.
abbrev pub default_options : EngineOptions
default_options = record {
  worker_count = 1;
  listen_backlog = 128;
  shutdown_drain_timeout = 0;
  shutdown_poll_interval = 0;
  tick_resolution = 10;
  slot_count = 1024;
  max_epoll_events = 64;
  block_size = 4096;
  block_count = 1024;
  recv_capacity = 64 * 1024;
  send_capacity = 64 * 1024;
  max_payload_len = 1024 * 1024;
}

-- A number, or another one in place of 0.
abbrev pub or_else : ℕ → ℕ → ℕ
or_else n default = if not (n == 0) then n else default

abbrev pub max_int : ℕ
max_int = 2 ^ 31 - 1

unfoldable pub override : ℕ → EngineConfig → EngineOptions → EngineOptions
override hardware cfg opt = record {
  worker_count = or_else (effective_worker_threads hardware cfg) 1;
  listen_backlog = or_else (min cfg.listen_backlog max_int) opt.listen_backlog;
  shutdown_drain_timeout = or_else cfg.shutdown_drain_timeout_ms 3000;
  shutdown_poll_interval = or_else cfg.shutdown_poll_interval_ms 50;
  tick_resolution = or_else cfg.tick_resolution_ms opt.tick_resolution;
  slot_count = or_else cfg.timer_slots opt.slot_count;
  max_epoll_events = or_else (min cfg.max_epoll_events max_int) opt.max_epoll_events;
  block_size = or_else cfg.buffer_block_size opt.block_size;
  block_count = or_else cfg.buffer_block_count opt.block_count;
  recv_capacity = or_else cfg.recv_ring_capacity opt.recv_capacity;
  send_capacity = or_else cfg.send_ring_capacity opt.send_capacity;
  max_payload_len = or_else cfg.max_payload_len opt.max_payload_len;
}

-- The defence of the defaults.
unfoldable pub defend : EngineOptions → EngineOptions
defend opt = record opt {
  tick_resolution = or_else opt.tick_resolution default_options.tick_resolution;
  slot_count = or_else opt.slot_count default_options.slot_count;
  max_epoll_events = or_else opt.max_epoll_events default_options.max_epoll_events;
  block_size = or_else opt.block_size default_options.block_size;
  block_count = or_else opt.block_count default_options.block_count;
  recv_capacity = or_else opt.recv_capacity default_options.recv_capacity;
  send_capacity = or_else opt.send_capacity default_options.send_capacity;
  max_payload_len = or_else opt.max_payload_len default_options.max_payload_len;
}

-- The payload fits the receive ring together with its header.
unfoldable pub fit_payload : EngineOptions → EngineOptions
fit_payload opt =
    if ltb 4 opt.recv_capacity
    then record opt {
      max_payload_len = min opt.max_payload_len (min (opt.recv_capacity - 4) (2 ^ 32 - 1));
    }
    else opt

unfoldable pub make_effective_engine_options : ℕ → EngineConfig → EngineOptions
make_effective_engine_options hardware cfg =
    fit_payload (defend (override hardware cfg default_options))
