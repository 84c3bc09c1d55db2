-- ===== src/Core/Config/Loader/Apply.antt =====
-- engine/src/hypernet/core/ConfigLoader.cpp: what the tables say is stored in the configuration, and
-- the whole load.
use network_engine_portfolio.Prelude.{
  ℕ, ◌-◌, ◌%◌, ◌^◌, Bool, true, false, not, Option, none, some, List, ◌==◌, if◌then◌else◌,
}
use network_engine_portfolio.Core.Config.{ConfigError, is_empty, validate_engine_config}
use network_engine_portfolio.Core.Config.Keys
use network_engine_portfolio.Core.Config.Loader.{
  Int64, pos, negsuc, Tables, config_missing, file_missing, toml_error, engine_missing,
  fep_host_missing, fep_port_missing, invalid, Result, ok, err, ◌>>=◌, checked_port_from_i64,
  checked_uint_from_i64, checked_size_from_i64, SimConfig, FepConfig, GlobalConfig, with_engine,
  with_more, store_int, store_value, parse_log_level, scan_cli_for_config_path,
}

abbrev pub is_there : {A : Type 0} → Option A → Bool
is_there none = false
is_there (some _) = true

abbrev pub or_value : {A : Type 0} → Option A → Option A → Option A
or_value (some a) other = some a
or_value none other = other

abbrev pub is_nonzero : Int64 → Bool
is_nonzero (pos n) = not (n == 0)
is_nonzero (negsuc n) = true

-- The bits of an `int` that an `int64` is cast to.
abbrev pub to_int : Int64 → ℕ
to_int (pos n) = n % 2 ^ 32
to_int (negsuc n) = 2 ^ 32 - 1 - n % 2 ^ 32

abbrev pub with_sim : GlobalConfig → SimConfig → GlobalConfig
with_sim cfg sim = record cfg { sim = sim }

abbrev pub with_fep : GlobalConfig → FepConfig → GlobalConfig
with_fep cfg fep = record cfg { fep = fep }

module _ {T : Type 0} (calls : Tables T) (to_lower : ℕ → ℕ) where
  unfoldable pub store_log_level : T → GlobalConfig → Result GlobalConfig
  store_log_level engine cfg = elim (calls.string_value engine Keys.log_level) [
    | none ↦ ok cfg
    | some s ↦ parse_log_level to_lower s >>= λ level.
        ok (with_more cfg (record cfg.more { log_level = level }))
  ]

  unfoldable pub store_reuse_port : T → GlobalConfig → GlobalConfig
  store_reuse_port engine cfg = elim (calls.bool_value engine Keys.reuse_port) [
    | some b ↦ with_engine cfg (record cfg.engine { reuse_port = b })
    | none ↦
        store_value (λ i. with_engine cfg (record cfg.engine { reuse_port = is_nonzero i })) cfg
          (calls.int_value engine Keys.reuse_port)
  ]

  unfoldable pub apply_network : T → GlobalConfig → Result GlobalConfig
  apply_network engine cfg =
      store_int checked_port_from_i64 Keys.listen_port
        (λ n. with_engine cfg (record cfg.engine { listen_port = n })) cfg
        (calls.int_value engine Keys.listen_port)
      >>= λ cfg.
          store_int checked_port_from_i64 Keys.metrics_port
            (λ n. with_engine cfg (record cfg.engine { metrics_http_port = n })) cfg
            (calls.int_value engine Keys.metrics_port)
          >>= λ cfg.
              store_int checked_uint_from_i64 Keys.worker_threads
                (λ n. with_engine cfg (record cfg.engine { worker_threads = n })) cfg
                (calls.int_value engine Keys.worker_threads)
              >>= λ cfg. store_log_level engine cfg >>= λ cfg.
                  ok (
                    store_value (λ n. with_engine cfg (record cfg.engine { listen_address = n }))
                      cfg (calls.string_value engine Keys.listen_address))
                  >>= λ cfg.
                      store_int checked_uint_from_i64 Keys.listen_backlog
                        (λ n. with_engine cfg (record cfg.engine { listen_backlog = n })) cfg
                        (calls.int_value engine Keys.listen_backlog)
                      >>= λ cfg. ok (store_reuse_port engine cfg) >>= λ cfg.
                          ok (
                            store_value (λ n. with_more cfg (record cfg.more { log_file_path = n }))
                              cfg (calls.string_value engine Keys.log_file_path))
                          >>= λ cfg. ok (
                              store_value
                                (λ n. with_more cfg (record cfg.more { metrics_http_address = n }))
                                cfg (calls.string_value engine Keys.metrics_http_address))

  unfoldable pub apply_tuning : T → GlobalConfig → Result GlobalConfig
  apply_tuning engine cfg =
      store_int checked_uint_from_i64 Keys.idle_timeout_ms
        (λ n. with_more cfg (record cfg.more { idle_timeout_ms = n })) cfg
        (calls.int_value engine Keys.idle_timeout_ms)
      >>= λ cfg.
          store_int checked_uint_from_i64 Keys.heartbeat_interval_ms
            (λ n. with_more cfg (record cfg.more { heartbeat_interval_ms = n })) cfg
            (calls.int_value engine Keys.heartbeat_interval_ms)
          >>= λ cfg.
              store_int checked_uint_from_i64 Keys.shutdown_drain_timeout_ms
                (λ n. with_engine cfg (record cfg.engine { shutdown_drain_timeout_ms = n })) cfg
                (calls.int_value engine Keys.shutdown_drain_timeout_ms)
              >>= λ cfg.
                  store_int checked_uint_from_i64 Keys.shutdown_poll_interval_ms
                    (λ n. with_engine cfg (record cfg.engine { shutdown_poll_interval_ms = n })) cfg
                    (calls.int_value engine Keys.shutdown_poll_interval_ms)
                  >>= λ cfg.
                      store_int checked_uint_from_i64 Keys.tick_resolution_ms
                        (λ n. with_engine cfg (record cfg.engine { tick_resolution_ms = n })) cfg
                        (calls.int_value engine Keys.tick_resolution_ms)
                      >>= λ cfg.
                          store_int checked_size_from_i64 Keys.timer_slots
                            (λ n. with_engine cfg (record cfg.engine { timer_slots = n })) cfg
                            (calls.int_value engine Keys.timer_slots)
                          >>= λ cfg.
                              store_int checked_uint_from_i64 Keys.max_epoll_events
                                (λ n. with_engine cfg (record cfg.engine { max_epoll_events = n }))
                                cfg (calls.int_value engine Keys.max_epoll_events)
                              >>= λ cfg.
                                  store_int checked_size_from_i64 Keys.buffer_block_size
                                    (λ n.
                                      with_engine cfg (record cfg.engine { buffer_block_size = n }))
                                    cfg (calls.int_value engine Keys.buffer_block_size)
                                  >>= λ cfg.
                                      store_int checked_size_from_i64 Keys.buffer_block_count
                                        (λ n.
                                          with_engine cfg
                                            (record cfg.engine { buffer_block_count = n }))
                                        cfg (calls.int_value engine Keys.buffer_block_count)
                                      >>= λ cfg.
                                          store_int checked_size_from_i64 Keys.recv_ring_capacity
                                            (λ n.
                                              with_engine cfg
                                                (record cfg.engine { recv_ring_capacity = n }))
                                            cfg (calls.int_value engine Keys.recv_ring_capacity)
                                          >>= λ cfg.
                                              store_int checked_size_from_i64
                                                Keys.send_ring_capacity
                                                (λ n.
                                                  with_engine cfg
                                                    (record cfg.engine { send_ring_capacity = n }))
                                                cfg (calls.int_value engine Keys.send_ring_capacity)
                                              >>= λ cfg.
                                                  store_int checked_uint_from_i64
                                                    Keys.max_payload_len
                                                    (λ n.
                                                      with_engine cfg
                                                        (record cfg.engine { max_payload_len = n }))
                                                    cfg
                                                    (calls.int_value engine Keys.max_payload_len)

  unfoldable pub apply_engine_toml : T → GlobalConfig → Result GlobalConfig
  apply_engine_toml root cfg = elim (calls.as_table root Keys.engine) [
    | none ↦ err engine_missing
    | some engine ↦ apply_network engine cfg >>= apply_tuning engine
  ]

  -- The table of the simulator under one of its three names.
  unfoldable pub sim_table : T → Option T
  sim_table app =
      or_value (calls.as_table app Keys.loadgen)
        (or_value (calls.as_table app Keys.exchange_sim) (calls.as_table app Keys.client))

  unfoldable pub apply_sim : T → GlobalConfig → Result GlobalConfig
  apply_sim sim cfg =
      ok (
        store_value (λ s. with_sim cfg (record cfg.sim { fep_host = s })) cfg
          (or_value (calls.string_value sim Keys.fep_host)
            (calls.string_value sim Keys.upstream_host)))
      >>= λ cfg.
          (elim (calls.int_value sim Keys.fep_port) [
            | some v ↦
                store_int checked_port_from_i64 Keys.fep_port
                  (λ n. with_sim cfg (record cfg.sim { fep_port = n })) cfg (some v)
            | none ↦
                store_int checked_port_from_i64 Keys.upstream_port
                  (λ n. with_sim cfg (record cfg.sim { fep_port = n })) cfg
                  (calls.int_value sim Keys.upstream_port)
          ]
            >>= λ cfg.
                ok (
                  store_value (λ b. with_sim cfg (record cfg.sim { auto_scope = b })) cfg
                    (calls.bool_value sim Keys.auto_scope))
                >>= λ cfg. ok (
                    store_value (λ v. with_sim cfg (record cfg.sim { connection_count = to_int v }))
                      cfg (calls.int_value sim Keys.connection_count)))

  -- The number of workers is stored in 16 bits.
  unfoldable pub apply_fep : T → GlobalConfig → Result GlobalConfig
  apply_fep fep cfg =
      ok (
        store_value (λ s. with_fep cfg (record cfg.fep { upstream_host = s })) cfg
          (calls.string_value fep Keys.upstream_host))
      >>= λ cfg.
          (store_int checked_port_from_i64 Keys.upstream_port
              (λ n. with_fep cfg (record cfg.fep { upstream_port = n })) cfg
              (calls.int_value fep Keys.upstream_port)
            >>= λ cfg.
                ok (
                  store_value (λ b. with_fep cfg (record cfg.fep { handoff_mode = b })) cfg
                    (calls.bool_value fep Keys.handoff_mode))
                >>= λ cfg. ok (
                    with_fep cfg
                      (record cfg.fep { worker_threads = cfg.engine.worker_threads % 2 ^ 16 })))

  abbrev pub applied :
      (T → GlobalConfig → Result GlobalConfig) → Option T → GlobalConfig → Result GlobalConfig
  applied apply none cfg = ok cfg
  applied apply (some t) cfg = apply t cfg

  unfoldable pub apply_app_toml : T → GlobalConfig → Result GlobalConfig
  apply_app_toml root cfg = elim (calls.as_table root Keys.app) [
    | none ↦ ok cfg
    | some app ↦
        applied apply_sim (sim_table app) cfg
        >>= applied apply_fep (calls.as_table app Keys.fep_gateway)
  ]

  abbrev pub refused_by : Option ConfigError → GlobalConfig → Result GlobalConfig
  refused_by none cfg = ok cfg
  refused_by (some e) cfg = err (invalid e)

  abbrev pub validated : ℕ → GlobalConfig → Result GlobalConfig
  validated hardware cfg = refused_by (validate_engine_config hardware cfg.engine) cfg

  -- A listening port fits 16 bits, so that the test of its range before these never fails.
  unfoldable pub validate_fail_fast : ℕ → T → GlobalConfig → Result GlobalConfig
  validate_fail_fast hardware root cfg = elim (calls.as_table root Keys.app) [
    | none ↦ validated hardware cfg
    | some app ↦
        if is_there (sim_table app)
        then (if is_empty cfg.sim.fep_host
            then err fep_host_missing
            else if cfg.sim.fep_port == 0
            then err fep_port_missing
            else validated hardware cfg)
        else validated hardware cfg
  ]

  -- The table that the parser finds, if it does.
  unfoldable pub load_root : ℕ → GlobalConfig → Option T → Result GlobalConfig
  load_root hardware defaults none = err toml_error
  load_root hardware defaults (some root) =
      apply_engine_toml root defaults >>= apply_app_toml root >>= validate_fail_fast hardware root

  -- `exists` and `parse_file` are the file system's and the parser's, by the path.
  unfoldable pub load_path :
      ℕ
      → (List ℕ → Bool)
      → (List ℕ → Option T)
      → GlobalConfig
      → Option (List ℕ)
      → Result GlobalConfig
  load_path hardware exists parse_file defaults none = err config_missing
  load_path hardware exists parse_file defaults (some p) =
      if exists p then load_root hardware defaults (parse_file p) else err file_missing

  unfoldable pub load :
      ℕ
      → (List ℕ → Bool)
      → (List ℕ → Option T)
      → GlobalConfig
      → List (Option (List ℕ))
      → Result GlobalConfig
  load hardware exists parse_file defaults args =
      scan_cli_for_config_path args >>= load_path hardware exists parse_file defaults
