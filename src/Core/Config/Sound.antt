-- ===== src/Core/Config/Sound.antt =====
-- What the options made from a valid configuration promise the workers.
use network_engine_portfolio.Prelude.{
  ℕ, ◌+◌, ◌-◌, ◌^◌, min, ◌≤◌, ◌<◌, ◌≡◌, refl, ap, sym, subst, Bool, true, false, none, List, [],
  ◌∷◌, ltb, if◌then◌else◌, arith,
}
use network_engine_portfolio.Core.Config.{
  EngineConfig, ConfigError, effective_worker_threads, is_given_below, checks, first_failure,
  validate_engine_config, EngineOptions, default_options, or_else, max_int, override, defend,
  fit_payload, make_effective_engine_options,
}

-- No number is 0 that is a size, a count or a period, the rings have their least capacity, and a
-- payload of the greatest length fits the receive ring with its header of four bytes.
pub record IsSound (opt : EngineOptions) : Type 0 where
  pub workers : 0 < opt.worker_count
  pub tick : 0 < opt.tick_resolution
  pub slots : 0 < opt.slot_count
  pub epoll : (0 < opt.max_epoll_events) × (opt.max_epoll_events < 2 ^ 31)
  pub blocks : (256 ≤ opt.block_size) × (0 < opt.block_count)
  pub rings : (1024 ≤ opt.recv_capacity) × (1024 ≤ opt.send_capacity)
  pub payload : (0 < opt.max_payload_len) × (opt.max_payload_len + 4 ≤ opt.recv_capacity)

passed :
    (fails : Bool) (error : ConfigError) (rest : List (Bool × ConfigError))
    → first_failure ((fails, error) ∷ rest) ≡ none
    → (fails ≡ false) × (first_failure rest ≡ none)
unfolding first_failure
passed true error rest e = absurd cc
passed false error rest e = (refl, e)

-- A size that passed its check, or its default.
given :
    (n default bound : ℕ)
    → is_given_below n bound ≡ false
    → bound ≤ default
    → bound ≤ or_else (or_else n default) default
given n default bound e d = again (or_else n default) (ground arith)
  where
    again : (k : ℕ) → bound ≤ k → bound ≤ or_else k default
    again k h = ground arith

positive : (n default : ℕ) → 0 < default → 0 < or_else n default
positive n default p = ground arith

small : (n default bound : ℕ) → n < bound → default < bound → or_else n default < bound
small n default bound h d = ground arith

fits :
    (len capacity : ℕ)
    → 0 < len
    → 1024 ≤ capacity
    → (0 < min len (min (capacity - 4) (2 ^ 32 - 1)))
      × (min len (min (capacity - 4) (2 ^ 32 - 1)) + 4 ≤ capacity)
fits len capacity p h = (omega arith, omega arith)

AllPass : List (Bool × ConfigError) → Type 0
AllPass [] = Unit
AllPass ((fails, _) ∷ rest) = (fails ≡ false) × AllPass rest

all-pass : (cs : List (Bool × ConfigError)) → first_failure cs ≡ none → AllPass cs
unfolding AllPass
all-pass [] e = tt
all-pass ((fails, error) ∷ rest) e =
    let (now, later) = passed fails error rest e in (now, all-pass rest later)

-- The sizes that were checked.
sizes :
    (hardware : ℕ) (cfg : EngineConfig)
    → validate_engine_config hardware cfg ≡ none
    → (is_given_below cfg.buffer_block_size 256 ≡ false)
      × (is_given_below cfg.recv_ring_capacity 1024 ≡ false)
      × (is_given_below cfg.send_ring_capacity 1024 ≡ false)
unfolding validate_engine_config checks AllPass
sizes hardware cfg e =
    let (c1, (c2, (c3, (c4, (c5, (c6, (c7, (block, (c9, (recv, (send, rest))))))))))) =
      all-pass (checks hardware cfg) e in
    (block, recv, send)

fitted :
    (opt : EngineOptions)
    → 1024 ≤ opt.recv_capacity
    → 0 < opt.max_payload_len
    → fit_payload opt ≡ record opt {
      max_payload_len = min opt.max_payload_len (min (opt.recv_capacity - 4) (2 ^ 32 - 1));
    }
unfolding fit_payload
fitted opt roomy some_payload =
    let t : ltb 4 opt.recv_capacity ≡ true = ground arith in
    ap
      (λ b.
        if b
        then record opt {
          max_payload_len = min opt.max_payload_len (min (opt.recv_capacity - 4) (2 ^ 32 - 1));
        }
        else opt)
      t

-- The options made from a configuration that passes the validation have workers, ticks, slots and
-- events that are not 0, blocks of 256 bytes and rings of 1024 bytes at least, and a greatest
-- payload that is not 0 and fits the receive ring together with its header.
pub make_effective_engine_options-IsSound :
    (hardware : ℕ) (cfg : EngineConfig)
    → validate_engine_config hardware cfg ≡ none
    → IsSound (make_effective_engine_options hardware cfg)
unfolding make_effective_engine_options override defend
make_effective_engine_options-IsSound hardware cfg e =
    let (block, recv, send) = sizes hardware cfg e in
    let room = given cfg.recv_ring_capacity 65536 1024 recv (omega arith) in
    let len = positive (or_else cfg.max_payload_len 1048576) 1048576 (omega arith) in
    subst IsSound (sym (fitted opt room len)) (record {
      workers = positive (effective_worker_threads hardware cfg) 1 (omega arith);
      tick = positive (or_else cfg.tick_resolution_ms 10) 10 (omega arith);
      slots = positive (or_else cfg.timer_slots 1024) 1024 (omega arith);
      epoll = (
        positive (or_else (min cfg.max_epoll_events max_int) 64) 64 (omega arith),
        small (or_else (min cfg.max_epoll_events max_int) 64) 64 (2 ^ 31)
            (small (min cfg.max_epoll_events max_int) 64 (2 ^ 31) (omega arith) (omega arith))
            (omega arith),
      );
      blocks = (
        given cfg.buffer_block_size 4096 256 block (omega arith),
        positive (or_else cfg.buffer_block_count 1024) 1024 (omega arith),
      );
      rings = (room, given cfg.send_ring_capacity 65536 1024 send (omega arith));
      payload =
          fits (or_else (or_else cfg.max_payload_len 1048576) 1048576)
            (or_else (or_else cfg.recv_ring_capacity 65536) 65536) len room;
    })
  where
    opt : EngineOptions
    opt = defend (override hardware cfg default_options)
