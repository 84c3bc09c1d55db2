-- ===== src/Net/Manager/Ids.antt =====
-- The ids of sessions.
use network_engine_portfolio.Prelude.{
  ℕ, ◌+◌, ◌*◌, ◌%◌, ◌^◌, ◌<◌, ◌≡◌, ap, ◌∙◌, bit_or, bit_or-disjoint, arith,
}
use network_engine_portfolio.Net.Manager.{Manager, next_session_id, owner_worker_from_id}

-- An id as the code lays it out.
pub next_session_id-layout :
    (m : Manager)
    → m.owner_worker_id < 2 ^ 32
    → m.local_counter < 2 ^ 32
    → (next_session_id m).0 ≡ m.owner_worker_id * 2 ^ 32 + m.local_counter
unfolding next_session_id
next_session_id-layout m small counter =
    let whole : m.owner_worker_id * 2 ^ 32 % 2 ^ 64 ≡ m.owner_worker_id * 2 ^ 32 = omega arith in
    ap (λ (t : ℕ). bit_or t m.local_counter) whole
    ∙ bit_or-disjoint 32 m.owner_worker_id m.local_counter counter

-- While the worker's number and the counter are below 2^32, the id of a new session decodes to the
-- number of its worker, and its low 32 bits are the counter.
pub next_session_id-decodes :
    (m : Manager)
    → m.owner_worker_id < 2 ^ 32
    → m.local_counter < 2 ^ 32
    → (owner_worker_from_id (next_session_id m).0 ≡ m.owner_worker_id)
      × ((next_session_id m).0 % 2 ^ 32 ≡ m.local_counter)
unfolding owner_worker_from_id
next_session_id-decodes m small counter =
    let e = next_session_id-layout m small counter in (omega (arith, e), omega (arith, e))
