-- ===== src/Net/Session/Receive/Room.antt =====
-- A session that waits for the rest of a frame has room for it.
use network_engine_portfolio.Prelude.{
  ℕ, ◌≤◌, ◌<◌, ◌≡◌, refl, inl, inr, false, Option, some, List, ltb, ◌==◌, min, arith, Bool-cases,
}
use network_engine_portfolio.Buffer.Ring.{
  RingBuffer, Iovecs, write_iov, iov_some, iov_parts, free_space,
}
use network_engine_portfolio.Buffer.Ring.Valid.{length-contents, free_space-eq}
use network_engine_portfolio.Protocol.Framer.Stream.{waiting, waiting-lt}
use network_engine_portfolio.Net.Session.{Core}
use network_engine_portfolio.Net.Session.Receive.{Reading, ring_is_full, no_iovecs}
use network_engine_portfolio.Net.Session.Receive.Frames.{Drained}

parts-count : (off first rest : ℕ) → ((iov_parts off first rest).0 == 0) ≡ false
unfolding iov_parts
parts-count off first rest = elim (Bool-cases (ltb 0 rest)) [
  | inl t ↦ rw t refl
  | inr f ↦ rw f refl
]

pub write_iov-count :
    (r : RingBuffer) (out : Iovecs)
    → 0 < free_space r
    → ((write_iov r (some out) (free_space r)).0 == 0) ≡ false
unfolding write_iov iov_some
write_iov-count r out h =
    let e : (free_space r == 0) ≡ false = ground arith in
    let g : (min (free_space r) (free_space r) == 0) ≡ false = ground arith in
    rw (e, g) (parts-count r.tail _ _)

-- If the loop over the frames, run as described, stops because it waits for more bytes, and the
-- ring has four bytes or more, then the ring that it leaves is not full, so that the next turn of
-- onReadable_ does not close the session for recv_overflow.
pub waiting-room :
    {A : Type 0} (on_message : List ℕ → Core × A → Core × A) {max capacity : ℕ} {bytes : List ℕ}
    {x : Core × A} {out : Option (Reading A)} (c : Core)
    (d : Drained on_message max capacity bytes x out)
    → d.stop ≡ waiting
    → 4 ≤ capacity
    → ring_is_full on_message (record { core = c; recv_ring = some d.ring }) ≡ false
unfolding ring_is_full
waiting-room on_message {max} {capacity} c d e h = write_iov-count d.ring no_iovecs (
    omega (
      arith,
      free_space-eq d.valid,
      waiting-lt max capacity d.parsed e h,
      length-contents d.ring,
      d.same_capacity,
    ))
