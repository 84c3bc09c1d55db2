-- ===== src/Net/Session/Send/Flush.antt =====
-- Flushing the send ring, and queueing bytes in it.
use network_engine_portfolio.Prelude.{
  ℕ, zero, suc, ◌+◌, ◌-◌, ◌≤◌, ◌<◌, ◌≡◌, refl, ap, ap₂, sym, subst, ◌∙◌, inl, inr, Bool, true,
  false, not, Option, some, List, [], ◌∷◌, ◌++◌, length, take, drop, if◌then◌else◌, ltb, ◌==◌, min,
  arith, Bool-cases, ==_iff, take_all, ==_self, ltb→lt, ◌⊎◌, append_assoc, take-append-drop,
}
use network_engine_portfolio.Buffer.Ring.{RingBuffer, read_view, peek_iov, write}
use network_engine_portfolio.Buffer.Ring.Valid.{IsValid, contents, length-contents, free_space-eq}
use network_engine_portfolio.Buffer.Ring.Read.{Dropped, Dropped-add, nothing}
use network_engine_portfolio.Buffer.Ring.Views.{
  read_view_lem, peek_view_lem, contiguous, gather, peek_iov_lem,
}
use network_engine_portfolio.Buffer.Ring.Write.{Appended, write_lem}
use network_engine_portfolio.Net.Session.{
  connected, CloseReason, send_zero, send_failed, send_overflow, Core, begin_close,
}
use network_engine_portfolio.Net.Session.Receive.{no_iovecs}
use network_engine_portfolio.Net.Session.Send.{
  is_connected, SendAnswer, sent, interrupted, would_block, failed, Sent, write_to_ring,
  enqueue_send_no_flush, consume_ring, consume, ring_drained, backlog, drain, flush_send,
}

drop_nil : (n : ℕ) (xs : List ℕ) → length xs ≡ 0 → drop n xs ≡ xs
drop_nil zero xs h = refl
drop_nil (suc n) [] h = refl
drop_nil (suc n) (x ∷ xs) h = absurd (omega arith)

abbrev after_view : ℕ → ℕ → ℕ → RingBuffer → RingBuffer
after_view fuel n k r = if k == 0 then r else consume_ring fuel r (n - k)

-- The consuming loop removes the oldest `n` bytes, or all if there are fewer, within `n` turns.
pub consume_ring_lem :
    (fuel : ℕ) {r : RingBuffer} (n : ℕ) → IsValid r → n ≤ fuel → Dropped r n (consume_ring fuel r n)
unfolding consume_ring
consume_ring_lem zero {r} n v e = subst (λ k. Dropped r k r) (omega arith) (nothing v)
consume_ring_lem (suc fuel) {r} n v e = elim (Bool-cases (n == 0)) [
  | inl t ↦ let z : n ≡ 0 = (==_iff n 0).0 t in rw (t, z) (nothing v)
  | inr f ↦ elim (Bool-cases (min n (contiguous r) == 0)) [
    | inl t ↦
        let z : min n (contiguous r) ≡ 0 = (==_iff _ 0).0 t in
        let empty : length (contents r) ≡ 0 = ground (arith, v, length-contents r) in
        rw (f, (read_view_lem v n).0, (peek_view_lem v n).0, t)
          (record {
            valid = (read_view_lem v n).2.valid;
            bytes =
                (read_view_lem v n).2.bytes
                ∙ drop_nil (min n (contiguous r)) (contents r) empty
                ∙ sym (drop_nil n (contents r) empty);
            same_capacity = (read_view_lem v n).2.same_capacity;
          })
    | inr g ↦
        let k : 0 < min n (contiguous r) = ground arith in
        let s : min n (contiguous r) + (n - min n (contiguous r)) ≡ n = omega arith in
        rw (f, (read_view_lem v n).0, (peek_view_lem v n).0, g)
          (subst (λ m. Dropped r m (consume_ring fuel (read_view r n).1 (n - min n (contiguous r))))
            s
            (Dropped-add (min n (contiguous r)) (n - min n (contiguous r)) (read_view_lem v n).2 (
              consume_ring_lem fuel (n - min n (contiguous r)) (read_view_lem v n).2.valid
                (omega arith))))
  ]
]

abbrev pub with_ring : Core → RingBuffer → Core
with_ring c r = record c { send_ring = some r }

-- Nothing of the stream is lost or moved: what is on the wire and what the ring still holds are,
-- one behind the other, what they were, and the value returned says whether the session is open.
pub record Flushed (r : RingBuffer) (wire : List ℕ) (out : Option Sent) : Type 0 where
  pub end : Sent
  pub ring : RingBuffer
  pub result : out ≡ some end
  pub has_ring : end.core.send_ring ≡ some ring
  pub valid : IsValid ring
  pub same_capacity : ring.capacity ≡ r.capacity
  pub stream : end.wire ++ contents ring ≡ wire ++ contents r
  pub told : end.ok ≡ is_connected end.core.state

module _ (c : Core) (up : c.state ≡ connected) where
  stops :
      {r : RingBuffer} (wire : List ℕ) (answers : List SendAnswer)
      → IsValid r
      → Flushed r wire (
          some (record {
            ok = is_connected c.state;
            core = with_ring c r;
            wire = wire;
            answers = answers;
          }))
  stops {r} wire answers v = record {
    end = record {
      ok = is_connected c.state;
      core = with_ring c r;
      wire = wire;
      answers = answers;
    };
    ring = r;
    result = refl;
    has_ring = refl;
    valid = v;
    same_capacity = refl;
    stream = refl;
    told = refl;
  }

  closes :
      {r : RingBuffer} (wire : List ℕ) (answers : List SendAnswer) (reason : CloseReason) (err : ℕ)
      → IsValid r
      → Flushed r wire (
          some (record {
            ok = false;
            core = begin_close (with_ring c r) reason err;
            wire = wire;
            answers = answers;
          }))
  unfolding begin_close
  closes {r} wire answers reason err v = record {
    end = record {
      ok = false;
      core = begin_close (with_ring c r) reason err;
      wire = wire;
      answers = answers;
    };
    ring = r;
    result = refl;
    has_ring = rw up refl;
    valid = v;
    same_capacity = refl;
    stream = refl;
    told = rw up refl;
  }

  -- The kernel takes the first `n` bytes of the backlog, and the rest goes on as before.
  sends :
      (n : ℕ) {r : RingBuffer} (wire : List ℕ) {out : Option Sent}
      → IsValid r
      → Flushed (consume_ring n r n) (wire ++ take n (backlog (some r))) out
      → Flushed r wire out
  unfolding backlog
  sends n {r} wire v f = record {
    end = f.end;
    ring = f.ring;
    result = f.result;
    has_ring = f.has_ring;
    valid = f.valid;
    same_capacity = f.same_capacity ∙ d.same_capacity;
    stream =
        f.stream
        ∙ ap₂ (λ a b. (wire ++ take n a) ++ b) shown d.bytes
        ∙ append_assoc wire (take n (contents r)) (drop n (contents r))
        ∙ ap (◌++◌ wire) (take-append-drop n (contents r));
    told = f.told;
  }
    where
      d : Dropped r n (consume_ring n r n)
      d = consume_ring_lem n n v (omega arith)

      shown : gather r.buffer (peek_iov r (some no_iovecs) r.size) ≡ contents r
      shown =
          peek_iov_lem v no_iovecs r.size
          ∙ ap (λ k. take k (contents r)) (omega (arith, length-contents r))
          ∙ take_all (length (contents r)) (contents r) (omega arith)

  drain_lem :
      (answers : List SendAnswer) {r : RingBuffer} (wire : List ℕ)
      → IsValid r
      → Flushed r wire (drain (answers ++ would_block ∷ []) (with_ring c r) wire)
  unfolding drain consume
  drain_lem [] {r} wire v = elim (Bool-cases (ring_drained (some r))) [
    | inl t ↦ rw t (stops wire (would_block ∷ []) v)
    | inr f ↦ rw f (stops wire [] v)
  ]
  drain_lem (sent n ∷ answers) {r} wire v = elim (Bool-cases (ring_drained (some r))) [
    | inl t ↦ rw t (stops wire (sent n ∷ (answers ++ would_block ∷ [])) v)
    | inr f ↦ elim (Bool-cases (n == 0)) [
      | inl t ↦ rw (f, t) (closes wire (answers ++ would_block ∷ []) send_zero 0 v)
      | inr g ↦
          rw (f, g)
            (sends n wire v (
              drain_lem answers (wire ++ take n (backlog (some r)))
                (consume_ring_lem n n v (omega arith)).valid))
    ]
  ]
  drain_lem (interrupted ∷ answers) {r} wire v = elim (Bool-cases (ring_drained (some r))) [
    | inl t ↦ rw t (stops wire (interrupted ∷ (answers ++ would_block ∷ [])) v)
    | inr f ↦ rw f (drain_lem answers wire v)
  ]
  drain_lem (would_block ∷ answers) {r} wire v = elim (Bool-cases (ring_drained (some r))) [
    | inl t ↦ rw t (stops wire (would_block ∷ (answers ++ would_block ∷ [])) v)
    | inr f ↦ rw f (stops wire (answers ++ would_block ∷ []) v)
  ]
  drain_lem (failed errno ∷ answers) {r} wire v = elim (Bool-cases (ring_drained (some r))) [
    | inl t ↦ rw t (stops wire (failed errno ∷ (answers ++ would_block ∷ [])) v)
    | inr f ↦ rw f (closes wire (answers ++ would_block ∷ []) send_failed errno v)
  ]

  -- On a connected session with a valid send ring, and for any answers of the kernel that come to
  -- EAGAIN in the end, a flush returns; what is on the wire and what the ring still holds are
  -- together, in order, what they were, and the value returned says whether the session is still
  -- connected.
  pub flush_send_lem :
      (answers : List SendAnswer) {r : RingBuffer} (wire : List ℕ)
      → IsValid r
      → Flushed r wire (flush_send (answers ++ would_block ∷ []) (with_ring c r) wire)
  unfolding flush_send
  flush_send_lem answers wire v =
      let e : not (is_connected c.state) ≡ false = ap (λ s. not (is_connected s)) up in
      rw e (drain_lem answers wire v)

  -- What queueing `bytes` comes to.
  abbrev pub Queued : RingBuffer → List ℕ → Bool × Core → Type 0
  Queued r bytes out =
      ((length bytes ≤ r.capacity - r.size)
        × ((r' : RingBuffer) × (out ≡ (true, with_ring c r')) × Appended r bytes r'))
      ⊎ ((r.capacity - r.size < length bytes)
          × (out ≡ (false, begin_close (with_ring c r) send_overflow 0)))

  -- One byte or more queued on a connected session with a valid send ring: if they fit, they stand
  -- behind those of the ring and nothing else changes; if not, the session closes for
  -- send_overflow and the ring is as it was.
  pub enqueue_send_no_flush_lem :
      {r : RingBuffer} (bytes : List ℕ)
      → IsValid r
      → 0 < length bytes
      → Queued r bytes (enqueue_send_no_flush (with_ring c r) (some bytes))
  unfolding enqueue_send_no_flush write_to_ring
  enqueue_send_no_flush_lem {r} bytes v given =
      elim (Bool-cases (ltb (r.capacity - r.size) (length bytes))) [
        | inl t ↦ rw (on, some_bytes, free_space-eq v, t) (inr (ltb→lt _ _ t, refl))
        | inr f ↦
            let room : length bytes ≤ r.capacity - r.size = ground arith in
            rw (on, some_bytes, free_space-eq v, f, (whole room).0, ==_self (length bytes), up)
              (inl (room, ((write r (some bytes) (length bytes)).1, refl, (whole room).1)))
      ]
    where
      on : not (is_connected c.state) ≡ false
      on = ap (λ s. not (is_connected s)) up

      some_bytes : (length bytes == 0) ≡ false
      some_bytes = ground arith

      whole :
          length bytes ≤ r.capacity - r.size
          → ((write r (some bytes) (length bytes)).0 ≡ length bytes)
            × Appended r bytes (write r (some bytes) (length bytes)).1
      whole room =
          let w : ((write r (some bytes) (length bytes)).0
                ≡ min (length bytes) (r.capacity - r.size))
              × Appended r (take (min (length bytes) (r.capacity - r.size)) bytes)
                  (write r (some bytes) (length bytes)).1 =
            write_lem bytes v (length bytes) (omega arith) in
          let e : min (length bytes) (r.capacity - r.size) ≡ length bytes = omega arith in
          (
            w.0 ∙ e,
            subst (λ (b : List ℕ). Appended r b (write r (some bytes) (length bytes)).1)
                (ap (λ k. take k bytes) e ∙ take_all (length bytes) bytes (omega arith)) w.1,
          )
