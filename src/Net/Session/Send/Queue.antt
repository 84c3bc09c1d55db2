-- ===== src/Net/Session/Send/Queue.antt =====
-- What of a packet goes to the send ring, and what the ring has for the kernel.
use network_engine_portfolio.Prelude.{
  ℕ, zero, suc, ◌+◌, ◌-◌, ◌≤◌, ◌<◌, ◌≡◌, refl, ap, sym, subst, ◌∙◌, ◌⊎◌, inl, inr, Bool, true,
  false, not, Option, some, List, [], ◌∷◌, ◌++◌, length, drop, if◌then◌else◌, ltb, leb, ◌==◌, min,
  sub64, arith, Bool-cases, ==_iff, append_assoc, append-nil, length-drop,
}
use network_engine_portfolio.Buffer.Ring.{RingBuffer, iov_parts, iov_some, peek_iov}
use network_engine_portfolio.Buffer.Ring.Valid.{IsValid, contents}
use network_engine_portfolio.Net.Session.{
  SessionState, connected, closing, closed, CloseReason, send_overflow, Core, begin_close,
}
use network_engine_portfolio.Net.Session.Send.{
  enqueue_send_no_flush, described, ring_avail, enqueue_remainder,
}
use network_engine_portfolio.Net.Session.Send.Flush.{with_ring, Queued, enqueue_send_no_flush_lem}

-- The bytes of the segments, one behind the other.
abbrev pub joined : List (List ℕ) → List ℕ
joined [] = []
joined (seg ∷ segs) = seg ++ joined segs

pub drop_past :
    (n : ℕ) (xs ys : List ℕ) → length xs ≤ n → drop n (xs ++ ys) ≡ drop (n - length xs) ys
drop_past n [] ys h = ap (λ (k : ℕ). drop k ys) (omega arith)
drop_past zero (x ∷ xs) ys h = absurd (omega arith)
drop_past (suc n) (x ∷ xs) ys h =
    drop_past n xs ys (omega arith) ∙ ap (λ (k : ℕ). drop k ys) (omega arith)

pub drop_within : (n : ℕ) (xs ys : List ℕ) → n ≤ length xs → drop n (xs ++ ys) ≡ drop n xs ++ ys
drop_within zero xs ys h = refl
drop_within (suc n) [] ys h = absurd (omega arith)
drop_within (suc n) (x ∷ xs) ys h = drop_within n xs ys (omega arith)

pub begin_close-send_ring :
    (c : Core) (reason : CloseReason) (err : ℕ) → (begin_close c reason err).send_ring ≡ c.send_ring
unfolding begin_close
begin_close-send_ring c reason err = go c.state refl
  where
    go : (s : SessionState) → c.state ≡ s → (begin_close c reason err).send_ring ≡ c.send_ring
    go connected e = rw (begin_close, e) refl
    go closing e = rw (begin_close, e) refl
    go closed e = rw (begin_close, e) refl

described-iov_parts : (off first more : ℕ) → described (iov_parts off first more) ≡ first + more
unfolding iov_parts
described-iov_parts off first more = elim (Bool-cases (ltb 0 more)) [
  | inl t ↦ rw t refl
  | inr f ↦ rw f (let z : more ≡ 0 = ground arith in omega arith)
]

-- The ring has for the kernel what it holds.
pub ring_avail_lem : {r : RingBuffer} → IsValid r → ring_avail (some r) ≡ r.size
unfolding ring_avail peek_iov iov_some
ring_avail_lem {r} v = elim (Bool-cases (r.size == 0)) [
  | inl t ↦ rw t (sym ((==_iff r.size 0).0 t))
  | inr f ↦
      let z : (min r.size r.size == 0) ≡ false = ground arith in
      let first : ℕ = min (min r.size r.size) (sub64 r.capacity r.head) in
      rw (f, z)
        (described-iov_parts r.head first (sub64 (min r.size r.size) first) ∙ omega (arith, v))
]

module _ (update : ℕ → Bool → Option ℕ) (c : Core) (up : c.state ≡ connected) where
  -- What queueing the rest of a packet comes to: all of it stands behind the bytes of the ring, or
  -- the session has closed for send_overflow.
  pub record Remains (r : RingBuffer) (bytes : List ℕ) (out : Bool × Core) : Type 0 where
    pub ring : RingBuffer
    pub valid : IsValid ring
    pub same_capacity : ring.capacity ≡ r.capacity
    pub result :
        ((out ≡ (true, with_ring c ring)) × (contents ring ≡ contents r ++ bytes))
        ⊎ (out ≡ (false, begin_close (with_ring c ring) send_overflow 0))

  none_left : {r : RingBuffer} → IsValid r → Remains r [] (true, with_ring c r)
  none_left {r} v = record {
    ring = r;
    valid = v;
    same_capacity = refl;
    result = inl (refl, sym (append-nil (contents r)));
  }

  -- `out` is what a segment comes to, and `next` the rest.
  remainder_step :
      {r : RingBuffer} (seg : List ℕ) (segs : List (List ℕ)) (out : Bool × Core)
      → IsValid r
      → Queued c up r seg out
      → ((r' : RingBuffer)
          → IsValid r'
          → Remains r' (joined segs) (enqueue_remainder update (with_ring c r') 0 segs))
      → Remains r
          (seg ++ joined segs)
          (if not out.0 then (false, out.1) else enqueue_remainder update out.1 0 segs)
  remainder_step {r} seg segs out v (inl (room, (r', e, a))) next =
      let n = next r' a.valid in
      rw e (record {
        ring = n.ring;
        valid = n.valid;
        same_capacity = n.same_capacity ∙ a.same_capacity;
        result = elim n.result [
          | inl (e', b) ↦ inl (
            e',
            b
                ∙ ap (λ (l : List ℕ). l ++ joined segs) a.bytes
                ∙ append_assoc (contents r) seg (joined segs),
          )
          | inr e' ↦ inr e'
        ];
      })
  remainder_step {r} seg segs out v (inr (full, e)) next =
      rw e (record { ring = r; valid = v; same_capacity = refl; result = inr refl })

  pub enqueue_remainder_lem :
      (skip : ℕ) (segs : List (List ℕ)) {r : RingBuffer}
      → IsValid r
      → Remains r (drop skip (joined segs)) (enqueue_remainder update (with_ring c r) skip segs)
  unfolding enqueue_remainder
  enqueue_remainder_lem zero [] v = none_left v
  enqueue_remainder_lem (suc skip) [] v = none_left v
  enqueue_remainder_lem skip ([] ∷ segs) v = enqueue_remainder_lem skip segs v
  enqueue_remainder_lem skip ((x ∷ xs) ∷ segs) {r} v =
      let seg : List ℕ = x ∷ xs in
      let some_bytes : (length seg == 0) ≡ false = ground arith in
      elim (Bool-cases (leb (length seg) skip)) [
        | inl t ↦
            let past : length seg ≤ skip = ground arith in
            rw (some_bytes, t)
              (subst
                (λ (b : List ℕ).
                  Remains r b (enqueue_remainder update (with_ring c r) (skip - length seg) segs))
                (sym (drop_past skip seg (joined segs) past))
                (enqueue_remainder_lem (skip - length seg) segs v))
        | inr f ↦
            let within : skip < length seg = ground arith in
            let given : 0 < length (drop skip seg) = omega (arith, length-drop skip seg) in
            rw (some_bytes, f)
              (subst
                (λ (b : List ℕ). Remains r b (
                  if not (enqueue_send_no_flush (with_ring c r) (some (drop skip seg))).0
                  then (false, (enqueue_send_no_flush (with_ring c r) (some (drop skip seg))).1)
                  else enqueue_remainder update
                      (enqueue_send_no_flush (with_ring c r) (some (drop skip seg))).1 0 segs))
                (sym (drop_within skip seg (joined segs) (omega arith)))
                (remainder_step (drop skip seg) segs
                  (enqueue_send_no_flush (with_ring c r) (some (drop skip seg))) v
                  (enqueue_send_no_flush_lem c up (drop skip seg) v given)
                  (λ r' v'. enqueue_remainder_lem 0 segs v')))
      ]
