-- ===== src/Net/Session/Send/Stream.antt =====
-- The stream of bytes that a call which sends has before it, and the flush at the end of the call.
use network_engine_portfolio.Prelude.{
  ℕ, ◌-◌, ◌≤◌, ◌<◌, ◌≡◌, refl, ap, ap₂, sym, ◌∙◌, ◌⊎◌, inl, inr, Bool, true, false, not, ◌&&◌,
  Option, some, List, [], ◌∷◌, ◌++◌, length, take, drop, ltb, min, arith, Bool-cases,
  take-append-drop, Option-cases,
}
use network_engine_portfolio.Buffer.Ring.{RingBuffer}
use network_engine_portfolio.Buffer.Ring.Valid.{IsValid, contents}
use network_engine_portfolio.Net.Session.{
  connected, closed, CloseReason, Core, begin_close, epoll_mod_failed,
}
use network_engine_portfolio.Net.Session.Send.{
  is_connected, SendAnswer, would_block, Sent, set_write_interest, same_mask, is_ring_empty,
  flush_once,
}
use network_engine_portfolio.Net.Session.Send.Flush.{with_ring, flush_send_lem}
use network_engine_portfolio.Net.Session.Send.Queue.{drop_past, drop_within, begin_close-send_ring}

-- What a call that has the bytes `stream` before it comes to. The wire shows a first part of them,
-- and `rest` is what is left; the ring holds it, if the session is not closed.
pub record Streamed (r : RingBuffer) (stream : List ℕ) (out : Option Sent) : Type 0 where
  pub end : Sent
  pub ring : RingBuffer
  pub rest : List ℕ
  pub result : out ≡ some end
  pub has_ring : end.core.send_ring ≡ some ring
  pub valid : IsValid ring
  pub same_capacity : ring.capacity ≡ r.capacity
  pub prefix : end.wire ++ rest ≡ stream
  pub held : (rest ≡ contents ring) ⊎ (end.core.state ≡ closed)
  pub told : end.ok ≡ is_connected end.core.state

drop_all : (xs : List ℕ) → drop (length xs) xs ≡ []
drop_all [] = refl
drop_all (x ∷ xs) = drop_all xs

split_rest :
    (n : ℕ) (xs ys : List ℕ)
    → drop (min n (length xs)) xs ++ drop (n - min n (length xs)) ys ≡ drop n (xs ++ ys)
split_rest n xs ys = elim (Bool-cases (ltb n (length xs))) [
  | inl t ↦
      let h : n < length xs = ground arith in
      ap₂ (λ (a b : ℕ). drop a xs ++ drop b ys) (within n (length xs) h) (none_past n (length xs) h)
      ∙ sym (drop_within n xs ys (omega arith))
  | inr f ↦
      let h : length xs ≤ n = ground arith in
      ap₂ (λ (a b : ℕ). drop a xs ++ drop b ys) (past_end n (length xs) h)
        (rest_end n (length xs) h)
      ∙ ap (λ (l : List ℕ). l ++ drop (n - length xs) ys) (drop_all xs)
      ∙ sym (drop_past n xs ys h)
]
  where
    within : (n m : ℕ) → n < m → min n m ≡ n
    within n m h = omega arith

    none_past : (n m : ℕ) → n < m → n - min n m ≡ 0
    none_past n m h = omega arith

    past_end : (n m : ℕ) → m ≤ n → min n m ≡ m
    past_end n m h = omega arith

    rest_end : (n m : ℕ) → m ≤ n → n - min n m ≡ n - m
    rest_end n m h = omega arith

pub split_stream :
    (n : ℕ) (xs ys : List ℕ)
    → take n (xs ++ ys) ++ (drop (min n (length xs)) xs ++ drop (n - min n (length xs)) ys)
      ≡ xs ++ ys
split_stream n xs ys =
    ap (λ (l : List ℕ). take n (xs ++ ys) ++ l) (split_rest n xs ys) ∙ take-append-drop n (xs ++ ys)

module _ (update : ℕ → Bool → Option ℕ) (c : Core) (up : c.state ≡ connected) where
  pub closed_after :
      (r : RingBuffer) (reason : CloseReason) (err : ℕ)
      → (begin_close (with_ring c r) reason err).state ≡ closed
  unfolding begin_close
  closed_after r reason err = rw up refl

  pub set_write_interest-send_ring :
      (b : Core) (enable : Bool) → (set_write_interest update b enable).send_ring ≡ b.send_ring
  unfolding set_write_interest
  set_write_interest-send_ring b enable = elim (Bool-cases (not (is_connected b.state))) [
    | inl t ↦ rw t refl
    | inr f ↦ elim (Bool-cases (same_mask b.write_interest enable)) [
      | inl t ↦ rw (f, t) refl
      | inr g ↦ elim (Option-cases b.fd) [
        | inl e ↦ rw (f, g, e) refl
        | inr (fd, e) ↦ elim (Option-cases (update fd enable)) [
          | inl a ↦ rw (f, g, e, a) refl
          | inr (errno, a) ↦ rw (f, g, e, a) (begin_close-send_ring b epoll_mod_failed errno)
        ]
      ]
    ]
  ]

  -- A session that closes with nothing more on the wire.
  pub closes :
      {r : RingBuffer} (reason : CloseReason) (err : ℕ) (wire rest : List ℕ)
      (answers : List SendAnswer)
      → IsValid r
      → Streamed r (wire ++ rest) (
          some (record {
            ok = false;
            core = begin_close (with_ring c r) reason err;
            wire = wire;
            answers = answers;
          }))
  closes {r} reason err wire rest answers v = record {
    end = record {
      ok = false;
      core = begin_close (with_ring c r) reason err;
      wire = wire;
      answers = answers;
    };
    ring = r;
    rest = rest;
    result = refl;
    has_ring = begin_close-send_ring (with_ring c r) reason err;
    valid = v;
    same_capacity = refl;
    prefix = refl;
    held = inr (closed_after r reason err);
    told = ap is_connected (sym (closed_after r reason err));
  }

  -- What the flush at the end of a call comes to.
  pub flush_once_lem :
      (must : Bool) (answers : List SendAnswer) {r : RingBuffer} (wire : List ℕ)
      → IsValid r
      → Streamed r
          (wire ++ contents r)
          (flush_once update must (answers ++ would_block ∷ []) (with_ring c r) wire)
  unfolding flush_once
  flush_once_lem must answers {r} wire v =
      let f = flush_send_lem c up answers wire v in
      elim (Bool-cases (must && not f.end.ok)) [
        | inl t ↦
            let quit : f.end.ok ≡ false = failed_flush must f.end.ok t in
            rw (flush_once, f.result, t)
              (record {
                end = record f.end { ok = false };
                ring = f.ring;
                rest = contents f.ring;
                result = refl;
                has_ring = f.has_ring;
                valid = f.valid;
                same_capacity = f.same_capacity;
                prefix = f.stream;
                held = inl refl;
                told = sym quit ∙ f.told;
              })
        | inr g ↦
            let c' : Core =
              set_write_interest update f.end.core (not (is_ring_empty f.end.core.send_ring)) in
            rw (flush_once, f.result, g)
              (record {
                end = record f.end { ok = is_connected c'.state; core = c' };
                ring = f.ring;
                rest = contents f.ring;
                result = refl;
                has_ring =
                    set_write_interest-send_ring f.end.core
                      (not (is_ring_empty f.end.core.send_ring))
                    ∙ f.has_ring;
                valid = f.valid;
                same_capacity = f.same_capacity;
                prefix = f.stream;
                held = inl refl;
                told = refl;
              })
      ]
    where
      failed_flush : (must ok : Bool) → (must && not ok) ≡ true → ok ≡ false
      failed_flush true true h = absurd cc
      failed_flush true false h = refl
      failed_flush false ok h = absurd cc

  pub moved :
      {r r' : RingBuffer} {stream stream' : List ℕ} {out : Option Sent}
      → r'.capacity ≡ r.capacity
      → stream' ≡ stream
      → Streamed r' stream' out
      → Streamed r stream out
  moved same e s = record {
    end = s.end;
    ring = s.ring;
    rest = s.rest;
    result = s.result;
    has_ring = s.has_ring;
    valid = s.valid;
    same_capacity = s.same_capacity ∙ same;
    prefix = s.prefix ∙ e;
    held = s.held;
    told = s.told;
  }
