-- ===== src/Net/Session/Send/Packet.antt =====
-- What sending a packet does to the stream of bytes.
use network_engine_portfolio.Prelude.{
  ℕ, zero, suc, ◌-◌, ◌≤◌, ◌≡◌, refl, ap, ap₂, sym, subst, ◌∙◌, inl, inr, Bool, true, false, not,
  Option, some, List, [], ◌∷◌, ◌++◌, length, take, drop, ltb, ◌==◌, min, arith, Bool-cases,
  append_assoc, append-nil, take_all,
}
use network_engine_portfolio.Buffer.Ring.{RingBuffer, peek_iov}
use network_engine_portfolio.Buffer.Ring.Valid.{IsValid, contents, length-contents}
use network_engine_portfolio.Buffer.Ring.Views.{gather, peek_iov_lem}
use network_engine_portfolio.Net.Session.{connected, send_zero, send_failed, send_overflow, Core}
use network_engine_portfolio.Net.Session.Receive.{no_iovecs}
use network_engine_portfolio.Net.Session.Send.{
  is_connected, SendAnswer, sent, interrupted, would_block, failed, Sent, consume, consume_ring,
  backlog, set_write_interest, ring_avail, after_send, send_segments, enqueue_packet_u16_coalesced,
}
use network_engine_portfolio.Net.Session.Send.Flush.{with_ring, consume_ring_lem}
use network_engine_portfolio.Net.Session.Send.Stream.{
  Streamed, split_stream, set_write_interest-send_ring, closes, moved, flush_once_lem,
}
use network_engine_portfolio.Net.Session.Send.Queue.{joined, ring_avail_lem, enqueue_remainder_lem}

module _ (update : ℕ → Bool → Option ℕ) (c : Core) (up : c.state ≡ connected) where
  after_send_lem :
      (answers : List SendAnswer) {r : RingBuffer} (wire : List ℕ) (segs : List (List ℕ)) (left : ℕ)
      → IsValid r
      → Streamed r (wire ++ (contents r ++ drop left (joined segs))) (
          after_send update
            (answers ++ would_block ∷ [])
            (with_ring c r)
            wire
            segs
            left
            (length (joined segs)))
  unfolding after_send
  after_send_lem answers {r} wire segs left v =
      elim (Bool-cases (ltb left (length (joined segs)))) [
        | inl t ↦
            let q = enqueue_remainder_lem update c up left segs v in
            elim q.result [
              | inl (e, b) ↦
                  rw (t, e)
                    (moved update c up q.same_capacity (ap (◌++◌ wire) b)
                      (flush_once_lem update c up true answers wire q.valid))
              | inr e ↦
                  rw (t, e)
                    (moved update c up q.same_capacity refl (
                      closes update c up send_overflow 0 wire
                        (contents r ++ drop left (joined segs)) (answers ++ would_block ∷ [])
                        q.valid))
            ]
        | inr f ↦
            let all : length (joined segs) ≤ left = ground arith in
            rw f (
              moved update c up refl
                (ap (λ (l : List ℕ). wire ++ l)
                  (sym (append-nil (contents r))
                    ∙ ap (λ (l : List ℕ). contents r ++ l)
                        (sym (drop_everything left (joined segs) all))))
                (flush_once_lem update c up false answers wire v))
      ]
    where
      drop_everything : (n : ℕ) (xs : List ℕ) → length xs ≤ n → drop n xs ≡ []
      drop_everything zero [] h = refl
      drop_everything zero (x ∷ xs) h = absurd (omega arith)
      drop_everything (suc n) [] h = refl
      drop_everything (suc n) (x ∷ xs) h = drop_everything n xs (omega arith)

  -- The kernel takes the first `n` bytes of the backlog and of the packet.
  taken :
      (n : ℕ) {r : RingBuffer} (wire : List ℕ) (segs : List (List ℕ)) {out : Option Sent}
      → IsValid r
      → (let k = min n (ring_avail (some r)) in
          Streamed
            (consume_ring k r k)
            ((wire ++ take n (backlog (some r) ++ joined segs))
              ++ (contents (consume_ring k r k) ++ drop (n - k) (joined segs)))
            out)
      → Streamed r (wire ++ (contents r ++ joined segs)) out
  unfolding backlog
  taken n {r} wire segs v s =
      let k : ℕ = min n (ring_avail (some r)) in
      let d = consume_ring_lem k k v (omega arith) in
      let long : ring_avail (some r) ≡ length (contents r) =
        ring_avail_lem v ∙ sym (length-contents r) in
      moved update c up d.same_capacity
        (ap₂
            (λ (a b : List ℕ).
              (wire ++ take n (a ++ joined segs)) ++ (b ++ drop (n - k) (joined segs)))
            shown d.bytes
          ∙ append_assoc wire (take n (contents r ++ joined segs))
              (drop k (contents r) ++ drop (n - k) (joined segs))
          ∙ ap
              (λ (m : ℕ).
                wire
                ++ (take n (contents r ++ joined segs)
                    ++ (drop (min n m) (contents r) ++ drop (n - min n m) (joined segs))))
              long
          ∙ ap (λ (l : List ℕ). wire ++ l) (split_stream n (contents r) (joined segs)))
        s
    where
      shown : gather r.buffer (peek_iov r (some no_iovecs) r.size) ≡ contents r
      shown =
          peek_iov_lem v no_iovecs r.size
          ∙ ap (λ k. take k (contents r)) (omega (arith, length-contents r))
          ∙ take_all (length (contents r)) (contents r) (omega arith)

  -- EAGAIN: the whole packet is queued.
  queued :
      (answers : List SendAnswer) {r : RingBuffer} (wire : List ℕ) (segs : List (List ℕ))
      → IsValid r
      → Streamed r
          (wire ++ (contents r ++ joined segs))
          (send_segments update (would_block ∷ answers) (with_ring c r) wire segs (joined segs))
  unfolding send_segments
  queued answers {r} wire segs v =
      let q = enqueue_remainder_lem update c up 0 segs v in
      elim q.result [
        | inl (e, b) ↦
            let c' : Core = set_write_interest update (with_ring c q.ring) true in
            rw e (record {
              end = record {
                ok = is_connected c'.state;
                core = c';
                wire = wire;
                answers = answers;
              };
              ring = q.ring;
              rest = contents q.ring;
              result = refl;
              has_ring = set_write_interest-send_ring update c up (with_ring c q.ring) true;
              valid = q.valid;
              same_capacity = q.same_capacity;
              prefix = ap (λ (l : List ℕ). wire ++ l) b;
              held = inl refl;
              told = refl;
            })
        | inr e ↦ rw e (
            moved update c up q.same_capacity refl
              (closes update c up send_overflow 0 wire (contents r ++ joined segs) answers q.valid))
      ]

  send_segments_lem :
      (answers : List SendAnswer) {r : RingBuffer} (wire : List ℕ) (segs : List (List ℕ))
      → IsValid r
      → Streamed r (wire ++ (contents r ++ joined segs)) (
          send_segments update
            (answers ++ would_block ∷ [])
            (with_ring c r)
            wire
            segs
            (joined segs))
  unfolding send_segments consume
  send_segments_lem [] {r} wire segs v = queued [] wire segs v
  send_segments_lem (sent n ∷ answers) {r} wire segs v = elim (Bool-cases (n == 0)) [
    | inl t ↦ rw t (
        closes update c up send_zero 0 wire (contents r ++ joined segs)
          (answers ++ would_block ∷ []) v)
    | inr f ↦
        let k : ℕ = min n (ring_avail (some r)) in
        rw f (
          taken n wire segs v (
            after_send_lem answers (wire ++ take n (backlog (some r) ++ joined segs)) segs (n - k)
              (consume_ring_lem k k v (omega arith)).valid))
  ]
  send_segments_lem (interrupted ∷ answers) wire segs v = send_segments_lem answers wire segs v
  send_segments_lem (would_block ∷ answers) wire segs v =
      queued (answers ++ would_block ∷ []) wire segs v
  send_segments_lem (failed errno ∷ answers) {r} wire segs v =
      closes update c up send_failed errno wire (contents r ++ joined segs)
        (answers ++ would_block ∷ []) v

  -- For answers of the kernel that come to EAGAIN in the end, sending a packet with a body on a
  -- connected session with a valid send ring returns. What the wire shows is a first part of what
  -- it has shown, what the ring has held, and the packet, in this order; what is left of these is
  -- in the ring, unless the session has closed; and the value returned says whether it is open.
  pub enqueue_packet_u16_coalesced-Streamed :
      (answers : List SendAnswer) {r : RingBuffer} (wire len_hdr op_hdr body : List ℕ)
      → IsValid r
      → Streamed r (wire ++ (contents r ++ (len_hdr ++ (op_hdr ++ body)))) (
          enqueue_packet_u16_coalesced update
            (answers ++ would_block ∷ [])
            (with_ring c r)
            wire
            len_hdr
            op_hdr
            (some body)
            (length body))
  unfolding enqueue_packet_u16_coalesced
  enqueue_packet_u16_coalesced-Streamed answers {r} wire len_hdr op_hdr body v =
      let segs : List (List ℕ) = len_hdr ∷ op_hdr ∷ body ∷ [] in
      let whole : joined segs ≡ len_hdr ++ (op_hdr ++ body) =
        ap (λ (b : List ℕ). len_hdr ++ (op_hdr ++ b)) (append-nil body) in
      rw (ap (λ s. not (is_connected s)) up) (
        subst
          (λ (p : List ℕ).
            Streamed r (wire ++ (contents r ++ p))
              (send_segments update (answers ++ would_block ∷ []) (with_ring c r) wire segs p))
          whole (send_segments_lem answers wire segs v))
