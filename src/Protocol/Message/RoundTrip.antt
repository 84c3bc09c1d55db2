-- ===== src/Protocol/Message/RoundTrip.antt =====
-- A packet that was put on the wire comes off it as itself.
use network_engine_portfolio.Prelude.{
  ℕ, ◌+◌, ◌≤◌, ◌<◌, ◌^◌, ◌%◌, ◌≡◌, refl, ap, ap₂, sym, ◌∙◌, some, false, List, [], ◌∷◌, ◌++◌,
  length, take, drop, arith, append_assoc, append-nil, length-append, take-append, drop-append,
  drop-add, map, ltb,
}
use network_engine_portfolio.Protocol.Endian.{store_u32_be, store_u16_be, load_u32_be}
use network_engine_portfolio.Protocol.Endian.RoundTrip.{load-store_u32, load-store_u16}
use network_engine_portfolio.Protocol.Message.{
  encode_len, encode_opcode, payload_len_for_body, packet_bytes, split_opcode_u16_be,
}
use network_engine_portfolio.Protocol.Framer.Spec.{frame, front}
use network_engine_portfolio.Protocol.Framer.Stream.{
  Parses, wants, next, waiting, announced, front_of_frame,
}

length-store_u16 : (v : ℕ) → length (store_u16_be v) ≡ 2
unfolding store_u16_be
length-store_u16 v = refl

length-store_u32 : (v : ℕ) → length (store_u32_be v) ≡ 4
unfolding store_u32_be
length-store_u32 v = refl

-- A payload made of an opcode of 16 bits and a body splits into that opcode and that body.
pub split-payload :
    (opcode : ℕ) (body : List ℕ)
    → opcode < 2 ^ 16
    → split_opcode_u16_be (store_u16_be opcode ++ body) ≡ some (opcode, body)
unfolding split_opcode_u16_be
split-payload opcode body h =
    let long : ltb (length (store_u16_be opcode ++ body)) 2 ≡ false =
      ground (arith, length-append (store_u16_be opcode) body, length-store_u16 opcode) in
    rw (
      long,
      load-store_u16 opcode body h,
      drop-append 2 (store_u16_be opcode) body (length-store_u16 opcode),
    )

-- The payload of a packet: what follows the length.
abbrev pub payload : ℕ → List ℕ → List ℕ
payload opcode body = store_u16_be opcode ++ body

module _ (max capacity opcode : ℕ) (body : List ℕ) (small : 2 + length body ≤ max)
    (room : 6 + length body ≤ capacity) (fits : 2 + length body < 2 ^ 32) where
  -- The length field holds what it announces.
  layout :
      (rest : List ℕ)
      → packet_bytes opcode body ++ rest
        ≡ store_u32_be (2 + length body) ++ (payload opcode body ++ rest)
  unfolding packet_bytes encode_len encode_opcode payload_len_for_body
  layout rest =
      let e : (2 + length body) % 2 ^ 64 % 2 ^ 32 ≡ 2 + length body = omega arith in
      rw e (append_assoc (store_u32_be (2 + length body)) (payload opcode body) rest)

  length-payload : length (payload opcode body) ≡ 2 + length body
  length-payload = omega (arith, length-append (store_u16_be opcode) body, length-store_u16 opcode)

  front_of_layout :
      (rest : List ℕ)
      → front max capacity (store_u32_be (2 + length body) ++ (payload opcode body ++ rest))
        ≡ frame (payload opcode body) rest
  front_of_layout rest =
      front_of_frame max capacity bytes (omega (arith, long)) (omega (arith, len))
        (omega (arith, len)) (omega (arith, len, long))
      ∙ ap₂ frame shown left
    where
      bytes : List ℕ
      bytes = store_u32_be (2 + length body) ++ (payload opcode body ++ rest)

      len : announced bytes ≡ 2 + length body
      len =
          ap load_u32_be (
            take-append 4 (store_u32_be (2 + length body)) (payload opcode body ++ rest)
              (length-store_u32 (2 + length body))
            ∙ sym (append-nil (store_u32_be (2 + length body))))
          ∙ load-store_u32 (2 + length body) [] fits

      long : length bytes ≡ 6 + length body + length rest
      long = omega (
        arith,
        length-append (store_u32_be (2 + length body)) (payload opcode body ++ rest),
        length-store_u32 (2 + length body),
        length-append (payload opcode body) rest,
        length-payload,
      )

      behind : drop 4 bytes ≡ payload opcode body ++ rest
      behind =
          drop-append 4 (store_u32_be (2 + length body)) (payload opcode body ++ rest)
            (length-store_u32 (2 + length body))

      shown : take (announced bytes) (drop 4 bytes) ≡ payload opcode body
      shown =
          rw (len, behind) (take-append (2 + length body) (payload opcode body) rest length-payload)

      left : drop (4 + announced bytes) bytes ≡ rest
      left = rw len (
          drop-add 4 (2 + length body) bytes
          ∙ ap (drop (2 + length body)) behind
          ∙ drop-append (2 + length body) (payload opcode body) rest length-payload)

  -- The first frame of a stream that begins with a packet is that packet's payload.
  pub front-packet :
      (rest : List ℕ)
      → front max capacity (packet_bytes opcode body ++ rest) ≡ frame (payload opcode body) rest
  front-packet rest = ap (front max capacity) (layout rest) ∙ front_of_layout rest

-- A packet to send.
pub record Packet : Type 0 where
  pub opcode : ℕ
  pub body : List ℕ

-- The bytes of packets sent one after the other.
abbrev pub stream : List Packet → List ℕ
stream [] = []
stream (p ∷ ps) = packet_bytes p.opcode p.body ++ stream ps

-- Each packet fits its opcode field, its length field, the receiver's limit and its ring.
abbrev pub AllFit : ℕ → ℕ → List Packet → Type 0
AllFit max capacity [] = Unit {0}
AllFit max capacity (p ∷ ps) =
    (2 + length p.body ≤ max)
    × (6 + length p.body ≤ capacity)
    × (2 + length p.body < 2 ^ 32)
    × AllFit max capacity ps

-- If every packet fits the receiver's payload limit, its ring capacity and the length field of 32
-- bits, then the bytes of the packets sent one after the other are cut into exactly their
-- payloads, in order, with nothing left over.
pub stream-Parses :
    (max capacity : ℕ) (ps : List Packet)
    → AllFit max capacity ps
    → Parses max capacity (stream ps) (map (λ p. payload p.opcode p.body) ps) [] waiting
unfolding front
stream-Parses max capacity [] h = wants refl refl
stream-Parses max capacity (p ∷ ps) h =
    next (payload p.opcode p.body) (stream ps)
      (front-packet max capacity p.opcode p.body h.0 h.1 h.2 (stream ps))
      (stream-Parses max capacity ps h.3)
