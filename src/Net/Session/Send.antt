-- ===== src/Net/Session/Send.antt =====
-- engine/src/hypernet/net/Session.cpp: `enqueueSendNoFlush_`, `flushSend_`, `setWriteInterest_` and
-- `enqueuePacketU16Coalesced`. What the kernel answers to `writev` and `sendmsg` is a list, one entry
-- for each call; `wire` is what it has taken so far.
pub mod Flush
pub mod Queue
pub mod Stream
pub mod Packet
use network_engine_portfolio.Prelude.{
  ℕ, zero, suc, ◌+◌, ◌-◌, ◌≤◌, Bool, true, false, not, ◌||◌, ◌&&◌, Option, none, some, List, [],
  ◌∷◌, ◌++◌, length, take, drop, ltb, leb, min, ◌==◌, if◌then◌else◌,
}
use network_engine_portfolio.Buffer.Ring.{
  RingBuffer, BufferView, free_space, write, read_view, Iovec, Iovecs, peek_iov,
}
use network_engine_portfolio.Buffer.Ring.Views.{gather}
use network_engine_portfolio.Net.Session.{
  SessionState, connected, closing, closed, CloseReason, send_ring_missing, send_overflow,
  send_ring_write_mismatch, send_invalid_body, send_zero, send_failed, epoll_mod_failed, Core,
  begin_close,
}
use network_engine_portfolio.Net.Session.Receive.{no_iovecs}

abbrev pub is_connected : SessionState → Bool
is_connected connected = true
is_connected _ = false

-- The answer to a call that sends: some bytes are taken, none are, or it fails with an errno.
pub data SendAnswer : Type 0 where
  sent : ℕ → SendAnswer
  interrupted would_block : SendAnswer
  failed : ℕ → SendAnswer

-- The value returned, the session, the bytes on the wire and the answers not yet given.
pub record Sent : Type 0 where
  pub ok : Bool
  pub core : Core
  pub wire : List ℕ
  pub answers : List SendAnswer

-- A pointer to bytes; `none` is null.
unfoldable pub write_to_ring : Core → RingBuffer → List ℕ → Bool × Core
write_to_ring c r bytes =
    let (written, r') = write r (some bytes) (length bytes) in
    let c' : Core = record c { send_ring = some r' } in
    if not (written == length bytes)
    then (false, begin_close c' send_ring_write_mismatch 0)
    else (is_connected c'.state, c')

unfoldable pub enqueue_send_no_flush : Core → Option (List ℕ) → Bool × Core
enqueue_send_no_flush c bytes = if not (is_connected c.state) then (false, c) else elim bytes [
  | none ↦ (true, c)
  | some p ↦ if length p == 0 then (true, c) else elim c.send_ring [
    | none ↦ (false, begin_close c send_ring_missing 0)
    | some r ↦
        if ltb (free_space r) (length p)
        then (false, begin_close c send_overflow 0)
        else write_to_ring c r p
  ]
]

-- `readView` again and again until `n` bytes are consumed or there are none; each turn consumes one
-- byte at least, so that `n` turns are enough.
unfoldable pub consume_ring : ℕ → RingBuffer → ℕ → RingBuffer
consume_ring zero r n = r
consume_ring (suc fuel) r n =
    let (view, r') = read_view r n in
    let rest = consume_ring fuel r' (n - view.size) in
    if n == 0 then r else if view.size == 0 then r' else rest

unfoldable pub consume : Core → ℕ → Core
consume c n = elim c.send_ring [
  | none ↦ c
  | some r ↦ record c { send_ring = some (consume_ring n r n) }
]

-- Whether the loop of `flushSend_` ends before it sends.
unfoldable pub ring_drained : Option RingBuffer → Bool
ring_drained none = true
ring_drained (some r) = if r.size == 0 then true else (peek_iov r (some no_iovecs) r.size).0 == 0

-- The bytes that the described pieces of the ring show.
unfoldable pub backlog : Option RingBuffer → List ℕ
backlog none = []
backlog (some r) = gather r.buffer (peek_iov r (some no_iovecs) r.size)

unfoldable pub drain : List SendAnswer → Core → List ℕ → Option Sent
drain [] c wire =
    if ring_drained c.send_ring
    then some (record { ok = is_connected c.state; core = c; wire = wire; answers = [] })
    else none
drain (answer ∷ answers) c wire =
    if ring_drained c.send_ring
    then some
        (record { ok = is_connected c.state; core = c; wire = wire; answers = answer ∷ answers })
    else elim answer [
      | sent n ↦
          if n == 0
          then some (record {
            ok = false;
            core = begin_close c send_zero 0;
            wire = wire;
            answers = answers;
          })
          else drain answers (consume c n) (wire ++ take n (backlog c.send_ring))
      | interrupted ↦ drain answers c wire
      | would_block ↦
          some (record { ok = is_connected c.state; core = c; wire = wire; answers = answers })
      | failed errno ↦ some (record {
        ok = false;
        core = begin_close c send_failed errno;
        wire = wire;
        answers = answers;
      })
    ]

unfoldable pub flush_send : List SendAnswer → Core → List ℕ → Option Sent
flush_send answers c wire =
    if not (is_connected c.state)
    then some (record { ok = false; core = c; wire = wire; answers = answers })
    else drain answers c wire

-- Whether the mask would not change.
abbrev pub same_mask : Bool → Bool → Bool
same_mask true enable = enable
same_mask false enable = not enable

abbrev is_ring_empty : Option RingBuffer → Bool
is_ring_empty none = true
is_ring_empty (some r) = r.size == 0

-- How many bytes the described pieces have, `ringAvail`.
abbrev pub described : ℕ × Option Iovecs → ℕ
described (_, none) = 0
described (zero, some out) = 0
described (suc zero, some (a, b)) = a.len
described (suc (suc n), some (a, b)) = a.len + b.len

unfoldable pub ring_avail : Option RingBuffer → ℕ
ring_avail none = 0
ring_avail (some r) = if r.size == 0 then 0 else described (peek_iov r (some no_iovecs) r.size)

-- `update fd enable` is the errno with which `updateFd` fails, if it does.
module _ (update : ℕ → Bool → Option ℕ) where
  unfoldable pub set_write_interest : Core → Bool → Core
  set_write_interest c enable =
      if not (is_connected c.state)
      then c
      else if same_mask c.write_interest enable
      then c
      else elim c.fd [
        | none ↦ c
        | some fd ↦ elim (update fd enable) [
          | some errno ↦ begin_close c epoll_mod_failed errno
          | none ↦ record c { write_interest = enable }
        ]
      ]

  -- What of the segments stands behind the first `skip` bytes is queued.
  unfoldable pub enqueue_remainder : Core → ℕ → List (List ℕ) → Bool × Core
  enqueue_remainder c skip [] = (true, c)
  enqueue_remainder c skip (seg ∷ segs) =
      let (ok, c') = enqueue_send_no_flush c (some (drop skip seg)) in
      let passed = enqueue_remainder c (skip - length seg) segs in
      let rest = enqueue_remainder c' 0 segs in
      if length seg == 0
      then enqueue_remainder c skip segs
      else if leb (length seg) skip
      then passed
      else if not ok
      then (false, c')
      else rest

  -- The end of a call of which the kernel took everything, or the queued rest of it.
  unfoldable pub flush_once : Bool → List SendAnswer → Core → List ℕ → Option Sent
  flush_once must answers c wire = elim (flush_send answers c wire) [
    | none ↦ none
    | some out ↦
        if must && not out.ok
        then some (record out { ok = false })
        else let c' : Core = set_write_interest out.core (not (is_ring_empty out.core.send_ring)) in
          some (record out { ok = is_connected c'.state; core = c' })
  ]

  unfoldable pub after_send : List SendAnswer → Core → List ℕ → List (List ℕ) → ℕ → ℕ → Option Sent
  after_send answers c wire segs left new_total =
      if ltb left new_total
      then (let (ok, c') = enqueue_remainder c left segs in
          if not ok
          then some (record { ok = false; core = c'; wire = wire; answers = answers })
          else flush_once true answers c' wire)
      else flush_once false answers c wire

  -- The loop around `sendmsg`, over the backlog and the new segments.
  unfoldable pub send_segments :
      List SendAnswer → Core → List ℕ → List (List ℕ) → List ℕ → Option Sent
  send_segments [] c wire segs packet = none
  send_segments (answer ∷ answers) c wire segs packet = elim answer [
    | sent n ↦
        if n == 0
        then some (record {
          ok = false;
          core = begin_close c send_zero 0;
          wire = wire;
          answers = answers;
        })
        else let from_ring = min n (ring_avail c.send_ring) in
          after_send answers (consume c from_ring) (wire ++ take n (backlog c.send_ring ++ packet))
            segs (n - from_ring) (length packet)
    | interrupted ↦ send_segments answers c wire segs packet
    | would_block ↦
        let (ok, c') = enqueue_remainder c 0 segs in
        let c'' : Core = set_write_interest c' true in
        if not ok
        then some (record { ok = false; core = c'; wire = wire; answers = answers })
        else some
            (record { ok = is_connected c''.state; core = c''; wire = wire; answers = answers })
    | failed errno ↦ some (record {
      ok = false;
      core = begin_close c send_failed errno;
      wire = wire;
      answers = answers;
    })
  ]

  -- `len_hdr` and `op_hdr` are arrays of four and of two bytes; `body` is null or has `body_len`.
  unfoldable pub enqueue_packet_u16_coalesced :
      List SendAnswer → Core → List ℕ → List ℕ → List ℕ → Option (List ℕ) → ℕ → Option Sent
  enqueue_packet_u16_coalesced answers c wire len_hdr op_hdr body body_len =
      if not (is_connected c.state)
      then some (record { ok = false; core = c; wire = wire; answers = answers })
      else elim c.send_ring [
        | none ↦ some (record {
          ok = false;
          core = begin_close c send_ring_missing 0;
          wire = wire;
          answers = answers;
        })
        | some r ↦ elim body [
          | none ↦
              if ltb 0 body_len
              then some (record {
                ok = false;
                core = begin_close c send_invalid_body 0;
                wire = wire;
                answers = answers;
              })
              else send_segments answers c wire (len_hdr ∷ op_hdr ∷ [] ∷ []) (len_hdr ++ op_hdr)
          | some bytes ↦
              send_segments answers c wire (len_hdr ∷ op_hdr ∷ bytes ∷ [])
                (len_hdr ++ (op_hdr ++ bytes))
        ]
      ]

  unfoldable pub on_writable : List SendAnswer → Core → List ℕ → Option Sent
  on_writable answers c wire =
      if not (is_connected c.state)
      then some (record { ok = false; core = c; wire = wire; answers = answers })
      else elim c.send_ring [
        | none ↦ some (record {
          ok = false;
          core = begin_close c send_ring_missing 0;
          wire = wire;
          answers = answers;
        })
        | some r ↦ flush_once true answers c wire
      ]
