-- ===== src/Net/Session/Receive.antt =====
-- `processRecvFrames_` and `onReadable_`. A callback that the manager makes for a message is
-- `on_message`: it may change the session's other members and the application.
pub mod Frames
pub mod Room
pub mod Arrivals
pub mod Turns
pub mod Whole
use network_engine_portfolio.Prelude.{
  ℕ, zero, suc, Bool, true, false, Option, none, some, List, [], ◌∷◌, ◌==◌, if◌then◌else◌,
}
use network_engine_portfolio.Buffer.Ring.{RingBuffer, Iovec, Iovecs, write_iov, free_space}
use network_engine_portfolio.Buffer.Ring.Receive.{receive}
use network_engine_portfolio.Protocol.Framer.{
  Framer, Attempt, FrameResult, need_more, framed, invalid, try_frame,
}
use network_engine_portfolio.Protocol.Framer.Spec.{payload_of}
use network_engine_portfolio.Net.Session.{
  SessionState, connected, closing, closed, CloseReason, framer_invalid, recv_ring_null,
  recv_overflow, recv_error, peer_close, Core, Session, begin_close,
}

-- The value returned, the framer, the session and the application.
pub record Reading (A : Type 0) : Type 0 where
  pub ok : Bool
  pub framer : Framer
  pub session : Session
  pub app : A

-- What `recvmsg` answers: bytes in the described places, the end of the stream, or an errno.
pub data RecvAnswer : Type 0 where
  received : List ℕ → RecvAnswer
  end_of_stream interrupted would_block : RecvAnswer
  failed : ℕ → RecvAnswer

abbrev pub no_iovecs : Iovecs
no_iovecs = (record { base = none; len = 0 }, record { base = none; len = 0 })

module _ {A : Type 0} (on_message : List ℕ → Core × A → Core × A) where
  -- `none`: the fuel ran out, or `*recvRing_` is read while it is null.
  pub process_recv_frames : ℕ → Framer → Session → A → Option (Reading A)
  process_recv_frames zero f s a = none
  process_recv_frames (suc fuel) f s a = elim s.recv_ring [
    | none ↦ none
    | some r ↦
        let t : Attempt = try_frame f r in
        elim t.result [
          | need_more ↦ some (record {
            ok = true;
            framer = t.framer;
            session = record s { recv_ring = some t.ring };
            app = a;
          })
          | invalid ↦ some (record {
            ok = false;
            framer = t.framer;
            session = record {
              core = begin_close s.core framer_invalid 0;
              recv_ring = some t.ring;
            };
            app = a;
          })
          | framed ↦
              let done : Core × A = on_message (payload_of t) (s.core, a) in
              let s' : Session = record { core = done.0; recv_ring = some t.ring } in
              elim s'.core.state [
                | connected ↦ process_recv_frames fuel t.framer s' done.1
                | _ ↦ some (record { ok = false; framer = t.framer; session = s'; app = done.1 })
              ]
        ]
  ]

  abbrev pub stop_reading : Framer → Session → CloseReason → ℕ → A → Option (Reading A)
  stop_reading f s reason err a = some (record {
    ok = false;
    framer = f;
    session = record s { core = begin_close s.core reason err };
    app = a;
  })

  -- The bytes that a receive brought are framed, with fuel for every frame that they can hold.
  pub take_bytes : Framer → Session → A → List ℕ → Option (Reading A)
  take_bytes f s a bytes = elim s.recv_ring [
    | none ↦ none
    | some r ↦
        let r' : RingBuffer = receive r no_iovecs bytes in
        process_recv_frames (suc r'.size) f (record s { recv_ring = some r' }) a
  ]

  -- Whether `writeIov` describes no place at all.
  unfoldable pub ring_is_full : Session → Bool
  ring_is_full s = elim s.recv_ring [
    | none ↦ false
    | some r ↦ (write_iov r (some no_iovecs) (free_space r)).0 == 0
  ]

  -- The drain loop over the answers of the kernel; `none` also if they end before the loop does.
  unfoldable pub read_loop : List RecvAnswer → Framer → Session → A → Option (Reading A)
  read_loop [] f s a = none
  read_loop (answer ∷ answers) f s a =
      if ring_is_full s then stop_reading f s recv_overflow 0 a else (elim answer [
        | received bytes ↦ elim (take_bytes f s a bytes) [
          | none ↦ none
          | some out ↦ elim out.ok [
            | true ↦ read_loop answers out.framer out.session out.app
            | false ↦ some out
          ]
        ]
        | end_of_stream ↦ stop_reading f s peer_close 0 a
        | interrupted ↦ read_loop answers f s a
        | would_block ↦ some (record { ok = true; framer = f; session = s; app = a })
        | failed errno ↦ stop_reading f s recv_error errno a
      ])

  unfoldable pub on_readable : List RecvAnswer → Framer → Session → A → Option (Reading A)
  on_readable answers f s a = elim s.core.state [
    | connected ↦ elim s.recv_ring [
      | none ↦ stop_reading f s recv_ring_null 0 a
      | some r ↦ read_loop answers f s a
    ]
    | _ ↦ some (record { ok = true; framer = f; session = s; app = a })
  ]
