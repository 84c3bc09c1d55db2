-- ===== src/Tests/Frames.antt =====
-- Packets on the wire: the byte order, the framer and the round trip.
use network_engine_portfolio.Prelude.{refl, [], ◌∷◌, none, arith}
use network_engine_portfolio.Buffer.Ring.{RingBuffer}
use network_engine_portfolio.Buffer.Ring.Valid.{contents}
use network_engine_portfolio.Protocol.Framer.{Framer, try_frame}
use network_engine_portfolio.Protocol.Framer.Spec.{front, Reads, try_frame_lem}
use network_engine_portfolio.Protocol.Framer.Stream.{Parses, waiting, wants}
use network_engine_portfolio.Protocol.Message.RoundTrip.{Packet, payload, stream, stream-Parses}

-- A frame of payload 9, 8 whose header goes round the end of the ring, and one byte of the next.
abbrev two_frames : RingBuffer
two_frames = record {
  buffer = 0 ∷ 0 ∷ 2 ∷ 9 ∷ 8 ∷ 0 ∷ 0 ∷ 0 ∷ [];
  capacity = 8;
  head = 7;
  tail = 6;
  size = 7;
}

abbrev framer : Framer
framer = record { max_payload_len = 4; scratch = []; last_error = none }

try_frame_lem_example :
    Reads (front 4 8 (contents two_frames)) two_frames (try_frame framer two_frames)
try_frame_lem_example = try_frame_lem framer {r = two_frames} (omega arith)

abbrev ping : Packet
ping = record { opcode = 0xfffe; body = [] }

abbrev order : Packet
order = record { opcode = 3; body = 1 ∷ 2 ∷ 3 ∷ [] }

stream-Parses_example :
    Parses 16 32
      (stream (ping ∷ order ∷ []))
      (payload 0xfffe [] ∷ payload 3 (1 ∷ 2 ∷ 3 ∷ []) ∷ [])
      []
      waiting
stream-Parses_example = stream-Parses 16 32 (ping ∷ order ∷ []) (omega arith)

part : Parses 16 32 (0 ∷ 0 ∷ []) [] (0 ∷ 0 ∷ []) waiting
unfolding front
part = wants refl refl
