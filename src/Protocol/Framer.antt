-- ===== src/Protocol/Framer.antt =====
-- engine/include/hypernet/protocol: IFramer.hpp, MessageView.hpp and LengthPrefixFramer.hpp. A frame
-- is a length in four bytes and that many bytes of payload.
pub mod Spec
pub mod Stream
use network_engine_portfolio.Prelude.{
  ℕ, ◌+◌, ◌-◌, ◌^◌, ◌≤◌, ◌<◌, Option, none, some, List, [], ◌++◌, length, take, replicate, ltb,
  ◌==◌, if◌then◌else◌, not, add64, ◌≡◌, arith,
}
use network_engine_portfolio.Buffer.Ring.{
  RingBuffer, slice, BufferView, peek, read, peek_view, read_view,
}
use network_engine_portfolio.Protocol.Endian.{load_u32_be}

pub data FrameResult : Type 0 where
  need_more framed invalid : FrameResult

-- What a `MessageView` points at: nothing, the ring from an index on, or the framer's scratch buffer.
pub data Pointer : Type 0 where
  null : Pointer
  in_ring : ℕ → Pointer
  in_scratch : Pointer

pub record MessageView : Type 0 where
  pub start : Pointer
  pub size : ℕ

abbrev pub empty_message : MessageView
empty_message = record { start = null; size = 0 }

-- `lastErrorReason_`
pub data FramerError : Type 0 where
  ringbuffer_peek_short payload_len_exceeds_max size_overflow frame_exceeds_ring_capacity :
      FramerError
  ringbuffer_read_header_failed ringbuffer_read_payload_short : FramerError

pub record Framer : Type 0 where
  pub max_payload_len : ℕ
  pub scratch : List ℕ
  pub last_error : Option FramerError

-- The result of one call with the framer, the ring and `out` after it.
pub record Attempt : Type 0 where
  pub result : FrameResult
  pub framer : Framer
  pub ring : RingBuffer
  pub out : MessageView

unfoldable pub refuse : Framer → RingBuffer → FramerError → Attempt
refuse f r e = record {
  result = invalid;
  framer = record f { last_error = some e };
  ring = r;
  out = empty_message;
}

unfoldable pub wait : Framer → RingBuffer → Attempt
wait f r = record { result = need_more; framer = f; ring = r; out = empty_message }

-- `scratch_.resize(n)`
unfoldable pub resize : ℕ → List ℕ → List ℕ
resize n xs = take n xs ++ replicate (n - length xs) 0

or_null : Option (List ℕ) → List ℕ
or_null none = []
or_null (some xs) = xs

-- `data()` of a view of the ring
unfoldable pub pointer_of : Option ℕ → Pointer
pointer_of none = null
pointer_of (some off) = in_ring off

-- Step 8: the payload goes round the end of the ring and is copied.
unfoldable pub copy_payload : Framer → RingBuffer → ℕ → Attempt
unfolding or_null
copy_payload f r payload_len =
    let (payload_read, scratch, r') = read r (some (resize payload_len f.scratch)) payload_len in
    let f' : Framer = record f { scratch = or_null scratch } in
    if not (payload_read == payload_len)
    then refuse f' r' ringbuffer_read_payload_short
    else record {
      result = framed;
      framer = f';
      ring = r';
      out = record { start = in_scratch; size = payload_len };
    }

unfoldable pub view_payload : Framer → BufferView × RingBuffer → Attempt
view_payload f (view, r) = record {
  result = framed;
  framer = f;
  ring = r;
  out = record { start = pointer_of view.start; size = view.size };
}

-- Step 7: the payload, in place if it is contiguous.
unfoldable pub take_payload : Framer → RingBuffer → ℕ → Attempt
unfolding view_payload
take_payload f r payload_len =
    if payload_len == 0
    then record { result = framed; framer = f; ring = r; out = empty_message }
    else if (peek_view r payload_len).size == payload_len
    then view_payload f (read_view r payload_len)
    else copy_payload f r payload_len

abbrev pub header_size : ℕ
header_size = 4

-- Step 6: the header is read away.
unfoldable pub take_header : Framer → RingBuffer → ℕ → Attempt
take_header f r payload_len =
    let (header_read, tmp, r') = read r (some (replicate header_size 0)) header_size in
    if not (header_read == header_size)
    then refuse f r' ringbuffer_read_header_failed
    else take_payload f r' payload_len

-- Steps 3 to 5: the checks of the announced length.
unfoldable pub check_length : Framer → RingBuffer → ℕ → Attempt
check_length f r payload_len =
    if ltb f.max_payload_len payload_len
    then refuse f r payload_len_exceeds_max
    else if ltb (2 ^ 64 - 1 - header_size) payload_len
    then refuse f r size_overflow
    else if ltb r.capacity (add64 header_size payload_len)
    then refuse f r frame_exceeds_ring_capacity
    else if ltb r.size (add64 header_size payload_len)
    then wait f r
    else take_header f r payload_len

-- Step 2: the header is looked at.
unfoldable pub peek_header : Framer → RingBuffer → Attempt
unfolding or_null
peek_header f r =
    let (copied, hdr) = peek r (some (replicate header_size 0)) header_size in
    if not (copied == header_size)
    then refuse f r ringbuffer_peek_short
    else check_length f r (load_u32_be (or_null hdr))

unfoldable pub try_frame : Framer → RingBuffer → Attempt
try_frame f r =
    let f' : Framer = record f { last_error = none } in
    if ltb r.size header_size then wait f' r else peek_header f' r

-- No call changes the limit.
pub max-try_frame :
    (f : Framer) (r : RingBuffer) → (try_frame f r).framer.max_payload_len ≡ f.max_payload_len
unfolding try_frame peek_header check_length take_header take_payload view_payload copy_payload
    refuse wait
max-try_frame f r = ground arith
