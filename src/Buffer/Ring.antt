-- ===== src/Buffer/Ring.antt =====
-- engine/src/hypernet/buffer/RingBuffer.cpp and its header: the byte ring that a session receives
-- into and sends from. A member function that changes the object returns the new ring beside its
-- result. A `std::byte *` is an option: `none` is nullptr, and `some` holds the bytes that it points
-- at. A pointer into `buffer_` is its index.
pub mod Valid
pub mod Parts
pub mod Write
pub mod Read
pub mod Views
pub mod Receive
use network_engine_portfolio.Prelude.{
  ℕ, ◌%◌, ◌≤◌, ◌<◌, min, Option, none, some, List, [], take, drop, replicate, blit, ltb, ◌==◌,
  if◌then◌else◌, add64, sub64,
}

pub record RingBuffer : Type 0 where
  pub buffer : List ℕ
  pub capacity : ℕ
  pub head : ℕ
  pub tail : ℕ
  pub size : ℕ

-- `none` is the `std::invalid_argument` of the constructor.
unfoldable pub make : ℕ → Option RingBuffer
make capacity =
    if capacity == 0
    then none
    else some (record {
      buffer = replicate capacity 0;
      capacity = capacity;
      head = 0;
      tail = 0;
      size = 0;
    })

unfoldable pub free_space : RingBuffer → ℕ
free_space r = sub64 r.capacity r.size

-- The bytes from index `off` on, as `memcpy` reads them.
abbrev pub slice : List ℕ → ℕ → ℕ → List ℕ
slice xs off n = take n (drop off xs)

-- One `memcpy` to `buffer_.data() + tail_` with the update of the indices that follows it.
unfoldable pub put_part : RingBuffer → List ℕ → ℕ → RingBuffer
put_part r bytes n = record r {
  buffer = blit r.buffer r.tail (take n bytes);
  tail = add64 r.tail n % r.capacity;
  size = add64 r.size n;
}

unfoldable pub write_parts : RingBuffer → List ℕ → ℕ → ℕ → RingBuffer
write_parts r bytes first remaining =
    let r' = put_part r bytes first in
    if ltb 0 remaining then put_part r' (drop first bytes) remaining else r'

unfoldable pub write_some : RingBuffer → List ℕ → ℕ → ℕ × RingBuffer
write_some r bytes to_write =
    if to_write == 0
    then (0, r)
    else let first = min to_write (sub64 r.capacity r.tail) in
      (to_write, write_parts r bytes first (sub64 to_write first))

unfoldable pub write : RingBuffer → Option (List ℕ) → ℕ → ℕ × RingBuffer
write r none len = (0, r)
write r (some bytes) len = if len == 0 then (0, r) else write_some r bytes (min len (free_space r))

-- `head_` moves over `n` bytes.
unfoldable pub drop_part : RingBuffer → ℕ → RingBuffer
drop_part r n = record r { head = add64 r.head n % r.capacity; size = sub64 r.size n }

unfoldable pub read_parts : RingBuffer → List ℕ → ℕ → ℕ → List ℕ × RingBuffer
read_parts r dest first remaining =
    let dest' = blit dest 0 (slice r.buffer r.head first) in
    let r' = drop_part r first in
    if ltb 0 remaining
    then (blit dest' first (slice r'.buffer r'.head remaining), drop_part r' remaining)
    else (dest', r')

unfoldable pub read_some : RingBuffer → List ℕ → ℕ → ℕ × Option (List ℕ) × RingBuffer
read_some r dest to_read =
    if to_read == 0
    then (0, some dest, r)
    else let first = min to_read (sub64 r.capacity r.head) in
      let (dest', r') = read_parts r dest first (sub64 to_read first) in (to_read, some dest', r')

-- The count, the memory at `dest` afterwards, and the ring.
unfoldable pub read : RingBuffer → Option (List ℕ) → ℕ → ℕ × Option (List ℕ) × RingBuffer
read r none len = (0, none, r)
read r (some dest) len = if len == 0 then (0, some dest, r) else read_some r dest (min len r.size)

unfoldable pub peek_parts : RingBuffer → List ℕ → ℕ → ℕ → List ℕ
peek_parts r dest first remaining =
    let dest' = blit dest 0 (slice r.buffer r.head first) in
    if ltb 0 remaining then blit dest' first (slice r.buffer 0 remaining) else dest'

unfoldable pub peek_some : RingBuffer → List ℕ → ℕ → ℕ × Option (List ℕ)
peek_some r dest to_copy =
    if to_copy == 0
    then (0, some dest)
    else let first = min to_copy (sub64 r.capacity r.head) in
      (to_copy, some (peek_parts r dest first (sub64 to_copy first)))

unfoldable pub peek : RingBuffer → Option (List ℕ) → ℕ → ℕ × Option (List ℕ)
peek r none len = (0, none)
peek r (some dest) len = if len == 0 then (0, some dest) else peek_some r dest (min len r.size)

-- A `BufferView`: the index in `buffer_` that it points at, `none` for nullptr, and its length.
pub record BufferView : Type 0 where
  pub start : Option ℕ
  pub size : ℕ

abbrev pub empty_view : BufferView
empty_view = record { start = none; size = 0 }

unfoldable pub view_at : ℕ → ℕ → BufferView
view_at off n = if n == 0 then empty_view else record { start = some off; size = n }

unfoldable pub peek_view : RingBuffer → ℕ → BufferView
peek_view r max_len =
    if max_len == 0
    then empty_view
    else if r.size == 0
    then empty_view
    else view_at r.head (min max_len (min r.size (sub64 r.capacity r.head)))

unfoldable pub read_view : RingBuffer → ℕ → BufferView × RingBuffer
read_view r max_len =
    let view = peek_view r max_len in
    if view.size == 0 then (view, r) else (view, drop_part r view.size)

-- An `iovec` over `buffer_`.
pub record Iovec : Type 0 where
  pub base : Option ℕ
  pub len : ℕ

abbrev pub Iovecs : Type 0
Iovecs = Iovec × Iovec

-- What `peekIov` and `writeIov` leave in `out`, from index `off` on, and the number they return.
unfoldable pub iov_parts : ℕ → ℕ → ℕ → ℕ × Option Iovecs
iov_parts off first remaining =
    if ltb 0 remaining
    then (
      2,
      some (record { base = some off; len = first }, record { base = some 0; len = remaining }),
    )
    else (1, some (record { base = some off; len = first }, record { base = none; len = 0 }))

unfoldable pub iov_some : RingBuffer → Iovecs → ℕ → ℕ → ℕ × Option Iovecs
iov_some r out off n =
    if n == 0
    then (0, some out)
    else let first = min n (sub64 r.capacity off) in iov_parts off first (sub64 n first)

unfoldable pub peek_iov : RingBuffer → Option Iovecs → ℕ → ℕ × Option Iovecs
peek_iov r none max_len = (0, none)
peek_iov r (some out) max_len =
    if max_len == 0
    then (0, some out)
    else if r.size == 0
    then (0, some out)
    else iov_some r out r.head (min max_len r.size)

unfoldable pub write_iov : RingBuffer → Option Iovecs → ℕ → ℕ × Option Iovecs
write_iov r none max_len = (0, none)
write_iov r (some out) max_len =
    if max_len == 0
    then (0, some out)
    else if free_space r == 0
    then (0, some out)
    else iov_some r out r.tail (min max_len (free_space r))

unfoldable pub commit_write : RingBuffer → ℕ → RingBuffer
commit_write r n =
    if n == 0
    then r
    else let n' = if ltb (free_space r) n then free_space r else n in
      record r { tail = add64 r.tail n' % r.capacity; size = add64 r.size n' }

unfoldable pub clear : RingBuffer → RingBuffer
clear r = record r { head = 0; tail = 0; size = 0 }
