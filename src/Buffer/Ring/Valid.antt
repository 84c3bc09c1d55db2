-- ===== src/Buffer/Ring/Valid.antt =====
-- The representation invariant of RingBuffer, and the bytes that a valid ring holds.
use network_engine_portfolio.Prelude.{
  ℕ, ◌+◌, ◌-◌, ◌^◌, ◌≤◌, ◌<◌, ◌≡◌, List, some, length, get_or, take, arith, wrap, mod-wrap,
  tabulate, length-tabulate, length-blit, length-replicate, min,
}
use network_engine_portfolio.Buffer.Ring.{
  RingBuffer, make, free_space, clear, put_part, drop_part, commit_write,
}

-- `std::vector<std::byte>` holds at most 2^63 - 1 bytes.
pub record IsValid (r : RingBuffer) : Type 0 where
  pub storage : length r.buffer ≡ r.capacity
  pub positive : 0 < r.capacity
  pub small : r.capacity < 2 ^ 63
  pub head_in : r.head < r.capacity
  pub size_in : r.size ≤ r.capacity
  pub tail_at : r.tail ≡ wrap r.capacity (r.head + r.size)

-- The byte at distance `i` from the head.
abbrev pub byte_at : RingBuffer → ℕ → ℕ
byte_at r i = get_or r.buffer (wrap r.capacity (r.head + i)) 0

-- The stored bytes, oldest first.
unfoldable pub contents : RingBuffer → List ℕ
contents r = tabulate r.size (byte_at r)

pub length-contents : (r : RingBuffer) → length (contents r) ≡ r.size
unfolding contents
length-contents r = length-tabulate r.size (byte_at r)

pub make-IsValid :
    (c : ℕ) {r : RingBuffer} → c < 2 ^ 63 → make c ≡ some r → IsValid r × (r.size ≡ 0)
unfolding make
make-IsValid c h e = grind (arith, length-replicate {A = ℕ} c 0)

pub free_space-eq : {r : RingBuffer} → IsValid r → free_space r ≡ r.capacity - r.size
unfolding free_space
free_space-eq v = omega arith

pub tail_in : {r : RingBuffer} → IsValid r → r.tail < r.capacity
tail_in v = ground arith

-- A whole step of the tail: never past the end, never past the free bytes.
pub put_part-IsValid :
    {r : RingBuffer} (bytes : List ℕ) (n : ℕ)
    → IsValid r
    → n ≤ r.capacity - r.size
    → IsValid (put_part r bytes n) × ((put_part r bytes n).size ≡ r.size + n)
unfolding put_part
put_part-IsValid {r} bytes n v h =
    ground (arith, length-blit r.buffer r.tail (take n bytes), mod-wrap r.capacity (r.tail + n))

pub drop_part-IsValid :
    {r : RingBuffer} (n : ℕ)
    → IsValid r
    → n ≤ r.size
    → IsValid (drop_part r n) × ((drop_part r n).size ≡ r.size - n)
unfolding drop_part
drop_part-IsValid {r} n v h = ground (arith, mod-wrap r.capacity (r.head + n))

pub clear-IsValid : {r : RingBuffer} → IsValid r → IsValid (clear r)
unfolding clear
clear-IsValid v = ground arith

pub commit_write-IsValid :
    {r : RingBuffer} (n : ℕ)
    → IsValid r
    → IsValid (commit_write r n) × ((commit_write r n).size ≡ r.size + min n (r.capacity - r.size))
unfolding commit_write
commit_write-IsValid {r} n v = ground (
  arith,
  mod-wrap r.capacity (r.tail + n),
  mod-wrap r.capacity (r.tail + free_space r),
  free_space-eq v,
)
