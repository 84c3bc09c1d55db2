-- ===== src/Buffer/Pool.antt =====
-- engine/src/hypernet/buffer/BufferPool.cpp: blocks of one size, handed out from a stack of free
-- ones. A block is its offset in the storage, and the end of the list is the top of the stack.
pub mod Blocks
use network_engine_portfolio.Prelude.{
  ℕ, ◌+◌, ◌*◌, ◌%◌, ◌^◌, Bool, true, false, not, Option, none, some, List, [], ◌∷◌, ◌++◌, ◌==◌,
  length, tabulate, if◌then◌else◌,
}

pub record BufferPool : Type 0 where
  pub block_size : ℕ
  pub block_count : ℕ
  pub storage_size : ℕ
  pub free_list : List ℕ

-- A product of two `std::size_t`.
abbrev pub mul64 : ℕ → ℕ → ℕ
mul64 a b = (a * b) % 2 ^ 64

-- The constructor, `none` where it throws; the allocation of the storage succeeds.
unfoldable pub make_pool : ℕ → ℕ → Option BufferPool
make_pool block_size block_count =
    if block_size == 0
    then none
    else if block_count == 0
    then none
    else some (record {
      block_size = block_size;
      block_count = block_count;
      storage_size = mul64 block_size block_count;
      free_list = tabulate block_count (λ i. mul64 i block_size);
    })

-- The last element of a list and those before it, if there are any.
unfoldable pub pop_back : List ℕ → Option (ℕ × List ℕ)
pop_back [] = none
pop_back (x ∷ xs) = elim (pop_back xs) [ none ↦ some (x, []) | some (y, ys) ↦ some (y, x ∷ ys) ]

unfoldable pub allocate : BufferPool → Option ℕ × BufferPool
allocate p = elim (pop_back p.free_list) [
  | none ↦ (none, p)
  | some (block, rest) ↦ (some block, record p { free_list = rest })
]

-- The assertions of debug builds are left out.
unfoldable pub deallocate : BufferPool → Option ℕ → BufferPool
deallocate p none = p
deallocate p (some block) = record p { free_list = p.free_list ++ block ∷ [] }

unfoldable pub free_blocks : BufferPool → ℕ
free_blocks p = length p.free_list

unfoldable pub exhausted : BufferPool → Bool
exhausted p = free_blocks p == 0
