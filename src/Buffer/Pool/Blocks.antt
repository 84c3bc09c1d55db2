-- ===== src/Buffer/Pool/Blocks.antt =====
-- The blocks of a pool that are out and those that are free.
use network_engine_portfolio.Prelude.{
  ℕ, zero, suc, ◌+◌, ◌*◌, ◌≤◌, ◌<◌, ◌≡◌, refl, ap, ◌∙◌, true, false, Option, none, some, List, [],
  ◌∷◌, ◌++◌, ◌==◌, ◌^◌, tabulate-ext, tabulate, if◌then◌else◌, arith, Bool-cases, inl, inr, ◌⊎◌,
  ==_iff,
}
use native.Mathlib.Nat.{mod-eq_of_lt, mul-le-mul_right}
use network_engine_portfolio.Map.{contains, same_id}
use network_engine_portfolio.Buffer.Pool.{
  BufferPool, mul64, make_pool, pop_back, allocate, deallocate,
}

abbrev one : ℕ → ℕ → ℕ
one b x = if x == b then 1 else 0

-- How often a block stands in a list.
unfoldable pub count : ℕ → List ℕ → ℕ
count b [] = 0
count b (x ∷ xs) = one b x + count b xs

-- A list without the first occurrence of a block.
unfoldable pub give_back : List ℕ → ℕ → List ℕ
give_back [] b = []
give_back (x ∷ xs) b = let rest = give_back xs b in if x == b then xs else x ∷ rest

-- A pool with the blocks that are out.
pub record Lending : Type 0 where
  pub pool : BufferPool
  pub lent : List ℕ

pub data Use : Type 0 where
  takes : Use
  gives : ℕ → Use

abbrev pub took : List ℕ → Option ℕ × BufferPool → Lending
took lent (none, pool) = record { pool = pool; lent = lent }
took lent (some b, pool) = record { pool = pool; lent = b ∷ lent }

-- A user takes a block, or gives one back that is out; what is not out is not given back.
unfoldable pub use_pool : Lending → Use → Lending
use_pool l takes = took l.lent (allocate l.pool)
use_pool l (gives b) =
    if contains same_id l.lent b
    then record { pool = deallocate l.pool (some b); lent = give_back l.lent b }
    else l

unfoldable pub use_all : Lending → List Use → Lending
use_all l [] = l
use_all l (u ∷ us) = use_all (use_pool l u) us

abbrev pub held : ℕ → Lending → ℕ
held b l = count b l.pool.free_list + count b l.lent

count-append : (b : ℕ) (xs ys : List ℕ) → count b (xs ++ ys) ≡ count b xs + count b ys
unfolding count
count-append b [] ys = omega arith
count-append b (x ∷ xs) ys = omega (arith, count-append b xs ys)

pop_back-cases :
    (xs : List ℕ)
    → ((pop_back xs ≡ none) × (xs ≡ []))
      ⊎ ((y : ℕ) × (ys : List ℕ) × (pop_back xs ≡ some (y, ys)) × (xs ≡ ys ++ y ∷ []))
unfolding pop_back
pop_back-cases [] = inl (refl, refl)
pop_back-cases (x ∷ xs) = elim (pop_back-cases xs) [
  | inl (e, nil) ↦ inr (x, [], rw (pop_back, e) refl, rw nil refl)
  | inr (y, ys, e, split) ↦ inr (y, x ∷ ys, rw (pop_back, e) refl, ap (λ t. x ∷ t) split)
]

count-give_back :
    (b c : ℕ) (xs : List ℕ)
    → contains same_id xs c ≡ true
    → count b (give_back xs c) + (one b c) ≡ count b xs
unfolding count give_back contains
count-give_back b c [] e = cc
count-give_back b c (x ∷ xs) e =
    let rest = count-give_back b c xs in
    elim (Bool-cases (x == c)) [
      | inl t ↦ rw t (omega (arith, ap (λ k. one b k) ((==_iff x c).0 t)))
      | inr f ↦ rw f (omega (arith, rest (rw f at e)))
    ]

below-count :
    (b n : ℕ) (f : ℕ → ℕ) → ((i : ℕ) → f i < f (suc i)) → b < f 0 → count b (tabulate n f) ≡ 0
unfolding count tabulate
below-count b zero f up h = refl
below-count b (suc n) f up h =
    let rest = below-count b n (λ i. f (suc i)) (λ i. up (suc i)) (omega (arith, up 0, h)) in
    let differs : (f 0 == b) ≡ false = ground arith in rw differs (omega (arith, rest))

once-count : (b n : ℕ) (f : ℕ → ℕ) → ((i : ℕ) → f i < f (suc i)) → count b (tabulate n f) ≤ 1
unfolding count tabulate
once-count b zero f up = omega arith
once-count b (suc n) f up = elim (Bool-cases (f 0 == b)) [
  | inl t ↦
      let same = (==_iff (f 0) b).0 t in
      rw t (
        omega
          (arith, below-count b n (λ i. f (suc i)) (λ i. up (suc i)) (omega (arith, up 0, same))))
  | inr g ↦ rw g (omega (arith, once-count b n (λ i. f (suc i)) (λ i. up (suc i))))
]

took-held : (b : ℕ) (l : Lending) → held b (took l.lent (allocate l.pool)) ≡ held b l
unfolding allocate count
took-held b l = elim (pop_back-cases l.pool.free_list) [
  | inl (e, nil) ↦
      let same : allocate l.pool ≡ (none, l.pool) = rw (allocate, e) refl in
      ap (λ a. held b (took l.lent a)) same
  | inr (y, ys, e, split) ↦
      let same : allocate l.pool ≡ (some y, record l.pool { free_list = ys }) =
        rw (allocate, e) refl in
      ap (λ a. held b (took l.lent a)) same
      ∙ omega (arith, count-append b ys (y ∷ []), ap (count b) split)
]

use_pool-held : (b : ℕ) (l : Lending) (u : Use) → held b (use_pool l u) ≡ held b l
unfolding use_pool deallocate count
use_pool-held b l takes = took-held b l
use_pool-held b l (gives c) = elim (Bool-cases (contains same_id l.lent c)) [
  | inl t ↦
      rw t (omega (arith, count-append b l.pool.free_list (c ∷ []), count-give_back b c l.lent t))
  | inr f ↦ rw f refl
]

use_all-held : (b : ℕ) (l : Lending) (us : List Use) → held b (use_all l us) ≡ held b l
unfolding use_all
use_all-held b l [] = refl
use_all-held b l (u ∷ us) = use_all-held b (use_pool l u) us ∙ use_pool-held b l u

-- The places of the blocks do not wrap if the storage does not.
offsets-exact :
    (block_size block_count : ℕ)
    → block_size * block_count < 2 ^ 64
    → tabulate block_count (λ i. mul64 i block_size) ≡ tabulate block_count (λ i. i * block_size)
offsets-exact block_size block_count h =
    tabulate-ext block_count (λ i. mul64 i block_size) (λ i. i * block_size)
      (λ i l. mod-eq_of_lt (below i l))
  where
    i-le : (i : ℕ) → i < block_count → i * block_size ≤ block_count * block_size
    i-le i l = let up_to : i ≤ block_count = omega (arith, l) in mul-le-mul_right block_size up_to

    below : (i : ℕ) → i < block_count → i * block_size < 2 ^ 64
    below i l = omega (arith, h, i-le i l)

-- However blocks are taken from a new pool and those that are out are given back, every block
-- stands at most once among the free ones and those that are out, so that no block is out twice,
-- if the size of the storage is below 2^64, so that its product does not wrap.
pub use_all-once :
    (block_size block_count b : ℕ) (p : BufferPool) (us : List Use)
    → block_size * block_count < 2 ^ 64
    → make_pool block_size block_count ≡ some p
    → count b (use_all (record { pool = p; lent = [] }) us).pool.free_list
        + count b (use_all (record { pool = p; lent = [] }) us).lent
      ≤ 1
unfolding make_pool count
use_all-once block_size block_count b p us fits e = elim (Bool-cases (block_size == 0)) [
  | inl t ↦ let e' = rw t at e in absurd cc
  | inr f ↦ elim (Bool-cases (block_count == 0)) [
    | inl t ↦ let e' = rw (f, t) at e in absurd cc
    | inr g ↦
        let made : count b (tabulate block_count (λ i. mul64 i block_size)) ≡ count b p.free_list =
          ap counted (rw (f, g) at e) in
        let size : 0 < block_size = ground arith in
        omega (
          arith,
          made,
          ap (count b) (offsets-exact block_size block_count fits),
          use_all-held b (record { pool = p; lent = [] }) us,
          once-count b block_count (λ i. i * block_size) (λ i. omega (arith, size)),
        )
  ]
]
  where
    counted : Option BufferPool → ℕ
    counted none = 0
    counted (some q) = count b q.free_list
