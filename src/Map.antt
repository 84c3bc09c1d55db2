-- ===== src/Map.antt =====
-- Hash maps and hash sets, as lists with a test of equality for the keys.
pub mod Laws
pub mod Unique
pub mod Weight
use network_engine_portfolio.Prelude.{
  ℕ, ◌==◌, Bool, true, false, Option, none, some, List, [], ◌∷◌, ◌≡◌, refl, ◌↔◌, if◌then◌else◌,
  Bool-cases, inl, inr, ap, sym, ◌∙◌,
}

abbrev pub Map : Type 0 → Type 0 → Type 0
Map K V = List (K × V)

-- `same` decides equality.
abbrev pub Decides : {K : Type 0} → (K → K → Bool) → Type 0
Decides {K} same = (a b : K) → (same a b ≡ true) ↔ (a ≡ b)

module _ {K : Type 0} (same : K → K → Bool) where
  unfoldable pub contains : List K → K → Bool
  contains [] k = false
  contains (x ∷ xs) k = if same x k then true else contains xs k

  unfoldable pub insert : List K → K → List K
  insert xs k = if contains xs k then xs else k ∷ xs

  unfoldable pub erase : List K → K → List K
  erase [] k = []
  erase (x ∷ xs) k = let rest = erase xs k in if same x k then rest else x ∷ rest

  module _ {V : Type 0} where
    unfoldable pub find : Map K V → K → Option V
    find [] k = none
    find ((x, v) ∷ m) k = if same x k then some v else find m k

    unfoldable pub erase_key : Map K V → K → Map K V
    erase_key [] k = []
    erase_key ((x, v) ∷ m) k = let rest = erase_key m k in if same x k then rest else (x, v) ∷ rest

    unfoldable pub put : Map K V → K → V → Map K V
    put m k v = (k, v) ∷ erase_key m k

    -- `emplace`: a key that is there keeps its value.
    unfoldable pub emplace : Map K V → K → V → Map K V
    emplace m k v = elim (find m k) [ none ↦ put m k v | some _ ↦ m ]

    -- `operator[]`, with the value that a missing key gets.
    unfoldable pub find_or : Map K V → K → V → V
    find_or m k v = elim (find m k) [ none ↦ v | some w ↦ w ]

-- Numbers as keys.
abbrev pub same_id : ℕ → ℕ → Bool
same_id a b = a == b
