-- ===== src/Map/Unique.antt =====
-- Maps in which no key stands twice, and how many keys they have.
use network_engine_portfolio.Prelude.{
  ℕ, suc, ◌+◌, Bool, none, some, [], ◌∷◌, ◌≡◌, refl, Bool-cases, inl, inr, ap, sym, ◌∙◌, arith,
}
use network_engine_portfolio.Map.{Map, Decides, find, put, erase_key}
use network_engine_portfolio.Map.Laws.{find-erase_key, same_self}

module _ {K V : Type 0} (same : K → K → Bool) (law : Decides same) where
  unfoldable pub Unique : Map K V → Type 0
  Unique [] = Unit
  Unique ((k, v) ∷ m) = (find same m k ≡ none) × Unique m

  -- `size()`
  unfoldable pub entries : Map K V → ℕ
  entries [] = 0
  entries (_ ∷ m) = suc (entries m)

  erased : (m : Map K V) (k : K) → find same (erase_key same m k) k ≡ none
  erased m k = find-erase_key same law m k k ∙ rw (same_self same law k) refl

  still_none :
      (m : Map K V) (k k' : K) → find same m k' ≡ none → find same (erase_key same m k) k' ≡ none
  still_none m k k' e =
      find-erase_key same law m k k'
      ∙ elim (Bool-cases (same k k')) [ inl t ↦ rw t refl | inr f ↦ rw f e ]

  pub erase_key-Unique : (m : Map K V) (k : K) → Unique m → Unique (erase_key same m k)
  unfolding Unique erase_key
  erase_key-Unique [] k u = tt
  erase_key-Unique ((x, v) ∷ m) k u =
      let rest = erase_key-Unique m k u.1 in
      elim (Bool-cases (same x k)) [ inl t ↦ rw t rest | inr f ↦ rw f (still_none m k x u.0, rest) ]

  pub put-Unique : (m : Map K V) (k : K) (v : V) → Unique m → Unique (put same m k v)
  unfolding Unique put
  put-Unique m k v u = (erased m k, erase_key-Unique m k u)

  entries-absent :
      (m : Map K V) (k : K) → find same m k ≡ none → entries (erase_key same m k) ≡ entries m
  unfolding find erase_key entries
  entries-absent [] k e = refl
  entries-absent ((x, v) ∷ m) k e =
      let rest = entries-absent m k in
      elim (Bool-cases (same x k)) [
        | inl t ↦ let e' = rw t at e in absurd cc
        | inr f ↦ let e' = rw f at e in rw f (omega (arith, rest e'))
      ]

  -- A key that is there goes once.
  pub entries-erase_key :
      (m : Map K V) (k : K) (v : V)
      → Unique m
      → find same m k ≡ some v
      → entries (erase_key same m k) + 1 ≡ entries m
  unfolding Unique find erase_key entries
  entries-erase_key [] k v u e = cc
  entries-erase_key ((x, w) ∷ m) k v u e =
      let rest = entries-erase_key m k v u.1 in
      elim (Bool-cases (same x k)) [
        | inl t ↦
            let gone : find same m k ≡ none = ap (find same m) (sym ((law x k).0 t)) ∙ u.0 in
            rw t (omega (arith, entries-absent m k gone))
        | inr f ↦ let e' = rw f at e in rw f (omega (arith, rest e'))
      ]

  -- Replacing what a key has keeps the number of keys, and a new key is one more.
  pub entries-replaced :
      (m : Map K V) (k : K) (v w : V)
      → Unique m
      → find same m k ≡ some v
      → entries (put same m k w) ≡ entries m
  unfolding put entries
  entries-replaced m k v w u e = omega (arith, entries-erase_key m k v u e)

  pub entries-added :
      (m : Map K V) (k : K) (w : V)
      → find same m k ≡ none
      → entries (put same m k w) ≡ entries m + 1
  unfolding put entries
  entries-added m k w e = omega (arith, entries-absent m k e)
