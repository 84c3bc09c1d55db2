-- ===== src/Map/Weight.antt =====
-- A number for each entry of a map, added up.
use network_engine_portfolio.Prelude.{
  ℕ, ◌+◌, ◌≤◌, Option, none, some, [], ◌∷◌, ◌≡◌, refl, Bool-cases, Option-cases, inl, inr, ap, ◌∙◌,
  arith,
}
use network_engine_portfolio.Map.{Map, find, put, emplace, erase_key, same_id}
use network_engine_portfolio.Map.Laws.{same_id-Decides}

module _ {V : Type 0} (weight : ℕ → V → ℕ) where
  unfoldable pub total : Map ℕ V → ℕ
  total [] = 0
  total ((k, v) ∷ m) = weight k v + total m

  pub total-erase_key : (m : Map ℕ V) (id : ℕ) → total (erase_key same_id m id) ≤ total m
  unfolding total erase_key
  total-erase_key [] id = omega arith
  total-erase_key ((k, v) ∷ m) id =
      let rest = total-erase_key m id in
      elim (Bool-cases (same_id k id)) [
        | inl t ↦ rw t (omega (arith, rest))
        | inr f ↦ rw f (omega (arith, rest))
      ]

  pub total-taken :
      (m : Map ℕ V) (id : ℕ) (v : V)
      → find same_id m id ≡ some v
      → total (erase_key same_id m id) + weight id v ≤ total m
  unfolding total erase_key find
  total-taken [] id v e = cc
  total-taken ((k, w) ∷ m) id v e =
      let rest = total-taken m id v in
      elim (Bool-cases (same_id k id)) [
        | inl t ↦
            let same_weight : weight k w ≡ weight id v =
              ap (λ k'. weight k' w) ((same_id-Decides k id).0 t) ∙ ap (of_some w) (rw t at e) in
            rw t (omega (arith, total-erase_key m id, same_weight))
        | inr f ↦ rw f (omega (arith, rest (rw f at e)))
      ]
    where
      of_some : V → Option V → ℕ
      of_some w none = weight id w
      of_some w (some v) = weight id v

  pub total-put :
      (m : Map ℕ V) (id : ℕ) (v : V)
      → total (put same_id m id v) ≡ weight id v + total (erase_key same_id m id)
  unfolding total put
  total-put m id v = refl

  pub total-emplace :
      (m : Map ℕ V) (id : ℕ) (v : V) → total (emplace same_id m id v) ≤ total m + weight id v
  unfolding emplace
  total-emplace m id v = elim (Option-cases (find same_id m id)) [
    | inl e ↦ rw (emplace, e) (omega (arith, total-put m id v, total-erase_key m id))
    | inr (q, e) ↦ rw (emplace, e) (omega arith)
  ]
