-- ===== src/Map/Laws.antt =====
-- Looking up after a change of a map or a set.
use network_engine_portfolio.Prelude.{
  Bool, true, false, none, some, List, [], ◌∷◌, ◌≡◌, refl, if◌then◌else◌, Bool-cases, ◌⊎◌, inl, inr,
  ap, sym, ◌∙◌, ==_iff,
}
use network_engine_portfolio.Map.{
  same_id, Map, Decides, contains, insert, erase, find, put, erase_key,
}

pub same_id-Decides : Decides same_id
same_id-Decides a b = ==_iff a b

pub List-cases : {A : Type 0} (xs : List A) → (xs ≡ []) ⊎ ((x : A) × (ys : List A) × (xs ≡ x ∷ ys))
List-cases [] = inl refl
List-cases (x ∷ ys) = inr (x, ys, refl)

module _ {K : Type 0} (same : K → K → Bool) (law : Decides same) where
  pub same_self : (k : K) → same k k ≡ true
  same_self k = (law k k).1 refl

  -- A key equal to `x` differs from one that does not.
  apart : {x k k' : K} → same x k ≡ false → same x k' ≡ true → same k k' ≡ false
  apart {x} {k} {k'} f u = elim (Bool-cases (same k k')) [
    | inl t ↦ let e : same x k ≡ same x k' = ap (same x) ((law k k').0 t) in cc
    | inr g ↦ g
  ]

  pub contains-erase :
      (xs : List K) (k k' : K)
      → contains same (erase same xs k) k' ≡ (if same k k' then false else contains same xs k')
  unfolding contains erase
  contains-erase [] k k' = elim (Bool-cases (same k k')) [ inl t ↦ rw t refl | inr f ↦ rw f refl ]
  contains-erase (x ∷ xs) k k' = elim (Bool-cases (same x k)) [
    | inl t ↦
        let e : same x k' ≡ same k k' = ap (λ z. same z k') ((law x k).0 t) in
        elim (Bool-cases (same k k')) [
          | inl u ↦ rw (t, contains-erase xs k k', u) refl
          | inr g ↦ rw (t, contains-erase xs k k', e, g) refl
        ]
    | inr f ↦ elim (Bool-cases (same x k')) [
      | inl u ↦ rw (f, u, apart f u) refl
      | inr g ↦ rw (f, g) (contains-erase xs k k')
    ]
  ]

  pub contains-insert :
      (xs : List K) (k k' : K)
      → contains same (insert same xs k) k' ≡ (if same k k' then true else contains same xs k')
  unfolding contains insert
  contains-insert xs k k' = elim (Bool-cases (contains same xs k)) [
    | inl t ↦ elim (Bool-cases (same k k')) [
      | inl u ↦ rw (insert, t, u) (ap (contains same xs) (sym ((law k k').0 u)) ∙ t)
      | inr g ↦ rw (insert, t, g) refl
    ]
    | inr f ↦ rw (insert, f) refl
  ]

  module _ {V : Type 0} where
    pub find-erase_key :
        (m : Map K V) (k k' : K)
        → find same (erase_key same m k) k' ≡ (if same k k' then none else find same m k')
    unfolding find erase_key
    find-erase_key [] k k' = elim (Bool-cases (same k k')) [ inl t ↦ rw t refl | inr f ↦ rw f refl ]
    find-erase_key ((x, v) ∷ m) k k' = elim (Bool-cases (same x k)) [
      | inl t ↦
          let e : same x k' ≡ same k k' = ap (λ z. same z k') ((law x k).0 t) in
          elim (Bool-cases (same k k')) [
            | inl u ↦ rw (t, find-erase_key m k k', u) refl
            | inr g ↦ rw (t, find-erase_key m k k', e, g) refl
          ]
      | inr f ↦ elim (Bool-cases (same x k')) [
        | inl u ↦ rw (f, u, apart f u) refl
        | inr g ↦ rw (f, g) (find-erase_key m k k')
      ]
    ]

    pub find-put :
        (m : Map K V) (k k' : K) (v : V)
        → find same (put same m k v) k' ≡ (if same k k' then some v else find same m k')
    unfolding find put
    find-put m k k' v = elim (Bool-cases (same k k')) [
      | inl t ↦ rw (put, t) refl
      | inr f ↦ rw (put, f, find-erase_key m k k', f) refl
    ]
