-- ===== src/App/Registry/Index/Slots.antt =====
-- Looking up in an index from keys to sets of sessions, after a change of it.
use network_engine_portfolio.Prelude.{
  ℕ, Bool, true, false, none, some, List, [], ◌∷◌, ◌≡◌, refl, if◌then◌else◌, Bool-cases,
  Option-cases, inl, inr, ap, sym, ◌∙◌, ◌&&◌,
}
use network_engine_portfolio.Map.{Map, Decides, contains, erase, find, put, erase_key, find_or}
use network_engine_portfolio.Map.{same_id}
use network_engine_portfolio.Map.Laws.{
  List-cases, same_id-Decides, contains-erase, contains-insert, find-erase_key, find-put,
}
use network_engine_portfolio.App.Registry.Index.{add_to_index, erase_from_index}

module _ {K : Type 0} (same : K → K → Bool) (law : Decides same) where
  -- The sessions of a key.
  abbrev slot : Map K (List ℕ) → K → List ℕ
  slot idx k = find_or same idx k []

  slot-put :
      (idx : Map K (List ℕ)) (k k' : K) (xs : List ℕ)
      → slot (put same idx k xs) k' ≡ (if same k k' then xs else slot idx k')
  unfolding find_or
  slot-put idx k k' xs = elim (Bool-cases (same k k')) [
    | inl t ↦ rw (find_or, find-put same law idx k k' xs, t) refl
    | inr f ↦ rw (find_or, find-put same law idx k k' xs, f) refl
  ]

  slot-erase_key :
      (idx : Map K (List ℕ)) (k k' : K)
      → slot (erase_key same idx k) k' ≡ (if same k k' then [] else slot idx k')
  unfolding find_or
  slot-erase_key idx k k' = elim (Bool-cases (same k k')) [
    | inl t ↦ rw (find_or, find-erase_key same law idx k k', t) refl
    | inr f ↦ rw (find_or, find-erase_key same law idx k k', f) refl
  ]

  nothing_erased : (sid : ℕ) → [] ≡ erase same_id [] sid
  unfolding erase
  nothing_erased sid = refl

  slot-none : (idx : Map K (List ℕ)) (k : K) → find same idx k ≡ none → slot idx k ≡ []
  unfolding find_or
  slot-none idx k n = rw (find_or, n) refl

  slot-some :
      (idx : Map K (List ℕ)) (k : K) {members : List ℕ}
      → find same idx k ≡ some members
      → slot idx k ≡ members
  unfolding find_or
  slot-some idx k s = rw (find_or, s) refl

  slot-erase :
      (idx : Map K (List ℕ)) (k k' : K) (sid : ℕ)
      → slot (erase_from_index same idx k sid) k'
        ≡ (if same k k' then erase same_id (slot idx k) sid else slot idx k')
  unfolding erase_from_index
  slot-erase idx k k' sid = elim (Option-cases (find same idx k)) [
    | inl n ↦ elim (Bool-cases (same k k')) [
      | inl t ↦
          let e : find same idx k' ≡ none = ap (find same idx) (sym ((law k k').0 t)) ∙ n in
          rw (erase_from_index, n, t)
            (slot-none idx k' e
              ∙ nothing_erased sid
              ∙ ap (λ xs. erase same_id xs sid) (sym (slot-none idx k n)))
      | inr f ↦ rw (erase_from_index, n, f) refl
    ]
    | inr (members, s) ↦ elim (List-cases (erase same_id members sid)) [
      | inl z ↦ rw (erase_from_index, s, slot-some idx k s, z) (slot-erase_key idx k k')
      | inr (m, ms, z) ↦ rw (erase_from_index, s, slot-some idx k s, z) (slot-put idx k k' (m ∷ ms))
    ]
  ]

  -- Whether the session is among those of the key.
  abbrev pub in_index : Map K (List ℕ) → K → ℕ → Bool
  in_index idx k sid = contains same_id (slot idx k) sid

  pub in_index-add :
      (idx : Map K (List ℕ)) (k k' : K) (sid sid' : ℕ)
      → in_index (add_to_index same idx k sid) k' sid'
        ≡ (if same k k' && same_id sid sid' then true else in_index idx k' sid')
  unfolding add_to_index
  in_index-add idx k k' sid sid' =
      ap (λ xs. contains same_id xs sid') (slot-put idx k k' _) ∙ elim (Bool-cases (same k k')) [
        | inl t ↦ rw t (
            contains-insert same_id same_id-Decides (slot idx k) sid sid'
            ∙ ap (λ z. if same_id sid sid' then true else in_index idx z sid') ((law k k').0 t))
        | inr f ↦ rw f refl
      ]

  pub in_index-erase :
      (idx : Map K (List ℕ)) (k k' : K) (sid sid' : ℕ)
      → in_index (erase_from_index same idx k sid) k' sid'
        ≡ (if same k k' && same_id sid sid' then false else in_index idx k' sid')
  in_index-erase idx k k' sid sid' =
      ap (λ xs. contains same_id xs sid') (slot-erase idx k k' sid)
      ∙ elim (Bool-cases (same k k')) [
        | inl t ↦ rw t (
            contains-erase same_id same_id-Decides (slot idx k) sid sid'
            ∙ ap (λ z. if same_id sid sid' then false else in_index idx z sid') ((law k k').0 t))
        | inr f ↦ rw f refl
      ]
