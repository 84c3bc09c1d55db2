-- ===== src/Prelude/Tabulate.antt =====
-- The list of a function's first values. Two lists of bytes are compared index by index through it.
use Prim.Native.Nat.{ℕ, zero, suc, ◌+◌, ◌≤◌, ◌<◌}
use mathlib.Core.Path.{◌≡◌, refl, ap, ap₂, sym, ◌∙◌}
use mathlib.Core.List.{List, [], ◌∷◌, ◌++◌}
use native.Mathlib.Omega.{arith}
use network_engine_portfolio.Prelude.Lists.{length, get_or, take, drop, take_all}

module _ {ℓ} {A : Type ℓ} where
  unfoldable pub tabulate : ℕ → (ℕ → A) → List A
  tabulate zero f = []
  tabulate (suc n) f = f 0 ∷ tabulate n (λ i. f (suc i))

  pub tabulate-ext :
      (n : ℕ) (f g : ℕ → A) → ((i : ℕ) → i < n → f i ≡ g i) → tabulate n f ≡ tabulate n g
  unfolding tabulate
  tabulate-ext zero f g h = refl
  tabulate-ext (suc n) f g h =
      ap₂ ◌∷◌ (h 0 (omega arith))
        (tabulate-ext n (λ i. f (suc i)) (λ i. g (suc i)) (λ i l. h (suc i) (omega arith)))

  pub length-tabulate : (n : ℕ) (f : ℕ → A) → length (tabulate n f) ≡ n
  unfolding tabulate
  length-tabulate zero f = refl
  length-tabulate (suc n) f = ap suc (length-tabulate n (λ i. f (suc i)))

  pub tabulate-append :
      (n m k : ℕ) (f g : ℕ → A)
      → n + m ≡ k
      → ((i : ℕ) → i < m → f (n + i) ≡ g i)
      → tabulate k f ≡ tabulate n f ++ tabulate m g
  unfolding tabulate
  tabulate-append zero m k f g e h =
      ap (λ j. tabulate j f) (omega arith) ∙ tabulate-ext m f g (λ i l. ap f (omega arith) ∙ h i l)
  tabulate-append (suc n) m zero f g e h = absurd (omega arith)
  tabulate-append (suc n) m (suc k) f g e h =
      ap (◌∷◌ (f 0))
        (tabulate-append n m k (λ i. f (suc i)) g (omega arith) (λ i l. ap f (omega arith) ∙ h i l))

  get_or-at : (xs : List A) (d : A) (i j : ℕ) → i ≡ j → get_or xs i d ≡ get_or xs j d
  get_or-at xs d i j e = ap (λ k. get_or xs k d) e

  -- A slice, read index by index.
  pub take-drop-tabulate :
      (xs : List A) (d : A) (off n : ℕ)
      → off + n ≤ length xs
      → take n (drop off xs) ≡ tabulate n (λ i. get_or xs (off + i) d)
  unfolding tabulate
  take-drop-tabulate xs d off zero h = refl
  take-drop-tabulate [] d zero (suc n) h = absurd (omega arith)
  take-drop-tabulate [] d (suc off) (suc n) h = absurd (omega arith)
  take-drop-tabulate (x ∷ xs) d zero (suc n) h = ap (◌∷◌ x) (
      take-drop-tabulate xs d zero n (omega arith)
      ∙ tabulate-ext n (λ i. get_or xs (0 + i) d) (λ i. get_or (x ∷ xs) (0 + suc i) d)
          (λ i l. get_or-at (x ∷ xs) d (suc (0 + i)) (0 + suc i) (omega arith)))
  take-drop-tabulate (x ∷ xs) d (suc off) (suc n) h =
      take-drop-tabulate xs d off (suc n) (omega arith)
      ∙ tabulate-ext (suc n) (λ i. get_or xs (off + i) d) (λ i. get_or (x ∷ xs) (suc off + i) d)
          (λ i l. get_or-at (x ∷ xs) d (suc (off + i)) (suc off + i) (omega arith))

  pub take-tabulate :
      (xs : List A) (d : A) (n : ℕ) → n ≤ length xs → take n xs ≡ tabulate n (λ i. get_or xs i d)
  take-tabulate xs d n h =
      take-drop-tabulate xs d 0 n (omega arith)
      ∙ tabulate-ext n (λ i. get_or xs (0 + i) d) (λ i. get_or xs i d)
          (λ i l. get_or-at xs d (0 + i) i (omega arith))

  -- The values of a list are the list, and a prefix of them is its prefix.
  pub tabulate-get_or :
      (xs : List A) (d : A) (n : ℕ) → length xs ≡ n → tabulate n (λ i. get_or xs i d) ≡ xs
  tabulate-get_or xs d n h = sym (take-tabulate xs d n (omega arith)) ∙ take_all n xs (omega arith)

  pub take-of-tabulate : (k n : ℕ) (f : ℕ → A) → k ≤ n → take k (tabulate n f) ≡ tabulate k f
  unfolding tabulate
  take-of-tabulate zero n f h = refl
  take-of-tabulate (suc k) zero f h = absurd (omega arith)
  take-of-tabulate (suc k) (suc n) f h =
      ap (◌∷◌ (f 0)) (take-of-tabulate k n (λ i. f (suc i)) (omega arith))

  pub drop-of-tabulate :
      (k m n : ℕ) (f g : ℕ → A)
      → k + m ≡ n
      → ((i : ℕ) → i < m → f (k + i) ≡ g i)
      → drop k (tabulate n f) ≡ tabulate m g
  unfolding tabulate
  drop-of-tabulate zero m n f g e h =
      ap (λ j. tabulate j f) (omega arith) ∙ tabulate-ext m f g (λ i l. ap f (omega arith) ∙ h i l)
  drop-of-tabulate (suc k) m zero f g e h = absurd (omega arith)
  drop-of-tabulate (suc k) m (suc n) f g e h =
      drop-of-tabulate k m n (λ i. f (suc i)) g (omega arith) (λ i l. ap f (omega arith) ∙ h i l)
