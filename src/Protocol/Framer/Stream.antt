-- ===== src/Protocol/Framer/Stream.antt =====
-- A byte stream cut into frames, however it arrives.
use network_engine_portfolio.Prelude.{
  ℕ, ◌+◌, ◌≤◌, ◌<◌, ◌≡◌, refl, ap, ap₂, sym, ◌⊎◌, subst, ◌∙◌, List, [], ◌∷◌, ◌++◌, length, take,
  drop, arith, length-append, length-drop, zero, suc,
}
use network_engine_portfolio.Protocol.Endian.{load_u32_be}
use network_engine_portfolio.Protocol.Framer.Spec.{more, reject, frame, front}

-- Why the cutting stops: more bytes are wanted, or the front is no frame.
pub data Stop : Type 0 where
  waiting refused : Stop

-- `Parses max capacity bytes payloads left stop`: the frames at the front of `bytes` have these
-- payloads, `left` stands behind them, and the cutting stops there.
pub data Parses (max capacity : ℕ) : List ℕ → List (List ℕ) → List ℕ → Stop → Type 0 where
  wants :
      {bytes left : List ℕ}
      → front max capacity bytes ≡ more
      → left ≡ bytes
      → Parses max capacity bytes [] left waiting
  bad :
      {bytes left : List ℕ}
      → front max capacity bytes ≡ reject
      → left ≡ bytes
      → Parses max capacity bytes [] left refused
  next :
      {bytes : List ℕ} {payloads : List (List ℕ)} {left : List ℕ} {stop : Stop}
      (payload rest : List ℕ)
      → front max capacity bytes ≡ frame payload rest
      → Parses max capacity rest payloads left stop
      → Parses max capacity bytes (payload ∷ payloads) left stop

take-front : (n : ℕ) (xs ys : List ℕ) → n ≤ length xs → take n (xs ++ ys) ≡ take n xs
take-front zero xs ys h = refl
take-front (suc n) [] ys h = absurd (omega arith)
take-front (suc n) (x ∷ xs) ys h = ap (◌∷◌ x) (take-front n xs ys (omega arith))

drop-front : (n : ℕ) (xs ys : List ℕ) → n ≤ length xs → drop n (xs ++ ys) ≡ drop n xs ++ ys
drop-front zero xs ys h = refl
drop-front (suc n) [] ys h = absurd (omega arith)
drop-front (suc n) (x ∷ xs) ys h = drop-front n xs ys (omega arith)

-- The payload length that the first four bytes announce.
abbrev pub announced : List ℕ → ℕ
announced xs = load_u32_be (take 4 xs)

module _ (max capacity : ℕ) (xs : List ℕ) where
  abbrev n : ℕ
  n = announced xs

  -- A frame is there whole, and within both limits.
  pub front-frame :
      {p rest : List ℕ}
      → front max capacity xs ≡ frame p rest
      → (n ≤ max)
        × (4 + n ≤ capacity)
        × (4 + n ≤ length xs)
        × (p ≡ take n (drop 4 xs))
        × (rest ≡ drop (4 + n) xs)
  unfolding front
  front-frame e = ground arith

  pub front-more :
      front max capacity xs ≡ more
      → 4 ≤ length xs
      → (n ≤ max) × (4 + n ≤ capacity) × (length xs < 4 + n)
  unfolding front
  front-more e h = ground arith

  pub front-reject :
      front max capacity xs ≡ reject → (4 ≤ length xs) × ((max < n) ⊎ (capacity < 4 + n))
  unfolding front
  front-reject e = ground arith

  pub front_of_frame :
      (4 ≤ length xs)
      → (n ≤ max)
      → (4 + n ≤ capacity)
      → (4 + n ≤ length xs)
      → front max capacity xs ≡ frame (take n (drop 4 xs)) (drop (4 + n) xs)
  unfolding front
  front_of_frame h a b c = ground arith

  front_of_reject :
      (4 ≤ length xs) → (max < n) ⊎ (capacity < 4 + n) → front max capacity xs ≡ reject
  unfolding front
  front_of_reject h a = ground arith

-- Bytes that arrive later change neither a whole frame nor a refusal.
module _ (max capacity : ℕ) (xs ys : List ℕ) where
  same : 4 ≤ length xs → announced (xs ++ ys) ≡ announced xs
  same h = ap load_u32_be (take-front 4 xs ys h)

  pub front-append :
      {p rest : List ℕ}
      → front max capacity xs ≡ frame p rest
      → front max capacity (xs ++ ys) ≡ frame p (rest ++ ys)
  front-append {p} {rest} e =
      front_of_frame max capacity (xs ++ ys) (omega (arith, long, facts))
        (omega (arith, len, facts)) (omega (arith, len, facts)) (omega (arith, long, len, facts))
      ∙ ap₂ frame payload remaining
    where
      facts :
          (announced xs ≤ max)
          × (4 + announced xs ≤ capacity)
          × (4 + announced xs ≤ length xs)
          × (p ≡ take (announced xs) (drop 4 xs))
          × (rest ≡ drop (4 + announced xs) xs)
      facts = front-frame max capacity xs e

      len : announced (xs ++ ys) ≡ announced xs
      len = same (omega (arith, facts))

      long : length (xs ++ ys) ≡ length xs + length ys
      long = length-append xs ys

      payload : take (announced (xs ++ ys)) (drop 4 (xs ++ ys)) ≡ p
      payload =
          rw
            (
              len,
              drop-front 4 xs ys (omega (arith, facts)),
              take-front (announced xs) (drop 4 xs) ys (omega (arith, length-drop 4 xs, facts)),
            )
            (sym facts.3)

      remaining : drop (4 + announced (xs ++ ys)) (xs ++ ys) ≡ rest ++ ys
      remaining =
          rw (len, drop-front (4 + announced xs) xs ys facts.2)
            (ap (λ (l : List ℕ). l ++ ys) (sym facts.4))

  pub reject-append : front max capacity xs ≡ reject → front max capacity (xs ++ ys) ≡ reject
  reject-append e =
      front_of_reject max capacity (xs ++ ys)
        (omega (arith, length-append xs ys, (front-reject max capacity xs e).0))
        (ground (arith, front-reject max capacity xs e, same))

module _ (max capacity : ℕ) where
  -- However the stream is cut into pieces, the same frames come out of it: if the cutting of some
  -- bytes waits for more, and what it left is cut together with the bytes that come later, then
  -- all the bytes at once are cut into the same payloads, with the same rest and the same end.
  pub Parses-append :
      {xs : List ℕ} {ps : List (List ℕ)} {left : List ℕ} {stop : Stop} (ys : List ℕ)
      {qs : List (List ℕ)} {left' : List ℕ} {stop' : Stop}
      → Parses max capacity xs ps left stop
      → stop ≡ waiting
      → Parses max capacity (left ++ ys) qs left' stop'
      → Parses max capacity (xs ++ ys) (ps ++ qs) left' stop'
  Parses-append ys {qs} {left'} {stop'} (wants e l) s later =
      subst (λ (b : List ℕ). Parses max capacity (b ++ ys) qs left' stop') l later
  Parses-append ys (bad e l) s later = cc
  Parses-append ys (next {bytes} p rest e more_frames) s later =
      next p (rest ++ ys) (front-append max capacity bytes ys e)
        (Parses-append ys more_frames s later)

  -- What is left of a stream that waits is less than a frame that fits, so a ring in which every
  -- permitted frame fits is never full of it.
  pub waiting-lt :
      {xs : List ℕ} {ps : List (List ℕ)} {left : List ℕ} {stop : Stop}
      → Parses max capacity xs ps left stop
      → stop ≡ waiting
      → 4 ≤ capacity
      → length left < capacity
  waiting-lt (wants {bytes} e l) s c = ground (arith, ap length l, front-more max capacity bytes e)
  waiting-lt (bad e l) s c = cc
  waiting-lt (next p rest e more_frames) s c = waiting-lt more_frames s c

  -- A stream has one reading.
  pub Parses-unique :
      {xs : List ℕ} {ps : List (List ℕ)} {left : List ℕ} {stop : Stop} {qs : List (List ℕ)}
      {left' : List ℕ} {stop' : Stop}
      → Parses max capacity xs ps left stop
      → Parses max capacity xs qs left' stop'
      → (ps ≡ qs) × (left ≡ left') × (stop ≡ stop')
  Parses-unique (wants e l) (wants e' l') = (refl, l ∙ sym l', refl)
  Parses-unique (wants e l) (bad e' l') = cc
  Parses-unique (wants e l) (next p rest e' d) = cc
  Parses-unique (bad e l) (wants e' l') = cc
  Parses-unique (bad e l) (bad e' l') = (refl, l ∙ sym l', refl)
  Parses-unique (bad e l) (next p rest e' d) = cc
  Parses-unique (next p rest e c) (wants e' l') = cc
  Parses-unique (next p rest e c) (bad e' l') = cc
  Parses-unique (next p rest e c) (next {payloads = qs'} {left = l'} {stop = s'} p' rest' e' d) =
      let same_rest : rest' ≡ rest = cc in
      let same_payload : p ≡ p' = cc in
      let (ps, l, s) =
        Parses-unique c (subst (λ (b : List ℕ). Parses max capacity b qs' l' s') same_rest d) in
      (ap₂ ◌∷◌ same_payload ps, l, s)
