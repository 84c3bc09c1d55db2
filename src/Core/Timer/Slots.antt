-- ===== src/Core/Timer/Slots.antt =====
-- Timers stand in the slots of their ticks, and none that is stored is due.
use network_engine_portfolio.Prelude.{
  ℕ, zero, suc, ◌+◌, ◌-◌, ◌*◌, ◌%◌, ◌^◌, ◌≤◌, ◌<◌, ◌≡◌, refl, ap, sym, subst, ◌∙◌, inl, inr, false,
  List, [], ◌∷◌, ◌++◌, length, ◌==◌, get_or, set, length-set, add64, sub64, if◌then◌else◌, arith,
  Bool-cases, ==_iff, ==_self,
}
use native.Mathlib.Decide.{dec_lt}
use native.Mathlib.Nat.{div-mul-le_self, lt-div-mul-add, div-le_self, mod-lt}
use network_engine_portfolio.Core.Timer.{
  Timer, TimerWheel, duration_to_ticks, push_to_slot, add_timer,
}

-- For a positive resolution, and a delay that with it does not wrap, the number of ticks is the
-- delay divided by the resolution and rounded up: so many ticks last at least the delay and less
-- than the delay and one tick; and there are at most as many of them as milliseconds in both.
pub duration_to_ticks_lem :
    (resolution delay : ℕ)
    → 0 < resolution
    → delay + resolution < 2 ^ 64
    → (delay ≤ duration_to_ticks resolution delay * resolution)
      × (duration_to_ticks resolution delay * resolution < delay + resolution)
      × (duration_to_ticks resolution delay ≤ delay + resolution)
unfolding duration_to_ticks
duration_to_ticks_lem r d p h = elim (Bool-cases (d == 0)) [
  | inl t ↦
      let z : d ≡ 0 = (==_iff d 0).0 t in rw t (omega (arith, z), omega (arith, p), omega arith)
  | inr f ↦
      let e : sub64 (add64 d r) 1 ≡ d + r - 1 = ground arith in
      rw (f, e)
        (
          omega (arith, lt-div-mul-add {a = d + r - 1} p),
          omega (arith, div-mul-le_self (d + r - 1) r, p),
          omega (arith, div-le_self (d + r - 1) r),
        )
]

unfoldable pub All : {T : Type 0} → (T → Type 0) → List T → Type 0
All P [] = Unit
All P (x ∷ xs) = P x × All P xs

All-append : {T : Type 0} (P : T → Type 0) (xs ys : List T) → All P xs → All P ys → All P (xs ++ ys)
unfolding All
All-append P [] ys p q = q
All-append P (x ∷ xs) ys (h, p) q = (h, All-append P xs ys p q)

pub get_or-set :
    {T : Type 0} (xs : List T) (i j : ℕ) (v d : T)
    → i < length xs
    → get_or (set xs i v) j d ≡ (if i == j then v else get_or xs j d)
get_or-set [] i j v d h = absurd (omega arith)
get_or-set (x ∷ xs) zero zero v d h = refl
get_or-set (x ∷ xs) zero (suc j) v d h = ground arith
get_or-set (x ∷ xs) (suc i) zero v d h = ground arith
get_or-set (x ∷ xs) (suc i) (suc j) v d h = ground (arith, get_or-set xs i j v d (omega arith))

module _ {K : Type 0} where
  -- A timer of the slot `i` that is not due before the tick `from`.
  abbrev pub Placed : ℕ → ℕ → ℕ → Timer K → Type 0
  Placed n from i t = (t.expiration_tick % n ≡ i) × (from ≤ t.expiration_tick)

  -- In the slots of other ticks no timer expires now.
  pub All-later :
      (n now j : ℕ) (ts : List (Timer K))
      → (now % n == j) ≡ false
      → All (Placed n now j) ts
      → All (Placed n (now + 1) j) ts
  unfolding All
  All-later n now j [] f h = tt
  All-later n now j (t ∷ ts) f ((at, from), h) = ((at, after), All-later n now j ts f h)
    where
      other : now % n ≡ j → ⊥
      other e = absurd (ground (arith, (==_iff (now % n) j).1 e))

      after : now + 1 ≤ t.expiration_tick
      after = elim (dec_lt now t.expiration_tick) [
        | yes p ↦ omega arith
        | no q ↦ absurd (other (ap (λ k. k % n) (omega (arith, q)) ∙ at))
      ]

  -- Every timer is in the slot of its tick, and none that is stored is due already.
  pub record IsWheel (w : TimerWheel K) : Type 0 where
    pub resolution : 0 < w.tick_resolution
    pub slots_there : 0 < w.slot_count
    pub slots_all : length w.slots ≡ w.slot_count
    pub placed : (i : ℕ) → All (Placed w.slot_count (w.current_tick + 1) i) (get_or w.slots i [])

  -- A timer put in its slot.
  pub push-IsWheel :
      {w : TimerWheel K} (t : Timer K)
      → IsWheel w
      → w.current_tick < t.expiration_tick
      → IsWheel (record w { slots = push_to_slot w (t.expiration_tick % w.slot_count) t })
  unfolding push_to_slot All
  push-IsWheel {w} t v later = record {
    resolution = v.resolution;
    slots_there = v.slots_there;
    slots_all = length-set w.slots i _ ∙ v.slots_all;
    placed = λ j. there j;
  }
    where
      i : ℕ
      i = t.expiration_tick % w.slot_count

      pushed : List (Timer K)
      pushed = get_or w.slots i [] ++ t ∷ []

      inside : i < length w.slots
      inside = omega (arith, v.slots_all, mod-lt t.expiration_tick v.slots_there)

      here : get_or (set w.slots i pushed) i [] ≡ pushed
      here =
          get_or-set w.slots i i pushed [] inside
          ∙ ap (λ b. if b then pushed else get_or w.slots i []) (==_self i)

      there :
          (j : ℕ)
          → All (Placed w.slot_count (w.current_tick + 1) j) (get_or (set w.slots i pushed) j [])
      there j = elim (Bool-cases (i == j)) [
        | inl s ↦
            subst
              (λ k.
                All (Placed w.slot_count (w.current_tick + 1) k)
                  (get_or (set w.slots i pushed) k []))
              ((==_iff i j).0 s)
              (subst (All (Placed w.slot_count (w.current_tick + 1) i)) (sym here) (
                All-append _ (get_or w.slots i []) (t ∷ []) (v.placed i) ((refl, omega arith), tt)))
        | inr f ↦
            subst (All (Placed w.slot_count (w.current_tick + 1) j))
              (sym (
                get_or-set w.slots i j pushed [] inside
                ∙ ap (λ b. if b then pushed else get_or w.slots j []) f))
              (v.placed j)
      ]

  -- If every timer stands in the slot of its tick and expires later than now, and the delay does
  -- not wrap the tick counter, then this holds with the new timer among them.
  pub add_timer-IsWheel :
      {w : TimerWheel K} (delay : ℕ) (callback : K)
      → IsWheel w
      → w.current_tick + delay + w.tick_resolution < 2 ^ 64
      → IsWheel (add_timer w delay callback).1
  unfolding add_timer
  add_timer-IsWheel {w} delay callback v h = record {
    resolution = v.resolution;
    slots_there = v.slots_there;
    slots_all = pushed.slots_all;
    placed = pushed.placed;
  }
    where
      n : ℕ
      n = duration_to_ticks w.tick_resolution delay

      t : Timer K
      t = record {
        id = w.next_id;
        expiration_tick = add64 w.current_tick (if n == 0 then 1 else n);
        callback = callback;
      }

      later : w.current_tick < t.expiration_tick
      later = ground (
        arith,
        duration_to_ticks_lem w.tick_resolution delay v.resolution (omega (arith, h)),
        h,
        v.resolution,
      )

      pushed : IsWheel (record w { slots = push_to_slot w (t.expiration_tick % w.slot_count) t })
      pushed = push-IsWheel t v later
