-- ===== src/Core/Timer/Fire.antt =====
-- What a tick does to the wheel.
use network_engine_portfolio.Prelude.{
  ℕ, ◌+◌, ◌%◌, ◌^◌, ◌≤◌, ◌<◌, ◌≡◌, refl, ap, sym, subst, ◌∙◌, inl, inr, List, [], ◌∷◌, ◌==◌, leb,
  get_or, set, length-set, add64, if◌then◌else◌, arith, Bool-cases,
}
use native.Mathlib.Nat.{mod-lt}
use network_engine_portfolio.Core.Timer.{
  Timer, TimerWheel, add_timer, add_timers, handle_timer, handle_timers, process_current_tick, tick,
}
use network_engine_portfolio.Core.Timer.Slots.{
  All, get_or-set, IsWheel, Placed, All-later, push-IsWheel, add_timer-IsWheel,
}

module _ {K : Type 0} where
  -- What a wheel keeps while timers run.
  abbrev SameClock : TimerWheel K → TimerWheel K → Type 0
  SameClock w w' =
      (w'.current_tick ≡ w.current_tick)
      × (w'.tick_resolution ≡ w.tick_resolution)
      × (w'.slot_count ≡ w.slot_count)

  -- The delays of these requests reach no tick that wraps.
  abbrev pub Modest : ℕ → ℕ → ℕ × K → Type 0
  Modest now resolution (delay, callback) = now + delay + resolution < 2 ^ 64

  add_timers-IsWheel :
      (w : TimerWheel K) (requests : List (ℕ × K))
      → IsWheel w
      → All (Modest w.current_tick w.tick_resolution) requests
      → IsWheel (add_timers w requests) × SameClock w (add_timers w requests)
  unfolding add_timers All add_timer
  add_timers-IsWheel w [] v h = (v, (refl, refl, refl))
  add_timers-IsWheel w ((delay, callback) ∷ more) v (h, rest) =
      add_timers-IsWheel (add_timer w delay callback).1 more (add_timer-IsWheel delay callback v h)
        rest

  module _ {A : Type 0} (run : K → A → A × List (ℕ × K)) where
    -- A due timer is one that expires now.
    abbrev Bucket : TimerWheel K → Timer K → Type 0
    Bucket w t =
        (t.expiration_tick % w.slot_count ≡ w.current_tick % w.slot_count)
        × (w.current_tick ≤ t.expiration_tick)

    handle_timer-IsWheel :
        (w : TimerWheel K) (a : A) (t : Timer K)
        → IsWheel w
        → All (Modest w.current_tick w.tick_resolution) (run t.callback a).1
        → IsWheel (handle_timer run (w, a) t).0 × SameClock w (handle_timer run (w, a) t).0
    unfolding handle_timer
    handle_timer-IsWheel w a t v h = elim (Bool-cases (leb t.expiration_tick w.current_tick)) [
      | inl d ↦ rw d (
        record {
          resolution = (asked v).0.resolution;
          slots_there = (asked v).0.slots_there;
          slots_all = (asked v).0.slots_all;
          placed = (asked v).0.placed;
        },
        (asked v).1,
      )
      | inr f ↦ rw f (push-IsWheel t v (ground arith), (refl, refl, refl))
    ]
      where
        asked :
            IsWheel w
            → IsWheel (add_timers w (run t.callback a).1)
              × SameClock w (add_timers w (run t.callback a).1)
        asked u = add_timers-IsWheel w (run t.callback a).1 u h

    module _ (now resolution : ℕ)
        (modest : (k : K) (a : A) → All (Modest now resolution) (run k a).1) where
      handle_timers-IsWheel :
          (w : TimerWheel K) (a : A) (ts : List (Timer K))
          → IsWheel w
          → w.current_tick ≡ now
          → w.tick_resolution ≡ resolution
          → IsWheel (handle_timers run (w, a) ts).0 × SameClock w (handle_timers run (w, a) ts).0
      unfolding handle_timers
      handle_timers-IsWheel w a [] v e g = (v, (refl, refl, refl))
      handle_timers-IsWheel w a (t ∷ ts) v e g =
          let one : IsWheel (handle_timer run (w, a) t).0
              × SameClock w (handle_timer run (w, a) t).0 =
            handle_timer-IsWheel w a t v (rw (e, g) (modest t.callback a)) in
          let rest : IsWheel (handle_timers run (handle_timer run (w, a) t) ts).0
              × SameClock (handle_timer run (w, a) t).0
                  (handle_timers run (handle_timer run (w, a) t) ts).0 =
            handle_timers-IsWheel (handle_timer run (w, a) t).0 (handle_timer run (w, a) t).1 ts
              one.0 (one.1.0 ∙ e) (one.1.1 ∙ g) in
          (rest.0, (rest.1.0 ∙ one.1.0, rest.1.1 ∙ one.1.1, rest.1.2 ∙ one.1.2))

      -- The wheel as `tick` leaves it before the timers of the slot run.
      abbrev emptied : TimerWheel K → TimerWheel K
      emptied w = record w {
        current_tick = w.current_tick + 1;
        slots = set w.slots ((w.current_tick + 1) % w.slot_count) [];
      }

      emptied-IsWheel : (w : TimerWheel K) → IsWheel w → IsWheel (emptied w)
      unfolding All
      emptied-IsWheel w v = record {
        resolution = v.resolution;
        slots_there = v.slots_there;
        slots_all = length-set w.slots _ _ ∙ v.slots_all;
        placed = λ j. there j;
      }
        where
          i : ℕ
          i = (w.current_tick + 1) % w.slot_count

          split :
              (j : ℕ)
              → get_or (set w.slots i []) j [] ≡ (if i == j then [] else get_or w.slots j [])
          split j =
              get_or-set w.slots i j [] []
                (omega (arith, v.slots_all, mod-lt (w.current_tick + 1) v.slots_there))

          there :
              (j : ℕ)
              → All
                  (Placed w.slot_count (w.current_tick + 1 + 1) j)
                  (get_or (set w.slots i []) j [])
          there j = elim (Bool-cases (i == j)) [
            | inl s ↦
                subst (All (Placed w.slot_count (w.current_tick + 1 + 1) j))
                  (sym (split j ∙ ap (λ b. if b then [] else get_or w.slots j []) s)) tt
            | inr f ↦
                subst (All (Placed w.slot_count (w.current_tick + 1 + 1) j))
                  (sym (split j ∙ ap (λ b. if b then [] else get_or w.slots j []) f))
                  (All-later w.slot_count (w.current_tick + 1) j (get_or w.slots j []) f
                    (v.placed j))
          ]

      -- If every timer stands in the slot of its tick and expires later than now, the tick counter
      -- does not wrap, and no callback asks for a delay that would wrap it, then after a tick the
      -- counter is one higher and again every timer stands in the slot of its tick and expires
      -- later than that: whatever the callbacks add, no timer is passed over.
      pub tick-IsWheel :
          (w : TimerWheel K) (a : A)
          → IsWheel w
          → w.current_tick + 1 ≡ now
          → w.tick_resolution ≡ resolution
          → now < 2 ^ 64
          → IsWheel (tick run w a).0 × ((tick run w a).0.current_tick ≡ w.current_tick + 1)
      unfolding tick process_current_tick
      tick-IsWheel w a v e g small =
          let u : add64 w.current_tick 1 ≡ w.current_tick + 1 = omega arith in
          rw u (done.0, done.1.0)
        where
          done :
              IsWheel
                (handle_timers run
                  (emptied w, a)
                  (get_or w.slots ((w.current_tick + 1) % w.slot_count) [])).0
              × SameClock
                  (emptied w)
                  (handle_timers run
                    (emptied w, a)
                    (get_or w.slots ((w.current_tick + 1) % w.slot_count) [])).0
          done = handle_timers-IsWheel (emptied w) a _ (emptied-IsWheel w v) e g
