-- ===== src/Core/Timer/Due.antt =====
-- Which timers a tick runs.
use network_engine_portfolio.Prelude.{
  ℕ, zero, suc, ◌+◌, ◌%◌, ◌^◌, ◌<◌, ◌≡◌, refl, ap, ap₂, sym, subst, ◌∙◌, inl, inr, true, false,
  List, [], ◌∷◌, ◌++◌, ◌-◌, append-nil, ◌==◌, leb, if◌then◌else◌, add64, get_or, set, arith,
  Bool-cases, ==_iff,
}
use network_engine_portfolio.Core.Timer.{
  Timer, TimerWheel, add_timer, add_timers, handle_timer, handle_timers, push_to_slot,
  process_current_tick, tick,
}
use network_engine_portfolio.Core.Timer.Slots.{All, Placed, IsWheel}

-- The timers of a list that expire at a tick.
unfoldable pub due : {K : Type 0} → ℕ → List (Timer K) → List (Timer K)
due now [] = []
due now (t ∷ ts) = (if t.expiration_tick == now then t ∷ [] else []) ++ due now ts

-- All timers of a wheel, slot by slot.
unfoldable pub all_timers : {K : Type 0} → List (List (Timer K)) → List (Timer K)
all_timers [] = []
all_timers (slot ∷ slots) = slot ++ all_timers slots

module _ {K : Type 0} where
  due_append : (now : ℕ) (xs ys : List (Timer K)) → due now (xs ++ ys) ≡ due now xs ++ due now ys
  unfolding due
  due_append now [] ys = refl
  due_append now (t ∷ xs) ys = elim (Bool-cases (t.expiration_tick == now)) [
    | inl e ↦ rw e (ap (λ l. t ∷ l) (due_append now xs ys))
    | inr e ↦ rw e (due_append now xs ys)
  ]

  -- No timer of another slot expires now.
  due-elsewhere :
      (n now i : ℕ) (ts : List (Timer K))
      → All (Placed n now i) ts
      → (now % n == i) ≡ false
      → due now ts ≡ []
  unfolding due All
  due-elsewhere n now i [] p other = refl
  due-elsewhere n now i (t ∷ ts) p other = elim (Bool-cases (t.expiration_tick == now)) [
    | inl e ↦
        let same : t.expiration_tick ≡ now = (==_iff t.expiration_tick now).0 e in
        absurd (clash (now % n) i other (ap (λ (k : ℕ). k % n) (sym same) ∙ p.0.0))
    | inr e ↦ rw e (due-elsewhere n now i ts p.1 other)
  ]
    where
      clash : (a b : ℕ) → (a == b) ≡ false → a ≡ b → ⊥
      clash a b f e = absurd (ground (arith, (==_iff a b).1 e))

  module _ (n now : ℕ) where
    -- From the slot with the index `k` on.
    due-past :
        (k : ℕ) (slots : List (List (Timer K)))
        → ((j : ℕ) → All (Placed n now (k + j)) (get_or slots j []))
        → now % n < k
        → due now (all_timers slots) ≡ []
    unfolding due all_timers
    due-past k [] p h = refl
    due-past k (slot ∷ slots) p h =
        due_append now slot (all_timers slots)
        ∙ ap₂ ◌++◌ (due-elsewhere n now (k + 0) slot (p 0) (ground arith)) (
            due-past (k + 1) slots
              (λ j.
                subst (λ (i : ℕ). All (Placed n now i) (get_or slots j [])) (omega arith)
                  (p (suc j)))
              (omega (arith, h)))

    due-slot :
        (k i : ℕ) (slots : List (List (Timer K)))
        → ((j : ℕ) → All (Placed n now (k + j)) (get_or slots j []))
        → now % n ≡ k + i
        → due now (all_timers slots) ≡ due now (get_or slots i [])
    unfolding due all_timers
    due-slot k i [] p h = refl
    due-slot k zero (slot ∷ slots) p h =
        due_append now slot (all_timers slots)
        ∙ ap (λ l. due now slot ++ l)
            (due-past (k + 1) slots
              (λ j.
                subst (λ (i : ℕ). All (Placed n now i) (get_or slots j [])) (omega arith)
                  (p (suc j)))
              (omega (arith, h)))
        ∙ append-nil (due now slot)
    due-slot k (suc i) (slot ∷ slots) p h =
        due_append now slot (all_timers slots)
        ∙ ap₂ ◌++◌ (due-elsewhere n now (k + 0) slot (p 0) (ground (arith, h))) (
            due-slot (k + 1) i slots
              (λ j.
                subst (λ (i : ℕ). All (Placed n now i) (get_or slots j [])) (omega arith)
                  (p (suc j)))
              (h ∙ omega arith))

  add_timers-tick :
      (w : TimerWheel K) (requests : List (ℕ × K))
      → (add_timers w requests).current_tick ≡ w.current_tick
  unfolding add_timers add_timer
  add_timers-tick w [] = refl
  add_timers-tick w ((delay, callback) ∷ more) = add_timers-tick (add_timer w delay callback).1 more

  module _ {A : Type 0} (run : K → A → A × List (ℕ × K)) where
    -- What callbacks do to the application, one after the other.
    unfoldable pub run_all : List (Timer K) → A → A
    run_all [] a = a
    run_all (t ∷ ts) a = run_all ts (run t.callback a).0

    handle_timers-runs :
        (n now i : ℕ) (w : TimerWheel K) (a : A) (ts : List (Timer K))
        → All (Placed n now i) ts
        → w.current_tick ≡ now
        → (handle_timers run (w, a) ts).1 ≡ run_all (due now ts) a
    unfolding handle_timers handle_timer run_all due All
    handle_timers-runs n now i w a [] p e = refl
    handle_timers-runs n now i w a (t ∷ ts) p e =
        elim (Bool-cases (leb t.expiration_tick w.current_tick)) [
          | inl d ↦
              let today : (t.expiration_tick == now) ≡ true = ground (arith, p.0.1, e) in
              rw (handle_timers, handle_timer, d, due, today)
                (handle_timers-runs n now i
                  (record (add_timers w (run t.callback a).1) {
                    active_timers = (add_timers w (run t.callback a).1).active_timers - 1;
                  })
                  (run t.callback a).0 ts p.1 (add_timers-tick w (run t.callback a).1 ∙ e))
          | inr d ↦
              let later : (t.expiration_tick == now) ≡ false = ground (arith, e) in
              rw (handle_timers, handle_timer, d, due, later)
                (handle_timers-runs n now i
                  (record w { slots = push_to_slot w (t.expiration_tick % w.slot_count) t }) a ts
                  p.1 e)
        ]

    -- If every timer stands in the slot of its tick and expires later than now, and the tick
    -- counter does not wrap, then what a tick does to the application is what the callbacks of all
    -- timers of the wheel that expire at the new tick do, each once and in the order in which they
    -- stand: no timer runs early, and none that is due is left.
    pub tick-runs :
        (w : TimerWheel K) (a : A)
        → IsWheel w
        → w.current_tick + 1 < 2 ^ 64
        → (tick run w a).1 ≡ run_all (due (w.current_tick + 1) (all_timers w.slots)) a
    unfolding tick process_current_tick
    tick-runs w a v small =
        let now : ℕ = w.current_tick + 1 in
        let u : add64 w.current_tick 1 ≡ now = omega arith in
        let i : ℕ = now % w.slot_count in
        rw u (
          handle_timers-runs w.slot_count now i
            (record w { current_tick = now; slots = set w.slots i [] }) a (get_or w.slots i [])
            (v.placed i) refl
          ∙ ap (λ l. run_all l a)
              (sym (
                due-slot w.slot_count now 0 i w.slots
                  (λ j.
                    subst (λ (k : ℕ). All (Placed w.slot_count now k) (get_or w.slots j []))
                      (omega arith) (v.placed j))
                  (omega arith))))
