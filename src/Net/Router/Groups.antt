-- ===== src/Net/Router/Groups.antt =====
-- What the groups of a broadcast reach.
use network_engine_portfolio.Prelude.{
  ℕ, zero, suc, ◌+◌, ◌<◌, ◌≡◌, refl, ap, sym, ◌∙◌, Bool, true, false, ◌||◌, Option, none, some,
  List, [], ◌∷◌, ◌++◌, ◌==◌, ltb, ltb→lt, if◌then◌else◌, length, get_or, set, subst, arith,
  Bool-cases, Option-cases, inl, inr, length-set, ==_iff, append_assoc, append-nil,
}
use network_engine_portfolio.Core.Timer.Slots.{get_or-set}
use network_engine_portfolio.App.Broadcaster.{is_here}
use network_engine_portfolio.Net.Router.{
  Target, RoutedPacket, Delivery, owner_of, add_to_group, group, send_groups,
}

-- The targets that deliveries reach on a worker.
unfoldable pub reached_on : ℕ → List Delivery → List Target
reached_on worker [] = []
reached_on worker (d ∷ ds) = (if d.worker == worker then d.targets else []) ++ reached_on worker ds

abbrev pub is_owner : Option ℕ → ℕ → Bool
is_owner none worker = false
is_owner (some owner) worker = owner == worker

module _ (cw : Option ℕ) (loops : List Bool) (answer : Target → RoutedPacket → Bool) where
  abbrev pub reaches : ℕ → Bool
  reaches worker = is_here cw worker || get_or loops worker false

  abbrev pub when : {A : Type 0} → Bool → List A → List A
  when b xs = if b then xs else []

  -- The targets whose worker is the given one.
  unfoldable pub owned : ℕ → List Target → List Target
  owned worker [] = []
  owned worker (t ∷ targets) =
      when (is_owner (owner_of (length loops) t) worker) (t ∷ []) ++ owned worker targets

  before :
      (owner worker : ℕ) (groups : List (List Target)) (packet : RoutedPacket)
      → worker < owner
      → reached_on worker (send_groups cw loops answer owner groups packet) ≡ []
  unfolding reached_on send_groups
  before owner worker [] packet h = refl
  before owner worker ([] ∷ groups) packet h =
      before (owner + 1) worker groups packet (omega (arith, h))
  before owner worker ((t ∷ ts) ∷ groups) packet h =
      let other : (owner == worker) ≡ false = ground arith in
      let rest = before (owner + 1) worker groups packet (omega (arith, h)) in
      elim (Bool-cases (is_here cw owner)) [
        | inl a ↦ rw (a, other) rest
        | inr a ↦ elim (Bool-cases (get_or loops owner false)) [
          | inl b ↦ rw (a, b, other) rest
          | inr b ↦ rw (a, b) rest
        ]
      ]

  -- A group that stands at the front.
  front :
      (owner : ℕ) (g : List Target) (groups : List (List Target)) (packet : RoutedPacket)
      → reached_on owner (send_groups cw loops answer owner (g ∷ groups) packet)
        ≡ when (reaches owner) g
  unfolding reached_on send_groups
  front owner [] groups packet =
      before (owner + 1) owner groups packet (omega arith) ∙ same (reaches owner)
    where
      same : (b : Bool) → [] ≡ when {A = Target} b []
      same true = refl
      same false = refl
  front owner (t ∷ ts) groups packet =
      let here : (owner == owner) ≡ true = ground arith in
      let rest = before (owner + 1) owner groups packet (omega arith) in
      elim (Bool-cases (is_here cw owner)) [
        | inl a ↦ rw (a, here, rest) (append-nil (t ∷ ts))
        | inr a ↦ elim (Bool-cases (get_or loops owner false)) [
          | inl b ↦ rw (a, b, here, rest) (append-nil (t ∷ ts))
          | inr b ↦ rw (a, b) rest
        ]
      ]

  behind :
      (owner worker : ℕ) (g : List Target) (groups : List (List Target)) (packet : RoutedPacket)
      → (owner == worker) ≡ false
      → reached_on worker (send_groups cw loops answer owner (g ∷ groups) packet)
        ≡ reached_on worker (send_groups cw loops answer (owner + 1) groups packet)
  unfolding reached_on send_groups
  behind owner worker [] groups packet other = refl
  behind owner worker (t ∷ ts) groups packet other = elim (Bool-cases (is_here cw owner)) [
    | inl a ↦ rw (a, other) refl
    | inr a ↦ elim (Bool-cases (get_or loops owner false)) [
      | inl b ↦ rw (a, b, other) refl
      | inr b ↦ rw (a, b) refl
    ]
  ]

  pub when_nil : (b : Bool) → [] ≡ when {A = Target} b []
  when_nil true = refl
  when_nil false = refl

  pub when_append : (b : Bool) (xs ys : List Target) → when b (xs ++ ys) ≡ when b xs ++ when b ys
  when_append true xs ys = refl
  when_append false xs ys = refl

  pub reached-send_groups :
      (owner i : ℕ) (groups : List (List Target)) (packet : RoutedPacket)
      → reached_on (owner + i) (send_groups cw loops answer owner groups packet)
        ≡ when (reaches (owner + i)) (get_or groups i [])
  unfolding reached_on send_groups
  reached-send_groups owner i [] packet = when_nil (reaches (owner + i))
  reached-send_groups owner zero (g ∷ groups) packet =
      ap (λ (w : ℕ). reached_on w (send_groups cw loops answer owner (g ∷ groups) packet))
        (omega arith)
      ∙ front owner g groups packet
      ∙ ap (λ (w : ℕ). when (reaches w) g) (omega arith)
  reached-send_groups owner (suc i) (g ∷ groups) packet =
      let other : (owner == (owner + suc i)) ≡ false = ground arith in
      behind owner (owner + suc i) g groups packet other
      ∙ ap (λ (w : ℕ). reached_on w (send_groups cw loops answer (owner + 1) groups packet))
          (omega arith)
      ∙ reached-send_groups (owner + 1) i groups packet
      ∙ ap (λ (w : ℕ). when (reaches w) (get_or groups i [])) (omega arith)

  known : (t : Target) (owner : ℕ) → owner_of (length loops) t ≡ some owner → owner < length loops
  unfolding owner_of
  known t owner e = elim (Bool-cases (t.id == 0)) [
    | inl a ↦ absurd (none_some (rw a refl ∙ e))
    | inr a ↦ elim (Option-cases t.owner_worker_id) [
      | inl b ↦ absurd (none_some (rw (owner_of, a, b) refl ∙ e))
      | inr (o, b) ↦ elim (Bool-cases (ltb o (length loops))) [
        | inl c ↦
            let same : some o ≡ some owner = rw (owner_of, a, b, c) refl ∙ e in
            let eq : o ≡ owner = cc in
            ltb→lt owner (length loops) (subst (λ w. ltb w (length loops) ≡ true) eq c)
        | inr c ↦ absurd (none_some (rw (owner_of, a, b, c) refl ∙ e))
      ]
    ]
  ]
    where
      none_some : none ≡ some owner → ⊥
      none_some h = absurd cc

  pub grouped :
      (worker : ℕ) (groups : List (List Target)) (targets : List Target)
      → length groups ≡ length loops
      → get_or (group cw loops answer groups targets) worker []
        ≡ get_or groups worker [] ++ owned worker targets
  unfolding group add_to_group owned
  grouped worker groups [] h = sym (append-nil (get_or groups worker []))
  grouped worker groups (t ∷ targets) h = elim (Option-cases (owner_of (length loops) t)) [
    | inl e ↦ rw e (grouped worker groups targets h)
    | inr (owner, e) ↦
        let next : List (List Target) = set groups owner (get_or groups owner [] ++ t ∷ []) in
        rw e (
          grouped worker next targets (length-set groups owner _ ∙ h)
          ∙ ap (λ l. l ++ owned worker targets)
              (get_or-set groups owner worker (get_or groups owner [] ++ t ∷ []) []
                  (omega (arith, known t owner e, h))
                ∙ one (owner == worker) owner refl)
          ∙ append_assoc (get_or groups worker []) (when (owner == worker) (t ∷ []))
              (owned worker targets))
  ]
    where
      one :
          (b : Bool) (owner : ℕ)
          → (owner == worker) ≡ b
          → (if b then get_or groups owner [] ++ t ∷ [] else get_or groups worker [])
            ≡ get_or groups worker [] ++ when b (t ∷ [])
      one true owner e = ap (λ (w : ℕ). get_or groups w [] ++ t ∷ []) ((==_iff owner worker).0 e)
      one false owner e = sym (append-nil (get_or groups worker []))
