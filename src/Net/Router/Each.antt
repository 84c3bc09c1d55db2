-- ===== src/Net/Router/Each.antt =====
-- A broadcast and one send for each target.
use network_engine_portfolio.Prelude.{
  ℕ, zero, suc, ◌≡◌, refl, ap, ap₂, sym, ◌∙◌, Bool, true, false, Option, some, List, [], ◌∷◌, ◌++◌,
  ◌==◌, if◌then◌else◌, length, get_or, replicate, arith, Bool-cases, Option-cases, inl, inr,
  length-replicate, ==_iff, append_assoc,
}
use network_engine_portfolio.App.Broadcaster.{is_here}
use network_engine_portfolio.Net.Router.Groups.{
  reached_on, is_owner, reaches, when, owned, when_nil, when_append, reached-send_groups, grouped,
}
use network_engine_portfolio.Net.Router.{
  Target, RoutedPacket, Delivery, owner_of, send_to_owner, send, group, send_groups, broadcast,
}

module _ (cw : Option ℕ) (loops : List Bool) (answer : Target → RoutedPacket → Bool) where
  -- One send after the other.
  unfoldable pub send_each : List Target → RoutedPacket → List Delivery
  send_each [] packet = []
  send_each (t ∷ targets) packet = (send cw loops answer t packet).1 ++ send_each targets packet

  reached_append :
      (worker : ℕ) (xs ys : List Delivery)
      → reached_on worker (xs ++ ys) ≡ reached_on worker xs ++ reached_on worker ys
  unfolding reached_on
  reached_append worker [] ys = refl
  reached_append worker (d ∷ xs) ys =
      ap (λ l. (if d.worker == worker then d.targets else []) ++ l) (reached_append worker xs ys)
      ∙ sym (
          append_assoc (if d.worker == worker then d.targets else []) (reached_on worker xs)
            (reached_on worker ys))

  -- What one send reaches.
  reached-send :
      (worker : ℕ) (t : Target) (packet : RoutedPacket)
      → reached_on worker (send cw loops answer t packet).1
        ≡ when cw loops answer
            (reaches cw loops answer worker)
            (when cw loops answer (is_owner (owner_of (length loops) t) worker) (t ∷ []))
  unfolding reached_on send send_to_owner
  reached-send worker t packet = elim (Option-cases (owner_of (length loops) t)) [
    | inl e ↦ rw e (when_nil cw loops answer (reaches cw loops answer worker))
    | inr (owner, e) ↦ rw e (sent owner (owner == worker) refl)
  ]
    where
      sent :
          (owner : ℕ) (b : Bool)
          → (owner == worker) ≡ b
          → reached_on worker (send_to_owner cw loops answer (some owner) t packet).1
            ≡ when cw loops answer
                (reaches cw loops answer worker)
                (when cw loops answer (owner == worker) (t ∷ []))
      sent owner true e =
          let same : owner ≡ worker = (==_iff owner worker).0 e in
          rw (sym same) (elim (Bool-cases (is_here cw owner)) [
            | inl a ↦ let self : (owner == owner) ≡ true = ground arith in rw (a, self) refl
            | inr a ↦ elim (Bool-cases (get_or loops owner false)) [
              | inl b ↦ let self : (owner == owner) ≡ true = ground arith in rw (a, b, self) refl
              | inr b ↦ rw (a, b) refl
            ]
          ])
      sent owner false e = elim (Bool-cases (is_here cw owner)) [
        | inl a ↦ rw (a, e) (when_nil cw loops answer (reaches cw loops answer worker))
        | inr a ↦ elim (Bool-cases (get_or loops owner false)) [
          | inl b ↦ rw (a, b, e) (when_nil cw loops answer (reaches cw loops answer worker))
          | inr b ↦ rw (a, b, e) (when_nil cw loops answer (reaches cw loops answer worker))
        ]
      ]

  reached-send_each :
      (worker : ℕ) (targets : List Target) (packet : RoutedPacket)
      → reached_on worker (send_each targets packet)
        ≡ when cw loops answer
            (reaches cw loops answer worker)
            (owned cw loops answer worker targets)
  unfolding send_each owned reached_on
  reached-send_each worker [] packet = when_nil cw loops answer (reaches cw loops answer worker)
  reached-send_each worker (t ∷ targets) packet =
      let mine : List Target =
        when cw loops answer (is_owner (owner_of (length loops) t) worker) (t ∷ []) in
      reached_append worker (send cw loops answer t packet).1 (send_each targets packet)
      ∙ ap₂ ◌++◌ (reached-send worker t packet) (reached-send_each worker targets packet)
      ∙ sym (
          when_append cw loops answer (reaches cw loops answer worker) mine
            (owned cw loops answer worker targets))

  -- On every worker a broadcast reaches the sessions that one send for each of the targets does,
  -- in the same order.
  pub reached-broadcast :
      (worker : ℕ) (targets : List Target) (packet : RoutedPacket)
      → reached_on worker (broadcast cw loops answer targets packet)
        ≡ reached_on worker (send_each targets packet)
  unfolding broadcast send_each reached_on
  reached-broadcast worker [] packet = refl
  reached-broadcast worker (t ∷ targets) packet =
      let groups : List (List Target) =
        group cw loops answer (replicate (length loops) []) (t ∷ targets) in
      ap (λ (w : ℕ). reached_on w (send_groups cw loops answer 0 groups packet)) (omega arith)
      ∙ reached-send_groups cw loops answer 0 worker groups packet
      ∙ ap₂ (λ (w : ℕ) (l : List Target). when cw loops answer (reaches cw loops answer w) l)
          (omega arith)
          (grouped cw loops answer worker (replicate (length loops) []) (t ∷ targets)
              (length-replicate (length loops) [])
            ∙ ap (λ l. l ++ owned cw loops answer worker (t ∷ targets))
                (empty_group (length loops) worker))
      ∙ sym (reached-send_each worker (t ∷ targets) packet)
    where
      empty_group : (n i : ℕ) → Path (List Target) (get_or (replicate n []) i []) []
      empty_group zero i = refl
      empty_group (suc n) zero = refl
      empty_group (suc n) (suc i) = empty_group n i
