-- ===== src/Trading/Relay.antt =====
-- A ping that goes to the exchange and back, and who is a worker's exchange.
use network_engine_portfolio.Prelude.{
  ℕ, ◌≡◌, refl, ap, ◌∙◌, Bool, false, Option, none, some, List, [], ◌∷◌, ◌==◌, Bool-cases, inl, inr,
}
use network_engine_portfolio.Trading.{
  get_for_worker, PeerRole, is_exchange, on_role_hello, on_session_end, PerfPacket, forward_ping,
  answer_ping, forward_pong,
}

-- The way of a ping over the connections between the gateway and exchanges: `far_end` is the
-- exchange's session at the other end of a session of the gateway, `near_end` the way back, both
-- `none` for other sessions. A packet that is sent to a session arrives at its other end.
unfoldable pub relay :
    (far_end near_end : ℕ → Option ℕ)
    → List ℕ
    → Bool
    → (wid sid t2 t3 t4 : ℕ) → PerfPacket
    → Option (ℕ × PerfPacket)
relay far_end near_end slots handoff wid sid t2 t3 t4 pkt =
    elim (forward_ping slots handoff wid t2 sid pkt) [
      | none ↦ none
      | some (up, out) ↦ elim (far_end up) [
        | none ↦ none
        | some far ↦
            let answer : ℕ × PerfPacket = answer_ping t3 far out in
            elim (near_end answer.0) [ none ↦ none | some back ↦ forward_pong t4 answer.1 ]
      ]
    ]

-- What comes to the gateway on one worker.
pub data GatewayEvent : Type 0 where
  hello : (sid : ℕ) → PeerRole → GatewayEvent
  ends : (sid : ℕ) → GatewayEvent

unfoldable pub greet_all : List ℕ → ℕ → List GatewayEvent → List ℕ
greet_all slots wid [] = slots
greet_all slots wid (hello sid role ∷ es) = greet_all (on_role_hello slots wid sid role).1 wid es
greet_all slots wid (ends sid ∷ es) = greet_all (on_session_end slots wid sid) wid es

unfoldable pub NotEnded : ℕ → List GatewayEvent → Type 0
NotEnded up [] = Unit
NotEnded up (hello _ _ ∷ es) = NotEnded up es
NotEnded up (ends sid ∷ es) = ((up == sid) ≡ false) × NotEnded up es

greeting-kept :
    (slots : List ℕ) (wid sid : ℕ) (role : PeerRole)
    → (get_for_worker slots wid == 0) ≡ false
    → (on_role_hello slots wid sid role).1 ≡ slots
unfolding on_role_hello
greeting-kept slots wid sid role taken = elim (Bool-cases (is_exchange role)) [
  | inl t ↦ elim (Bool-cases (sid == get_for_worker slots wid)) [
    | inl u ↦ rw (on_role_hello, t, taken, u) refl
    | inr g ↦ rw (on_role_hello, t, taken, g) refl
  ]
  | inr f ↦ elim (Bool-cases (sid == get_for_worker slots wid)) [
    | inl u ↦ rw (on_role_hello, f, taken, u) refl
    | inr g ↦ rw (on_role_hello, f, taken, g) refl
  ]
]

ended-kept :
    (slots : List ℕ) (wid sid : ℕ)
    → (get_for_worker slots wid == sid) ≡ false
    → on_session_end slots wid sid ≡ slots
unfolding on_session_end
ended-kept slots wid sid other = elim (Bool-cases (get_for_worker slots wid == 0)) [
  | inl t ↦ rw (on_session_end, t) refl
  | inr f ↦ rw (on_session_end, f, other) refl
]

-- If a worker of the gateway has an exchange, then no hellos in whatever roles and no ends of
-- other sessions change who it is.
pub greet_all-kept :
    (slots : List ℕ) (wid : ℕ) (es : List GatewayEvent)
    → (get_for_worker slots wid == 0) ≡ false
    → NotEnded (get_for_worker slots wid) es
    → greet_all slots wid es ≡ slots
unfolding greet_all NotEnded
greet_all-kept slots wid [] taken calm = refl
greet_all-kept slots wid (hello sid role ∷ es) taken calm =
    ap (λ s. greet_all s wid es) (greeting-kept slots wid sid role taken)
    ∙ greet_all-kept slots wid es taken calm
greet_all-kept slots wid (ends sid ∷ es) taken calm =
    ap (λ s. greet_all s wid es) (ended-kept slots wid sid calm.0)
    ∙ greet_all-kept slots wid es taken calm.1
