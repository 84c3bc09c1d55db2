-- ===== src/Monitoring/Http/SendAll.antt =====
-- What the loop around `send` puts on the wire.
use network_engine_portfolio.Prelude.{
  ℕ, ◌≡◌, refl, ap, sym, ◌∙◌, Bool, true, false, some, List, [], ◌∷◌, ◌++◌, ◌==◌, length, take,
  drop, append-nil, append_assoc, take-append-drop, Bool-cases, inl, inr, if◌then◌else◌, arith,
  length-drop, ◌+◌, ◌≤◌,
}
use network_engine_portfolio.Net.Session.Send.{SendAnswer, sent, interrupted, would_block, failed}
use network_engine_portfolio.Monitoring.Http.{send_all}

-- Answers with which a loop goes on.
unfoldable pub goes_on : SendAnswer → Bool
goes_on (sent n) = if n == 0 then false else true
goes_on interrupted = true
goes_on would_block = true
goes_on (failed errno) = false

unfoldable pub progress : List SendAnswer → ℕ
progress [] = 0
progress (sent n ∷ answers) = n + progress answers
progress (interrupted ∷ answers) = progress answers
progress (would_block ∷ answers) = progress answers
progress (failed errno ∷ answers) = progress answers

unfoldable pub all_go_on : List SendAnswer → Bool
all_go_on [] = true
all_go_on (a ∷ answers) = if goes_on a then all_go_on answers else false

-- If no answer is an error and together they take as many bytes as there are, then the loop ends
-- with all bytes on the wire, in their order, however they are cut and however often the call has
-- to be repeated.
pub send_all-whole :
    (answers : List SendAnswer) (bytes wire : List ℕ)
    → all_go_on answers ≡ true
    → length bytes ≤ progress answers
    → send_all answers bytes wire ≡ some (true, wire ++ bytes)
unfolding send_all all_go_on goes_on progress
send_all-whole answers [] wire ok enough =
    ap (λ (l : List ℕ). some (true, l)) (sym (append-nil wire))
send_all-whole [] (b ∷ bytes) wire ok enough = absurd (omega arith)
send_all-whole (sent n ∷ answers) (b ∷ bytes) wire ok enough = elim (Bool-cases (n == 0)) [
  | inl t ↦ absurd (false_true (sym (rw (all_go_on, goes_on, t) refl) ∙ ok))
  | inr f ↦
      let rest : List ℕ = drop n (b ∷ bytes) in
      rw f (
        send_all-whole answers rest (wire ++ take n (b ∷ bytes))
          (sym (rw (all_go_on, goes_on, f) refl) ∙ ok)
          (omega (arith, length-drop n (b ∷ bytes), enough))
        ∙ ap (λ (l : List ℕ). some (true, l))
            (append_assoc wire (take n (b ∷ bytes)) rest
              ∙ ap (λ (l : List ℕ). wire ++ l) (take-append-drop n (b ∷ bytes))))
]
  where
    false_true : false ≡ true → ⊥
    false_true e = absurd cc
send_all-whole (interrupted ∷ answers) (b ∷ bytes) wire ok enough =
    send_all-whole answers (b ∷ bytes) wire ok enough
send_all-whole (would_block ∷ answers) (b ∷ bytes) wire ok enough =
    send_all-whole answers (b ∷ bytes) wire ok enough
send_all-whole (failed errno ∷ answers) (b ∷ bytes) wire ok enough = absurd cc
