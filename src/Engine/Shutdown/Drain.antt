-- ===== src/Engine/Shutdown/Drain.antt =====
-- The drain of the sessions before the workers are stopped.
use network_engine_portfolio.Prelude.{
  ℕ, zero, suc, ◌+◌, ◌≤◌, ◌<◌, ◌≡◌, refl, sym, ap₂, ◌∙◌, subst, ◌⊎◌, inl, inr, Bool, true, false,
  List, [], ◌∷◌, map, ◌==◌, leb, Bool-cases, arith, ==_iff,
}
use network_engine_portfolio.Engine.Outcome.{done}
use network_engine_portfolio.Engine.Worker.{
  SessionCalls, Worker, Thread, looping, request_stop_accepting, request_close_all,
}
use network_engine_portfolio.Engine.Worker.Frame.{
  frame, request_stop_accepting-frame, request_close_all-frame, query-frame,
}
use network_engine_portfolio.Engine.Shutdown.{Surroundings, query_all, drain_sessions, force_close}

abbrev pub AllUp : List (Bool × Bool × Thread × Bool) → Type 0
AllUp [] = Unit
AllUp (p ∷ ps) = (p ≡ (true, true, looping, true)) × AllUp ps

abbrev pub AllServing : {S : Type 0} → List (Worker S) → Type 0
AllServing ws = AllUp (map frame ws)

module _ {S : Type 0} where
  map-frame :
      (f : Worker S → Worker S)
      → ((w : Worker S) → frame (f w) ≡ frame w)
      → (ws : List (Worker S)) → map frame (map f ws) ≡ map frame ws
  map-frame f same [] = refl
  map-frame f same (w ∷ ws) = ap₂ (λ p ps. p ∷ ps) (same w) (map-frame f same ws)

  pub kept :
      (ws ws' : List (Worker S)) → map frame ws' ≡ map frame ws → AllServing ws → AllServing ws'
  kept ws ws' e up = subst AllUp (sym e) up

module _ {S : Type 0} (calls : SessionCalls S) (env : Surroundings S) where
  query_all-frame :
      (poll : ℕ) (ws : List (Worker S)) → map frame (query_all calls env poll ws).1 ≡ map frame ws
  unfolding query_all
  query_all-frame poll [] = refl
  query_all-frame poll (w ∷ ws) =
      ap₂ (λ p ps. p ∷ ps) (query-frame calls (env.polls poll w.id) w) (query_all-frame poll ws)

  pub stop_accepting-frame :
      (ws : List (Worker S)) → map frame (map (request_stop_accepting false) ws) ≡ map frame ws
  stop_accepting-frame ws = map-frame (request_stop_accepting false) request_stop_accepting-frame ws

  pub force_close-frame :
      (left : ℕ × List (Worker S)) → map frame (force_close calls env left) ≡ map frame left.1
  unfolding force_close
  force_close-frame (n, ws) = elim (Bool-cases (n == 0)) [
    | inl t ↦ rw t refl
    | inr f ↦ rw f (map-frame (request_close_all calls false) (request_close_all-frame calls) ws)
  ]

  module _ (timeout : ℕ) (moves : (i : ℕ) → env.begin + i ≤ env.clock i) where
    -- What a drain comes to: how many sessions are left, and the workers.
    pub record Drained (fuel poll : ℕ) (ws : List (Worker S)) : Type 0 where
      pub left : ℕ × List (Worker S)
      pub last : ℕ
      pub returns : drain_sessions calls env fuel (env.begin + timeout) poll ws ≡ done left
      pub ended : (left.0 ≡ 0) ⊎ (env.begin + timeout ≤ env.clock last)
      pub same : map frame left.1 ≡ map frame ws

    -- The drain asks until no session is left or the time is over, and ends if the clock moves by
    -- one at least with each poll and the fuel is more than the time that the drain has.
    pub drain_sessions-Drained :
        (fuel poll : ℕ) (ws : List (Worker S))
        → timeout < poll + fuel
        → poll ≤ timeout
        → Drained fuel poll ws
    unfolding drain_sessions
    drain_sessions-Drained zero poll ws enough early = absurd (omega arith)
    drain_sessions-Drained (suc fuel) poll ws enough early =
        let asked : ℕ × List (Worker S) = query_all calls env poll ws in
        elim (Bool-cases (asked.0 == 0)) [
          | inl t ↦ record {
            left = asked;
            last = poll;
            returns = rw t refl;
            ended = inl ((==_iff asked.0 0).0 t);
            same = query_all-frame poll ws;
          }
          | inr f ↦ elim (Bool-cases (leb (env.begin + timeout) (env.clock poll))) [
            | inl t ↦ record {
              left = asked;
              last = poll;
              returns = rw (f, t) refl;
              ended = inr (ground arith);
              same = query_all-frame poll ws;
            }
            | inr g ↦
                let still : env.clock poll < env.begin + timeout = ground arith in
                let next =
                  drain_sessions-Drained fuel (suc poll) asked.1 (omega (arith, enough))
                    (omega (arith, still, moves poll)) in
                record {
                  left = next.left;
                  last = next.last;
                  returns = rw (f, g) next.returns;
                  ended = next.ended;
                  same = next.same ∙ query_all-frame poll ws;
                }
          ]
        ]
