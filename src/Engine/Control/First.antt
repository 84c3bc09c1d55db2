-- ===== src/Engine/Control/First.antt =====
-- Which request stops the engine.
use network_engine_portfolio.Prelude.{
  ℕ, ◌≡◌, refl, ap, ◌∙◌, Bool, true, false, not, Option, none, some, List, [], ◌∷◌, if◌then◌else◌,
}
use network_engine_portfolio.Engine.Outcome.{Outcome, done, waits}
use network_engine_portfolio.Engine.Control.{
  Engine, StopSource, no_source, api, signal, is_unset, stopping, request_stop, stop_engine, Wake,
  failed, woken, stop_called, signalled, wait_loop, wait_for_stop,
}

-- The first request among what ends the waits of the main thread.
unfoldable pub first_stop : List Wake → Option (StopSource × ℕ)
first_stop [] = none
first_stop (failed ∷ wakes) = first_stop wakes
first_stop (woken ∷ wakes) = first_stop wakes
first_stop (stop_called ∷ wakes) = some (api, 0)
first_stop (signalled signo ∷ wakes) = some (signal, signo)

abbrev pub is_source : StopSource → Bool
is_source src = not (is_unset src)

module _ {S : Type 0} where
  -- An engine that runs and has not been asked to stop.
  abbrev pub running_engine : Engine S → Engine S
  running_engine e = record e { is_running = true; stop_source = no_source; main_tid_ready = true }

  abbrev pub stopped_by : Option (StopSource × ℕ) → Engine S → Outcome (Engine S)
  stopped_by none e = waits
  stopped_by (some (src, signo)) e = done (request_stop src signo e)

  wait_loop-first :
      (wakes : List Wake) (e : Engine S)
      → wait_loop wakes (running_engine e) ≡ stopped_by (first_stop wakes) (running_engine e)
  unfolding wait_loop first_stop stop_engine request_stop
  wait_loop-first [] e = refl
  wait_loop-first (failed ∷ wakes) e = wait_loop-first wakes e
  wait_loop-first (woken ∷ wakes) e = wait_loop-first wakes e
  wait_loop-first (stop_called ∷ wakes) e = refl
  wait_loop-first (signalled signo ∷ wakes) e = refl

  -- The main thread of an engine that runs goes on at the first request to stop, whatever wakes it
  -- before, with the state that this request gives; without a request it waits for ever.
  pub wait_for_stop-first :
      (wakes : List Wake) (e : Engine S)
      → wait_for_stop wakes (running_engine e) ≡ stopped_by (first_stop wakes) (running_engine e)
  unfolding wait_for_stop
  wait_for_stop-first wakes e = wait_loop-first wakes e

  -- All requests to stop, in their order.
  unfoldable pub request_all : List (StopSource × ℕ) → Engine S → Engine S
  request_all [] e = e
  request_all ((src, signo) ∷ rest) e = request_all rest (request_stop src signo e)

  ignored :
      (requests : List (StopSource × ℕ)) (e : Engine S)
      → is_unset e.stop_source ≡ false
      → request_all requests e ≡ e
  unfolding request_all request_stop
  ignored [] e set = refl
  ignored ((src, signo) ∷ rest) e set =
      let same : request_stop src signo e ≡ e =
        ap
          (λ b. if not b then e else record e {
            stop_source = src;
            stop_signal = signo;
            state = stopping;
            is_running = false;
            metrics_server = elim e.metrics_server [ none ↦ none | some _ ↦ some true ];
          })
          set in
      ap (request_all rest) same ∙ ignored rest e set

  -- Of the requests to stop that reach an engine before it runs again, whatever their number and
  -- their sources, the first decides and the others change nothing.
  pub request_all-first :
      (src : StopSource) (signo : ℕ) (rest : List (StopSource × ℕ)) (e : Engine S)
      → is_source src ≡ true
      → request_all ((src, signo) ∷ rest) (running_engine e)
        ≡ request_stop src signo (running_engine e)
  unfolding request_all request_stop
  request_all-first no_source signo rest e asked = absurd cc
  request_all-first api signo rest e asked = ignored rest _ refl
  request_all-first signal signo rest e asked = ignored rest _ refl
