-- ===== src/Tests/Dials.antt =====
-- Outgoing connections at concrete inputs.
use network_engine_portfolio.Prelude.{◌≡◌, ◌≤◌, ◌+◌, refl, true, false, List, [], ◌∷◌, some, none}
use network_engine_portfolio.Map.{find, same_id}
use network_engine_portfolio.Connector.Dials.{
  Dial, DialOptions, Dials, in_progress, refused, fine, dial_timeout, dial_start_attempt,
}
use network_engine_portfolio.Connector.Dials.Calls.{calls, waiting}
use network_engine_portfolio.Connector.Dials.Once.{
  DialEvent, dials, starts, times_out, is_ready, shuts_down, steps, all_begun, steps-owed,
}
use network_engine_portfolio.Connector.Dials.Ends.{Ended, dial-Ended}

abbrev options : DialOptions
options = record { host = 3; port = 80; timeout_ms = 100; retry_once = true; retry_delay_ms = 20 }

abbrev dial : Dial
dial = record {
  opt = options;
  attempt_index = 0;
  registered = true;
  completed = false;
  sock = some 5;
}

-- The dial 1 is under way.
abbrev one_dial : Dials
one_dial = record { dials = (1, dial) ∷ []; next_dial_id = 2; acts = [] }

-- It times out, connects at the second attempt, and its socket is reported twice; another dial
-- is there at the shutdown.
abbrev events : List DialEvent
events =
    times_out 1 0
    ∷ starts (in_progress 6 true) none 1 1
    ∷ is_ready fine (some 9) 1
    ∷ is_ready fine (some 9) 1
    ∷ dials (refused 7) none options true
    ∷ shuts_down
    ∷ []

steps-owed_example :
    calls 1 (steps one_dial events).acts + waiting 1 (steps one_dial events).dials
    ≤ calls 1 one_dial.acts + waiting 1 one_dial.dials + all_begun 1 one_dial events
steps-owed_example = steps-owed 1 one_dial events

found : find same_id one_dial.dials 1 ≡ some dial
unfolding find
found = refl

dial-Ended_example : Ended 1 one_dial (
    dial_timeout (dial_start_attempt (in_progress 6 true) none (dial_timeout one_dial 1 0) 1 1) 1 1)
dial-Ended_example = dial-Ended 1 (in_progress 6 true) none one_dial dial found refl refl
