-- ===== src/Tests/Connector.antt =====
-- The requests to a connector at concrete inputs.
use network_engine_portfolio.Prelude.{◌≡◌, ◌≤◌, ◌+◌, refl, true, List, [], ◌∷◌, some}
use network_engine_portfolio.Connector.Requests.{
  Response, fail, Pending, call_back, Requests, does, on_complete, sends, times_out, completes,
  Event, handle_all,
}
use network_engine_portfolio.Map.{contains, find, same_id}
use network_engine_portfolio.Connector.Requests.Once.{calls, waiting, given, handle_all-owed}
use network_engine_portfolio.Connector.Requests.Stale.{
  answer, late, receive_all, without, retried, stale-lost, unanswered-fails,
}

-- Request 1 to the connector 7, whose second attempt is under way, with the callback 9.
abbrev request : Pending
request = record {
  connector_name = 7;
  opt = record { timeout_ms = 50; retry_once = true };
  request = 1 ∷ [];
  cb = some 9;
  attempt = 1;
  timeout_resolved = 50;
}

abbrev one_request : Pending → Requests
one_request p = record {
  connectors = 7 ∷ [];
  pending = (1, p) ∷ [];
  next_request_id = 2;
  default_timeout = 100;
  acts = [];
}

abbrev ok : Response
ok = record { ok = true; payload = 5 ∷ [] }

abbrev events : List Event
events =
    sends 7 (record { timeout_ms = 0; retry_once = true }) [] (some 9)
    ∷ times_out 1 0
    ∷ completes 1 1 ok
    ∷ completes 2 0 ok
    ∷ completes 2 0 ok
    ∷ []

handle_all-owed_example :
    calls 9 (handle_all (one_request request) events).acts
      + waiting 9 (handle_all (one_request request) events).pending
    ≤ calls 9 (one_request request).acts + waiting 9 (one_request request).pending + given 9 events
handle_all-owed_example = handle_all-owed 9 (one_request request) events

found : find same_id (one_request request).pending 1 ≡ some request
unfolding find
found = refl

stale-lost_example :
    receive_all (on_complete (one_request request) 1 0 ok) 1 (answer 1 ok ∷ late 1 ∷ [])
    ≡ without (one_request request) 1
stale-lost_example =
    stale-lost (one_request request) 1 0 request ok (answer 1 ok ∷ late 1 ∷ []) found refl

abbrev first : Pending
first = record request { attempt = 0 }

found_first : find same_id (one_request first).pending 1 ≡ some first
unfolding find
found_first = refl

known : contains same_id (7 ∷ []) 7 ≡ true
unfolding contains
known = refl

unanswered-fails_example :
    receive_all (one_request first) 1 (late 0 ∷ late 1 ∷ [])
    ≡ does (without (retried (one_request first) 1 first) 1) (call_back 9 fail)
unanswered-fails_example =
    unanswered-fails (one_request first) 1 9 first found_first refl refl known
