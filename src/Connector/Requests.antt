-- ===== src/Connector/Requests.antt =====
-- The table of pending requests: `sendAsync`, `startAttempt_`, `onTimeout_` and `onComplete_`. All
-- calls are on the owner worker. A connector is there or not. What it does with a request, and the timers,
-- come back as later calls.
pub mod Once
pub mod Stale
use network_engine_portfolio.Prelude.{
  ℕ, ◌+◌, ◌≡◌, Bool, true, false, not, ◌&&◌, Option, none, some, List, [], ◌∷◌, ◌++◌, ◌==◌,
  if◌then◌else◌, add64,
}
use network_engine_portfolio.Map.{Map, find, put, emplace, erase_key, contains, same_id}

pub record SendOptions : Type 0 where
  pub timeout_ms : ℕ
  pub retry_once : Bool

pub record Response : Type 0 where
  pub ok : Bool
  pub payload : List ℕ

-- `Response::fail`
abbrev pub fail : Response
fail = record { ok = false; payload = [] }

-- A callback is a name, `none` an empty one; a connector's name is a number.
pub record Pending : Type 0 where
  pub connector_name : ℕ
  pub opt : SendOptions
  pub request : List ℕ
  pub cb : Option ℕ
  pub attempt : ℕ
  pub timeout_resolved : ℕ

-- What the manager does: a timer for an attempt, a request handed to a connector, a callback.
pub data Act : Type 0 where
  timer : (delay id attempt : ℕ) → Act
  send : (connector id attempt : ℕ) → List ℕ → Act
  call_back : ℕ → Response → Act

pub record Requests : Type 0 where
  pub connectors : List ℕ
  pub pending : Map ℕ Pending
  pub next_request_id : ℕ
  pub default_timeout : ℕ
  pub acts : List Act

abbrev pub does : Requests → Act → Requests
does m a = record m { acts = m.acts ++ a ∷ [] }

-- `add` of a connector: `none` is a null pointer, and 0 stands for an empty name.
unfoldable pub add_connector : Requests → Option ℕ → Bool × Requests
add_connector m none = (false, m)
add_connector m (some name) =
    if name == 0
    then (false, m)
    else if contains same_id m.connectors name
    then (false, m)
    else (true, record m { connectors = name ∷ m.connectors })

unfoldable pub resolve_timeout : Requests → SendOptions → ℕ
resolve_timeout m opt = if opt.timeout_ms == 0 then m.default_timeout else opt.timeout_ms

unfoldable pub run_callback : Requests → Option ℕ → Response → Requests
run_callback m none r = m
run_callback m (some cb) r = does m (call_back cb r)

unfoldable pub on_complete : Requests → ℕ → ℕ → Response → Requests
on_complete m id attempt r = elim (find same_id m.pending id) [
  | none ↦ m
  | some p ↦
      let m' : Requests = record m { pending = erase_key same_id m.pending id } in
      if not (attempt == p.attempt) then m' else run_callback m' p.cb r
]

unfoldable pub start_attempt : Requests → ℕ → Requests
start_attempt m id = elim (find same_id m.pending id) [
  | none ↦ m
  | some p ↦
      if contains same_id m.connectors p.connector_name
      then does (does m (timer p.timeout_resolved id p.attempt))
          (send p.connector_name id p.attempt p.request)
      else on_complete m id p.attempt fail
]

unfoldable pub on_timeout : Requests → ℕ → ℕ → Requests
on_timeout m id expected_attempt = elim (find same_id m.pending id) [
  | none ↦ m
  | some p ↦
      if not (p.attempt == expected_attempt)
      then m
      else if p.opt.retry_once && (p.attempt == 0)
      then start_attempt
          (record m { pending = put same_id m.pending id (record p { attempt = 1 }) }) id
      else on_complete m id p.attempt fail
]

unfoldable pub send_async : Requests → ℕ → SendOptions → List ℕ → Option ℕ → Requests
send_async m name opt request cb =
    let id = m.next_request_id in
    let p : Pending = record {
      connector_name = name;
      opt = opt;
      request = request;
      cb = cb;
      attempt = 0;
      timeout_resolved = resolve_timeout m opt;
    } in
    if not (contains same_id m.connectors name)
    then run_callback m cb fail
    else start_attempt
        (record m { next_request_id = add64 id 1; pending = emplace same_id m.pending id p }) id

-- What reaches the manager, in some order.
pub data Event : Type 0 where
  sends : (name : ℕ) → SendOptions → List ℕ → Option ℕ → Event
  completes : (id attempt : ℕ) → Response → Event
  times_out : (id attempt : ℕ) → Event

unfoldable pub handle : Requests → Event → Requests
handle m (sends name opt request cb) = send_async m name opt request cb
handle m (completes id attempt r) = on_complete m id attempt r
handle m (times_out id attempt) = on_timeout m id attempt

unfoldable pub handle_all : Requests → List Event → Requests
handle_all m [] = m
handle_all m (e ∷ es) = handle_all (handle m e) es
