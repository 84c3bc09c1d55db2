-- ===== src/Trading.antt =====
-- domains/trading and UpstreamGateway.hpp of runtime/extensions/app: the gateway between clients and
-- an exchange. The session of a worker's exchange is 0 if there is none.
pub mod Relay
use network_engine_portfolio.Prelude.{
  ℕ, ◌%◌, Bool, true, false, not, ◌&&◌, Option, none, some, List, [], ◌∷◌, ◌==◌, if◌then◌else◌,
  length, get_or, set, replicate,
}

-- `reset`
unfoldable pub empty_slots : ℕ → List ℕ
empty_slots worker_count = replicate worker_count 0

abbrev pub set_for_worker : List ℕ → ℕ → ℕ → List ℕ
set_for_worker slots worker sid = set slots worker sid

abbrev pub get_for_worker : List ℕ → ℕ → ℕ
get_for_worker slots worker = get_or slots worker 0

pub data PeerRole : Type 0 where
  client gateway exchange : PeerRole

abbrev pub is_exchange : PeerRole → Bool
is_exchange exchange = true
is_exchange _ = false

-- What the gateway does to the session that said hello.
pub data Greeting : Type 0 where
  upstream_role_conflict client_sid_equals_upstream : Greeting
  handshaken : (assigned : PeerRole) → Greeting

-- `RoleHelloGatewayController::onRoleHello_` on the worker `wid`; `upstream_` is not null.
unfoldable pub on_role_hello : List ℕ → (wid sid : ℕ) → PeerRole → Greeting × List ℕ
on_role_hello slots wid sid role =
    let local_up = get_for_worker slots wid in
    if is_exchange role
    then (if not (local_up == 0) && not (sid == local_up)
        then (upstream_role_conflict, slots)
        else (handshaken role, if local_up == 0 then set_for_worker slots wid sid else slots))
    else if not (local_up == 0) && (sid == local_up)
    then (client_sid_equals_upstream, slots)
    else (handshaken role, slots)

-- `RoleHelloGatewayController::onSessionEnd`
unfoldable pub on_session_end : List ℕ → (wid sid : ℕ) → List ℕ
on_session_end slots wid sid =
    let up = get_for_worker slots wid in
    if not (up == 0) && (up == sid) then set_for_worker slots wid 0 else slots

-- `PerfPingPkt` and `PerfPongPkt`, which have the same fields.
pub record PerfPacket : Type 0 where
  pub client_sid : ℕ
  pub seq : ℕ
  pub t1 : ℕ
  pub t2 : ℕ
  pub t3 : ℕ
  pub t4 : ℕ

-- The gateway's `onPerfPing` at the time `now`: whom it sends to, and what.
unfoldable pub forward_ping :
    List ℕ → (handoff : Bool) → (wid now sid : ℕ) → PerfPacket → Option (ℕ × PerfPacket)
forward_ping slots handoff wid now sid pkt =
    let worker_count = length slots in
    let idx = if handoff then sid % worker_count else wid % worker_count in
    let upstream_sid = get_for_worker slots idx in
    if worker_count == 0
    then none
    else if upstream_sid == 0
    then none
    else some (upstream_sid, record pkt { client_sid = sid; t2 = now })

-- The exchange's `onPerfPing`.
unfoldable pub answer_ping : (now sid : ℕ) → PerfPacket → ℕ × PerfPacket
answer_ping now sid pkt = (
  sid,
  record { client_sid = pkt.client_sid; seq = pkt.seq; t1 = pkt.t1; t2 = pkt.t2; t3 = now; t4 = 0 },
)

-- The gateway's `onPerfPong`.
unfoldable pub forward_pong : (now : ℕ) → PerfPacket → Option (ℕ × PerfPacket)
forward_pong now pkt =
    if pkt.client_sid == 0 then none else some (pkt.client_sid, record pkt { t4 = now })
