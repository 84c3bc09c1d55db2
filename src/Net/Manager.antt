-- ===== src/Net/Manager.antt =====
-- engine/src/hypernet/net/SessionManager.cpp: the sessions of a worker. The application and its
-- handlers are `App`: what they do to the manager that calls them.
pub mod Ids
pub mod Table
pub mod Policy
pub mod Accept
pub mod Messages
use network_engine_portfolio.Prelude.{
  ℕ, ◌+◌, ◌*◌, ◌%◌, ◌/◌, ◌^◌, Bool, true, false, not, ◌&&◌, Option, none, some, List, [], ◌∷◌, ◌==◌,
  ltb, if◌then◌else◌, add64, bit_or,
}
use network_engine_portfolio.Map.{Map, find, put, emplace, erase_key, same_id}
use network_engine_portfolio.Protocol.Message.{
  MessageHeader, encode_len, encode_opcode, payload_len_for_body, max_payload_len_u64,
  split_opcode_u16_be,
}
use network_engine_portfolio.Protocol.Dispatch.{dispatch}
use network_engine_portfolio.Net.Session.{
  CloseReason, invalid_opcode_prefix, unknown_opcode, unknown_injected_opcode, Core, begin_close,
  close_from_manager,
}
use network_engine_portfolio.Net.Session.Send.{
  is_connected, SendAnswer, enqueue_packet_u16_coalesced,
}
use network_engine_portfolio.Net.Session.Timeouts.{Watched, start_timeouts}

-- `errors`, `opened`, `ended` and `received` are counters of the metrics.
pub record Manager : Type 0 where
  pub owner_worker_id : ℕ
  pub local_counter : ℕ
  pub idle_timeout_ms : ℕ
  pub heartbeat_interval_ms : ℕ
  pub handlers : Map ℕ ℕ
  pub sessions : Map ℕ Watched
  pub opened : ℕ
  pub ended : ℕ
  pub errors : ℕ
  pub received : ℕ

-- The callbacks for a session's start and end, and the handler of a name for a message's body.
pub record App : Type 0 where
  pub on_session_start : ℕ → Manager → Manager
  pub on_session_end : ℕ → Manager → Manager
  pub on_message : (handler sid : ℕ) → List ℕ → Manager → Manager

unfoldable pub next_session_id : Manager → ℕ × Manager
next_session_id m = (
  bit_or (m.owner_worker_id * 2 ^ 32 % 2 ^ 64) m.local_counter,
  record m { local_counter = add64 m.local_counter 1 },
)

-- `SessionHandle::ownerWorkerFromId`; a worker's number fits an `int`.
unfoldable pub owner_worker_from_id : ℕ → ℕ
owner_worker_from_id sid = sid / 2 ^ 32 % 2 ^ 32

abbrev count_error : Manager → Manager
count_error m = record m { errors = m.errors + 1 }

abbrev pub opcode_ping : ℕ
opcode_ping = 0xfffe

abbrev pub opcode_pong : ℕ
opcode_pong = 0xffff

unfoldable pub configure_timeouts : Manager → ℕ → ℕ → Manager
configure_timeouts m idle interval = record m {
  idle_timeout_ms = idle;
  heartbeat_interval_ms = interval;
}

-- The sessions as they are destroyed, and the manager that has none; the shutdown of the outgoing
-- connections stands before it.
unfoldable pub close_each : Map ℕ Watched → Map ℕ Watched
close_each [] = []
close_each ((id, s) ∷ rest) = (id, record s { core = close_from_manager s.core }) ∷ close_each rest

unfoldable pub shutdown_in_owner_thread : Manager → Map ℕ Watched × Manager
shutdown_in_owner_thread m = (close_each m.sessions, record m { sessions = [] })

module _ (app : App) where
  -- `made` is the session that `Session::create` gives for an id, with its members at their first
  -- values, and `added` the answer of the event loop. The handle returned is the id.
  unfoldable pub on_accepted :
      (ℕ → Option Watched) → (added : Bool) → ℕ → Manager → Option ℕ × Manager
  on_accepted made added now m =
      let (id, m') = next_session_id m in
      elim (made id) [
        | none ↦ (none, count_error m')
        | some s ↦ if not added then (none, count_error m') else (
          some id,
          app.on_session_start id (record m' {
            sessions =
                emplace same_id m.sessions id
                  (start_timeouts s m.idle_timeout_ms m.heartbeat_interval_ms now);
            opened = m.opened + 1;
          }),
        )
      ]

  unfoldable pub on_session_closed : Manager → ℕ → Manager
  on_session_closed m id = elim (find same_id m.sessions id) [
    | none ↦ m
    | some s ↦
        app.on_session_end id
          (record m { sessions = erase_key same_id m.sessions id; ended = m.ended + 1 })
  ]

  -- A session's call changed its members; a close of it ends with `onSessionClosed`.
  unfoldable pub changed : Manager → ℕ → Watched → Core → Manager
  changed m id s c =
      let m' : Manager = record m {
        sessions = put same_id m.sessions id (record s { core = c });
      } in
      if is_connected s.core.state && (not (is_connected c.state) && s.core.has_manager)
      then on_session_closed m' id
      else m'

  unfoldable pub close_by_policy : Manager → ℕ → CloseReason → ℕ → Manager
  close_by_policy m id reason err = elim (find same_id m.sessions id) [
    | none ↦ m
    | some s ↦ changed m id s (begin_close s.core reason err)
  ]

  abbrev pub keys : Map ℕ Watched → List ℕ
  keys [] = []
  keys ((id, _) ∷ m) = id ∷ keys m

  unfoldable pub close_ids : Manager → List ℕ → CloseReason → ℕ → Manager
  close_ids m [] reason err = m
  close_ids m (id ∷ ids) reason err = close_ids (close_by_policy m id reason err) ids reason err

  unfoldable pub close_all_by_policy : Manager → CloseReason → ℕ → Manager
  close_all_by_policy m reason err = close_ids m (keys m.sessions) reason err

  unfoldable pub run_handler : Manager → ℕ → ℕ → List ℕ → CloseReason → Manager
  run_handler m id opcode body reason = elim (dispatch m.handlers opcode) [
    | none ↦ close_by_policy m id reason 0
    | some handler ↦ app.on_message handler id body m
  ]

  unfoldable pub dispatch_injected : Manager → ℕ → ℕ → List ℕ → Manager
  dispatch_injected m id opcode body = elim (find same_id m.sessions id) [
    | none ↦ m
    | some s ↦ run_handler m id opcode body unknown_injected_opcode
  ]

  -- `update` is the answer of the reactor, `answers` those of the kernel, and `wire` what the
  -- session's peer gets; `body` is null or has `body_len` bytes.
  module _ (update : ℕ → Bool → Option ℕ) (answers : List SendAnswer) where
    unfoldable pub send_packet_u16 :
        Manager → List ℕ → ℕ → ℕ → Option (List ℕ) → ℕ → Option (Bool × Manager × List ℕ)
    send_packet_u16 m wire id opcode body body_len =
        let payload_len = payload_len_for_body body_len in
        let hdr : MessageHeader = record { payload_len = payload_len % 2 ^ 32; opcode = opcode } in
        if ltb max_payload_len_u64 payload_len
        then some (false, m, wire)
        else elim (find same_id m.sessions id) [
          | none ↦ some (false, m, wire)
          | some s ↦
              elim (enqueue_packet_u16_coalesced update answers s.core wire (encode_len hdr)
                (encode_opcode hdr) body body_len) [
                  | none ↦ none
                  | some out ↦ some (out.ok, changed m id s out.core, out.wire)
                ]
        ]

    unfoldable pub dispatch_on_message : Manager → List ℕ → ℕ → List ℕ → Option (Manager × List ℕ)
    dispatch_on_message m wire id message =
        let m' : Manager = record m { received = m.received + 1 } in
        elim (split_opcode_u16_be message) [
          | none ↦ some (close_by_policy m' id invalid_opcode_prefix 0, wire)
          | some (opcode, body) ↦
              if opcode == opcode_ping
              then elim (send_packet_u16 m' wire id opcode_pong none 0) [
                | none ↦ none
                | some (_, m'', wire') ↦ some (m'', wire')
              ]
              else if opcode == opcode_pong
              then some (m', wire)
              else some (run_handler m' id opcode body unknown_opcode, wire)
        ]
