-- ===== src/Net/Manager/Messages.antt =====
-- The table of sessions when messages come.
use network_engine_portfolio.Prelude.{
  ℕ, ◌+◌, Bool, Option, none, some, List, ◌==◌, ltb, ◌^◌, ◌%◌, Bool-cases, Option-cases, inl, inr,
}
use network_engine_portfolio.Map.{find, same_id}
use network_engine_portfolio.Protocol.Message.{
  MessageHeader, encode_len, encode_opcode, payload_len_for_body, max_payload_len_u64,
  split_opcode_u16_be,
}
use network_engine_portfolio.Protocol.Dispatch.{dispatch}
use network_engine_portfolio.Net.Session.{
  CloseReason, invalid_opcode_prefix, unknown_opcode, unknown_injected_opcode,
}
use network_engine_portfolio.Net.Session.Send.{SendAnswer, enqueue_packet_u16_coalesced}
use network_engine_portfolio.Net.Manager.{
  Manager, App, run_handler, dispatch_injected, send_packet_u16, dispatch_on_message, opcode_ping,
  opcode_pong,
}
use network_engine_portfolio.Net.Manager.Table.{
  IsManager, changed-IsManager, close_by_policy-IsManager,
}

-- What a call returns, if it returns, satisfies a predicate.
abbrev pub Returns : {A : Type 0} → (A → Type 0) → Option A → Type 0
Returns P none = Unit
Returns P (some a) = P a

module _ (app : App)
    (ends : (id : ℕ) (m : Manager) → IsManager m → IsManager (app.on_session_end id m))
    (handles : (handler sid : ℕ) (body : List ℕ) (m : Manager)
      → IsManager m
      → IsManager (app.on_message handler sid body m)) where
  run_handler-IsManager :
      (m : Manager) (id opcode : ℕ) (body : List ℕ) (reason : CloseReason)
      → IsManager m
      → IsManager (run_handler app m id opcode body reason)
  unfolding run_handler
  run_handler-IsManager m id opcode body reason v =
      elim (Option-cases (dispatch m.handlers opcode)) [
        | inl e ↦ rw (run_handler, e) (close_by_policy-IsManager app ends m id reason 0 v)
        | inr (h, e) ↦ rw (run_handler, e) (handles h id body m v)
      ]

  -- The table stays well formed when a message is injected.
  pub dispatch_injected-IsManager :
      (m : Manager) (id opcode : ℕ) (body : List ℕ)
      → IsManager m
      → IsManager (dispatch_injected app m id opcode body)
  unfolding dispatch_injected
  dispatch_injected-IsManager m id opcode body v =
      elim (Option-cases (find same_id m.sessions id)) [
        | inl e ↦ rw (dispatch_injected, e) v
        | inr (s, e) ↦
            rw (dispatch_injected, e)
              (run_handler-IsManager m id opcode body unknown_injected_opcode v)
      ]

  module _ (update : ℕ → Bool → Option ℕ) (answers : List SendAnswer) where
    pub send_packet_u16-IsManager :
        (m : Manager) (wire : List ℕ) (id opcode : ℕ) (body : Option (List ℕ)) (body_len : ℕ)
        → IsManager m
        → Returns
            (λ (out : Bool × Manager × List ℕ). IsManager out.1)
            (send_packet_u16 app update answers m wire id opcode body body_len)
    unfolding send_packet_u16
    send_packet_u16-IsManager m wire id opcode body body_len v =
        elim (Bool-cases (ltb max_payload_len_u64 (payload_len_for_body body_len))) [
          | inl t ↦ rw (send_packet_u16, t) v
          | inr f ↦ elim (Option-cases (find same_id m.sessions id)) [
            | inl e ↦ rw (send_packet_u16, f, e) v
            | inr (s, e) ↦
                elim (Option-cases (
                  enqueue_packet_u16_coalesced update answers s.core wire (encode_len hdr)
                    (encode_opcode hdr) body body_len)) [
                      | inl e' ↦ rw (send_packet_u16, f, e, e') tt
                      | inr (out, e') ↦
                          rw (send_packet_u16, f, e, e')
                            (changed-IsManager app ends m id s out.core v e)
                    ]
          ]
        ]
      where
        hdr : MessageHeader
        hdr = record { payload_len = payload_len_for_body body_len % 2 ^ 32; opcode = opcode }

    -- The answer to a ping leaves what sending leaves.
    after_pong :
        (o : Option (Bool × Manager × List ℕ))
        → Returns (λ (out : Bool × Manager × List ℕ). IsManager out.1) o
        → Returns
            (λ (out : Manager × List ℕ). IsManager out.0)
            (elim o [ none ↦ none | some (_, m, wire) ↦ some (m, wire) ])
    after_pong none v = tt
    after_pong (some (_, m, wire)) v = v

    -- If no id stands twice in the table of sessions, all were given out by this worker, and the
    -- connections opened are those ended and those in the table, then this holds after a message
    -- of any bytes was dispatched, if the call returns: for a ping, a pong, an unknown opcode, a
    -- message that is too short, and one that a handler takes, as long as the application's
    -- callbacks and handlers keep it.
    pub dispatch_on_message-IsManager :
        (m : Manager) (wire : List ℕ) (id : ℕ) (message : List ℕ)
        → IsManager m
        → Returns
            (λ (out : Manager × List ℕ). IsManager out.0)
            (dispatch_on_message app update answers m wire id message)
    unfolding dispatch_on_message
    dispatch_on_message-IsManager m wire id message v =
        elim (Option-cases (split_opcode_u16_be message)) [
          | inl e ↦
              rw (dispatch_on_message, e)
                (close_by_policy-IsManager app ends m' id invalid_opcode_prefix 0 v')
          | inr ((opcode, body), e) ↦ elim (Bool-cases (opcode == opcode_ping)) [
            | inl t ↦
                rw (dispatch_on_message, e, t)
                  (after_pong _ (send_packet_u16-IsManager m' wire id opcode_pong none 0 v'))
            | inr f ↦ elim (Bool-cases (opcode == opcode_pong)) [
              | inl t ↦ rw (dispatch_on_message, e, f, t) v'
              | inr g ↦
                  rw (dispatch_on_message, e, f, g)
                    (run_handler-IsManager m' id opcode body unknown_opcode v')
            ]
          ]
        ]
      where
        m' : Manager
        m' = record m { received = m.received + 1 }

        v' : IsManager m'
        v' = record { unique = v.unique; made = v.made; balance = v.balance }
