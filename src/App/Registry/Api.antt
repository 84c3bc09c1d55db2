-- ===== src/App/Registry/Api.antt =====
-- The public operations of `SessionRegistry`, and the opcodes that a session's state allows. A
-- release build: `ensureOwnerThread_` answers false on a wrong thread and does not abort.
use network_engine_portfolio.Prelude.{
  ℕ, ◌^◌, Bool, true, false, not, ◌&&◌, Option, none, some, List, [], ◌∷◌, ◌==◌, if◌then◌else◌,
  bit_and,
}
use network_engine_portfolio.Map.{Map, find, put}
use network_engine_portfolio.App.Registry.Store.{
  ConnState, connected, handshaked, authed, joined, active, closing, SessionContext, SessionHandle,
  SessionStore, add_record, remove_record, find_record, try_get_context, update,
}
use network_engine_portfolio.Map.{same_id}
use network_engine_portfolio.App.Registry.Index.{
  SubscriptionIndex, subscribe, unsubscribe, clear_all, is_subscribed, has_none, scope_members,
  topic_members,
}

-- `owner_worker_id` is `none` where the source's is negative.
pub record Registry : Type 0 where
  pub owner_worker_id : Option ℕ
  pub store : SessionStore
  pub subs : SubscriptionIndex

-- Called on the worker `cw`.
module _ (cw : ℕ) where
  unfoldable pub ensure_owner_thread : Registry → Bool
  ensure_owner_thread r = elim r.owner_worker_id [ none ↦ true | some owner ↦ cw == owner ]

  unfoldable pub subscribe_session : Registry → ℕ → ℕ → ℕ → Bool × Registry
  subscribe_session r sid w c =
      if not (ensure_owner_thread r) then (false, r) else elim (find_record r.store sid) [
        | none ↦ (false, r)
        | some rec ↦ let (ok, subs) = subscribe r.subs sid w c in (ok, record r { subs = subs })
      ]

  unfoldable pub add : Registry → SessionHandle → ℕ → ℕ → Registry
  add r session w c =
      let r' : Registry = record r { store = add_record r.store session w c } in
      if not (ensure_owner_thread r)
      then r
      else if not (w == 0) && not (c == 0)
      then (subscribe_session r' session.id w c).1
      else r'

  unfoldable pub remove : Registry → ℕ → Registry
  remove r sid = if not (ensure_owner_thread r) then r else elim (find_record r.store sid) [
    | none ↦ r
    | some rec ↦ record r { store = remove_record r.store sid; subs = clear_all r.subs sid }
  ]

  unfoldable pub try_get_handle : Registry → ℕ → Option SessionHandle
  try_get_handle r sid =
      if not (ensure_owner_thread r) then none else elim (find_record r.store sid) [
        | none ↦ none
        | some rec ↦ if rec.handle.id == 0 then none else some rec.handle
      ]

  unfoldable pub get_context : Registry → ℕ → Option SessionContext
  get_context r sid = if not (ensure_owner_thread r) then none else try_get_context r.store sid

  unfoldable pub set_state_of : Registry → ℕ → ConnState → Registry
  set_state_of r sid st =
      if not (ensure_owner_thread r)
      then r
      else record r { store = update r.store sid (λ ctx. record ctx { state = st }) }

  unfoldable pub set_auth : Registry → ℕ → ℕ → ℕ → Registry
  set_auth r sid aid pid = if not (ensure_owner_thread r) then r else record r {
    store = update r.store sid (λ ctx. record ctx { account_id = aid; player_id = pid });
  }

  abbrev pub set_primary : Registry → ℕ → ℕ → ℕ → Registry
  set_primary r sid w c = record r {
    store = update r.store sid (λ ctx. record ctx { scope = w; topic = c });
  }

  unfoldable pub unsubscribe_session : Registry → ℕ → ℕ → ℕ → Bool × Registry
  unsubscribe_session r sid w c =
      if not (ensure_owner_thread r) then (false, r) else elim (find_record r.store sid) [
        | none ↦ (false, r)
        | some rec ↦
            let (ok, subs) = unsubscribe r.subs sid w c in
            let r' : Registry = record r { subs = subs } in
            let r'' : Registry =
              if (rec.ctx.scope == w) && (rec.ctx.topic == c) then set_primary r' sid 0 0 else r' in
            if not ok
            then (false, r')
            else if has_none subs sid
            then (true, set_primary r'' sid 0 0)
            else (true, r'')
      ]

  unfoldable pub unsubscribe_all : Registry → ℕ → Bool × Registry
  unsubscribe_all r sid =
      if not (ensure_owner_thread r) then (false, r) else elim (find_record r.store sid) [
        | none ↦ (false, r)
        | some rec ↦ (true, set_primary (record r { subs = clear_all r.subs sid }) sid 0 0)
      ]

  unfoldable pub set_primary_topic : Registry → ℕ → ℕ → ℕ → Bool × Registry
  set_primary_topic r sid w c =
      if not (ensure_owner_thread r) then (false, r) else elim (find_record r.store sid) [
        | none ↦ (false, r)
        | some rec ↦
            if (w == 0) && (c == 0)
            then (true, set_primary r sid 0 0)
            else if not (is_subscribed r.subs sid (record { scope = w; topic = c }))
            then (false, r)
            else (true, set_primary r sid w c)
      ]

  -- With the old scope and topic, which the source writes where the pointers for them are given.
  unfoldable pub move_to_topic : Registry → ℕ → ℕ → ℕ → Option (ℕ × ℕ) × Registry
  move_to_topic r sid w c =
      if not (ensure_owner_thread r) then (none, r) else elim (find_record r.store sid) [
        | none ↦ (none, r)
        | some rec ↦
            let r' : Registry = set_primary (record r { subs = clear_all r.subs sid }) sid 0 0 in
            let r'' : Registry =
              if not (w == 0) && not (c == 0)
              then (set_primary_topic (subscribe_session r' sid w c).1 sid w c).1
              else r' in
            (some (rec.ctx.scope, rec.ctx.topic), r'')
      ]

  -- The handles of `members` that are stored and valid, but for `except`.
  unfoldable pub handles_of : SessionStore → ℕ → List ℕ → List SessionHandle
  handles_of m except [] = []
  handles_of m except (sid ∷ sids) =
      let rest = handles_of m except sids in
      if sid == except then rest else elim (find_record m sid) [
        | none ↦ rest
        | some rec ↦ if rec.handle.id == 0 then rest else rec.handle ∷ rest
      ]

  unfoldable pub records_but : ℕ → SessionStore → List SessionHandle
  records_but except [] = []
  records_but except ((sid, rec) ∷ m) =
      let rest = records_but except m in
      if sid == except then rest else if rec.handle.id == 0 then rest else rec.handle ∷ rest

  unfoldable pub snapshot_all : Registry → ℕ → List SessionHandle
  snapshot_all r except = if not (ensure_owner_thread r) then [] else records_but except r.store

  unfoldable pub snapshot_scope : Registry → ℕ → ℕ → List SessionHandle
  snapshot_scope r w except =
      if not (ensure_owner_thread r)
      then []
      else elim (scope_members r.subs w) [ none ↦ [] | some sids ↦ handles_of r.store except sids ]

  unfoldable pub snapshot_topic : Registry → ℕ → ℕ → ℕ → List SessionHandle
  snapshot_topic r w c except =
      if not (ensure_owner_thread r)
      then []
      else elim (topic_members r.subs (record { scope = w; topic = c })) [
        | none ↦ []
        | some sids ↦ handles_of r.store except sids
      ]

  abbrev pub rank : ConnState → ℕ
  rank connected = 0
  rank handshaked = 1
  rank authed = 2
  rank joined = 3
  rank active = 4
  rank closing = 5

  unfoldable pub state_bit : ConnState → ℕ
  state_bit s = 2 ^ rank s

  -- `SessionStateMachine`: the states that each opcode is allowed in.
  unfoldable pub set_allowed_states : Map ℕ ℕ → ℕ → ℕ → Map ℕ ℕ
  set_allowed_states allowed opcode mask = put same_id allowed opcode mask

  unfoldable pub is_allowed_ctx : Map ℕ ℕ → SessionContext → ℕ → Bool
  is_allowed_ctx allowed ctx opcode = elim (find same_id allowed opcode) [
    | none ↦ false
    | some mask ↦ not (bit_and mask (state_bit ctx.state) == 0)
  ]

  unfoldable pub try_get_allowed_context : Map ℕ ℕ → Registry → ℕ → ℕ → Option SessionContext
  try_get_allowed_context allowed r sid opcode = elim (find same_id allowed opcode) [
    | none ↦ none
    | some mask ↦ elim (get_context r sid) [
      | none ↦ none
      | some ctx ↦ if not (bit_and mask (state_bit ctx.state) == 0) then some ctx else none
    ]
  ]

  unfoldable pub is_allowed : Map ℕ ℕ → Registry → ℕ → ℕ → Bool
  is_allowed allowed r sid opcode = elim (try_get_allowed_context allowed r sid opcode) [
    | none ↦ false
    | some ctx ↦ true
  ]
