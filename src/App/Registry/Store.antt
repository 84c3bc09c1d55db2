-- ===== src/App/Registry/Store.antt =====
-- `SessionStore`: the sessions of a worker with their contexts.
use network_engine_portfolio.Prelude.{ℕ, Option, none, some}
use network_engine_portfolio.Map.{Map, find, put, erase_key, same_id}

pub data ConnState : Type 0 where
  connected handshaked authed joined active closing : ConnState

pub record SessionContext : Type 0 where
  pub state : ConnState
  pub account_id : ℕ
  pub player_id : ℕ
  pub scope : ℕ
  pub topic : ℕ

pub record SessionHandle : Type 0 where
  pub id : ℕ
  pub owner_worker_id : ℕ

pub record StoredSession : Type 0 where
  pub handle : SessionHandle
  pub ctx : SessionContext

abbrev pub SessionStore : Type 0
SessionStore = Map ℕ StoredSession

unfoldable pub add_record : SessionStore → SessionHandle → ℕ → ℕ → SessionStore
add_record m session w c = put same_id m session.id (record {
  handle = session;
  ctx = record { state = connected; account_id = 0; player_id = 0; scope = w; topic = c };
})

unfoldable pub remove_record : SessionStore → ℕ → SessionStore
remove_record m sid = erase_key same_id m sid

abbrev pub find_record : SessionStore → ℕ → Option StoredSession
find_record m sid = find same_id m sid

unfoldable pub try_get_context : SessionStore → ℕ → Option SessionContext
try_get_context m sid = elim (find_record m sid) [ none ↦ none | some rec ↦ some rec.ctx ]

-- A change through the pointer that `find` returns.
unfoldable pub update : SessionStore → ℕ → (SessionContext → SessionContext) → SessionStore
update m sid change = elim (find_record m sid) [
  | none ↦ m
  | some rec ↦ put same_id m sid (record rec { ctx = change rec.ctx })
]
