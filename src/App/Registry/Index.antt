-- ===== src/App/Registry/Index.antt =====
-- `SubscriptionIndex`: the topics of each session, and for each topic and each scope its sessions.
pub mod Slots
pub mod Mirror
pub mod Subscribe
pub mod Unsubscribe
use network_engine_portfolio.Prelude.{
  ℕ, ◌+◌, ◌-◌, Bool, true, false, not, ◌&&◌, Option, none, some, List, [], ◌∷◌, ◌==◌, ltb,
  if◌then◌else◌,
}
use network_engine_portfolio.Map.{Map, contains, insert, erase, find, put, erase_key, find_or}
use network_engine_portfolio.Map.{same_id}

pub record TopicKey : Type 0 where
  pub scope : ℕ
  pub topic : ℕ

abbrev pub same_key : TopicKey → TopicKey → Bool
same_key a b = (a.scope == b.scope) && (a.topic == b.topic)

pub record SubscriptionState : Type 0 where
  pub subscriptions : List TopicKey
  pub scope_ref_count : Map ℕ ℕ

pub record SubscriptionIndex : Type 0 where
  pub states : Map ℕ SubscriptionState
  pub scope_index : Map ℕ (List ℕ)
  pub topic_index : Map TopicKey (List ℕ)

-- `eraseFromIndex_`: a set that becomes empty goes with its key.
unfoldable pub erase_from_index :
    {K : Type 0} → (K → K → Bool) → Map K (List ℕ) → K → ℕ → Map K (List ℕ)
erase_from_index same idx k sid = elim (find same idx k) [
  | none ↦ idx
  | some members ↦ elim (erase same_id members sid) [
    | [] ↦ erase_key same idx k
    | m ∷ ms ↦ put same idx k (m ∷ ms)
  ]
]

-- `idx[k].insert(sid)`
unfoldable pub add_to_index :
    {K : Type 0} → (K → K → Bool) → Map K (List ℕ) → K → ℕ → Map K (List ℕ)
add_to_index same idx k sid = put same idx k (insert same_id (find_or same idx k []) sid)

abbrev pub add_to_topic : SubscriptionIndex → ℕ → TopicKey → SubscriptionIndex
add_to_topic s sid key = record s { topic_index = add_to_index same_key s.topic_index key sid }

abbrev pub remove_from_topic : SubscriptionIndex → ℕ → TopicKey → SubscriptionIndex
remove_from_topic s sid key = record s {
  topic_index = erase_from_index same_key s.topic_index key sid;
}

abbrev pub add_to_scope : SubscriptionIndex → ℕ → ℕ → SubscriptionIndex
add_to_scope s sid w = record s { scope_index = add_to_index same_id s.scope_index w sid }

abbrev pub remove_from_scope : SubscriptionIndex → ℕ → ℕ → SubscriptionIndex
remove_from_scope s sid w = record s { scope_index = erase_from_index same_id s.scope_index w sid }

abbrev pub no_subscriptions : SubscriptionState
no_subscriptions = record { subscriptions = []; scope_ref_count = [] }

abbrev pub set_state : SubscriptionIndex → ℕ → SubscriptionState → SubscriptionIndex
set_state s sid st = record s { states = put same_id s.states sid st }

-- The part of `subscribe` behind the insertion of the key; `cnt` is `st.scopeRefCount[w]`.
unfoldable pub count_scope : SubscriptionIndex → ℕ → SubscriptionState → ℕ → ℕ → SubscriptionIndex
count_scope s sid st w cnt =
    let s' : SubscriptionIndex = if cnt == 0 then add_to_scope s sid w else s in
    set_state s' sid (record st { scope_ref_count = put same_id st.scope_ref_count w (cnt + 1) })

unfoldable pub subscribe : SubscriptionIndex → ℕ → ℕ → ℕ → Bool × SubscriptionIndex
subscribe s sid w c =
    let key : TopicKey = record { scope = w; topic = c } in
    let st : SubscriptionState = find_or same_id s.states sid no_subscriptions in
    if contains same_key st.subscriptions key then (false, set_state s sid st) else (
      true,
      count_scope (add_to_topic s sid key) sid
          (record st { subscriptions = insert same_key st.subscriptions key }) w
          (find_or same_id st.scope_ref_count w 0),
    )

unfoldable pub remove_scopes : SubscriptionIndex → ℕ → Map ℕ ℕ → SubscriptionIndex
remove_scopes s sid [] = s
remove_scopes s sid ((w, cnt) ∷ more) = remove_scopes (remove_from_scope s sid w) sid more

unfoldable pub remove_topics : SubscriptionIndex → ℕ → List TopicKey → SubscriptionIndex
remove_topics s sid [] = s
remove_topics s sid (key ∷ keys) = remove_topics (remove_from_topic s sid key) sid keys

-- The state with one reference to the scope less, and the index after it.
unfoldable pub uncount_scope :
    SubscriptionIndex → ℕ → SubscriptionState → ℕ → SubscriptionState × SubscriptionIndex
uncount_scope s sid st w = elim (find same_id st.scope_ref_count w) [
  | none ↦ (st, s)
  | some cnt ↦
      let n = if ltb 0 cnt then cnt - 1 else cnt in
      if n == 0
      then (
        record st { scope_ref_count = erase_key same_id st.scope_ref_count w },
        remove_from_scope s sid w,
      )
      else (record st { scope_ref_count = put same_id st.scope_ref_count w n }, s)
]

unfoldable pub unsubscribe_from :
    SubscriptionIndex → ℕ → SubscriptionState → ℕ → TopicKey → SubscriptionIndex
unsubscribe_from s sid st w key =
    let (st', s') =
      uncount_scope (remove_from_topic s sid key) sid
        (record st { subscriptions = erase same_key st.subscriptions key }) w in
    elim st'.subscriptions [
      | [] ↦
          let s'' : SubscriptionIndex = remove_scopes s' sid st'.scope_ref_count in
          record s'' { states = erase_key same_id s''.states sid }
      | k ∷ ks ↦ set_state s' sid st'
    ]

unfoldable pub unsubscribe : SubscriptionIndex → ℕ → ℕ → ℕ → Bool × SubscriptionIndex
unsubscribe s sid w c =
    let key : TopicKey = record { scope = w; topic = c } in
    elim (find same_id s.states sid) [
      | none ↦ (false, s)
      | some st ↦
          if contains same_key st.subscriptions key
          then (true, unsubscribe_from s sid st w key)
          else (false, s)
    ]

unfoldable pub clear_all : SubscriptionIndex → ℕ → SubscriptionIndex
clear_all s sid = elim (find same_id s.states sid) [
  | none ↦ s
  | some st ↦
      let s' : SubscriptionIndex =
        remove_scopes (remove_topics s sid st.subscriptions) sid st.scope_ref_count in
      record s' { states = erase_key same_id s'.states sid }
]

unfoldable pub is_subscribed : SubscriptionIndex → ℕ → TopicKey → Bool
is_subscribed s sid key = elim (find same_id s.states sid) [
  | none ↦ false
  | some st ↦ contains same_key st.subscriptions key
]

unfoldable pub has_none : SubscriptionIndex → ℕ → Bool
has_none s sid = elim (find same_id s.states sid) [
  | none ↦ true
  | some st ↦ elim st.subscriptions [ [] ↦ true | _ ∷ _ ↦ false ]
]

abbrev pub scope_members : SubscriptionIndex → ℕ → Option (List ℕ)
scope_members s w = find same_id s.scope_index w

abbrev pub topic_members : SubscriptionIndex → TopicKey → Option (List ℕ)
topic_members s key = find same_key s.topic_index key
