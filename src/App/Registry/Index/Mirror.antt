-- ===== src/App/Registry/Index/Mirror.antt =====
-- The index of topics is the sessions' subscriptions the other way round.
use network_engine_portfolio.Prelude.{
  ℕ, Bool, true, false, ◌&&◌, none, some, List, [], ◌∷◌, ◌≡◌, refl, ap, sym, ◌∙◌, inl, inr, arith,
  if◌then◌else◌, Bool-cases, Option-cases,
}
use network_engine_portfolio.Map.{Map, Decides, contains, find, put, erase_key, find_or}
use network_engine_portfolio.Map.Laws.{same_id-Decides, find-erase_key, find-put}
use network_engine_portfolio.App.Registry.Index.Slots.{in_index, in_index-erase}
use network_engine_portfolio.Map.{same_id}
use network_engine_portfolio.App.Registry.Index.{
  TopicKey, same_key, SubscriptionState, SubscriptionIndex, remove_from_topic, remove_from_scope,
  no_subscriptions, remove_scopes, remove_topics, clear_all, is_subscribed,
}

pub same_key-Decides : Decides same_key
same_key-Decides a b = ground arith

-- The subscriptions of a session; none if it has no state.
abbrev pub subscriptions_of : SubscriptionIndex → ℕ → List TopicKey
subscriptions_of s sid = (find_or same_id s.states sid no_subscriptions).subscriptions

abbrev pub listed : SubscriptionIndex → TopicKey → ℕ → Bool
listed s key sid = in_index same_key same_key-Decides s.topic_index key sid

-- A session stands in the set of a topic exactly if it is subscribed to it.
abbrev pub Mirrors : SubscriptionIndex → Type 0
Mirrors s = (key : TopicKey) (sid : ℕ) → listed s key sid ≡ is_subscribed s sid key

-- Scopes do not matter for the topics.
pub remove_scopes-topics :
    (s : SubscriptionIndex) (sid : ℕ) (m : Map ℕ ℕ)
    → (remove_scopes s sid m).topic_index ≡ s.topic_index
unfolding remove_scopes
remove_scopes-topics s sid [] = refl
remove_scopes-topics s sid ((w, c) ∷ m) = remove_scopes-topics (remove_from_scope s sid w) sid m

pub remove_scopes-states :
    (s : SubscriptionIndex) (sid : ℕ) (m : Map ℕ ℕ) → (remove_scopes s sid m).states ≡ s.states
unfolding remove_scopes
remove_scopes-states s sid [] = refl
remove_scopes-states s sid ((w, c) ∷ m) = remove_scopes-states (remove_from_scope s sid w) sid m

remove_topics-states :
    (s : SubscriptionIndex) (sid : ℕ) (keys : List TopicKey)
    → (remove_topics s sid keys).states ≡ s.states
unfolding remove_topics
remove_topics-states s sid [] = refl
remove_topics-states s sid (k ∷ ks) = remove_topics-states (remove_from_topic s sid k) sid ks

both_removed :
    (a b c l : Bool)
    → (if a && c then false else (if b && a then false else l))
      ≡ (if a && (if b then true else c) then false else l)
both_removed true true true l = refl
both_removed true true false l = refl
both_removed true false c l = refl
both_removed false true c l = refl
both_removed false false c l = refl

-- Clearing the topics of a session takes it out of exactly those.
remove_topics-listed :
    (s : SubscriptionIndex) (sid : ℕ) (keys : List TopicKey) (key : TopicKey) (sid' : ℕ)
    → listed (remove_topics s sid keys) key sid'
      ≡ (if same_id sid sid' && contains same_key keys key then false else listed s key sid')
unfolding remove_topics contains
remove_topics-listed s sid [] key sid' = elim (Bool-cases (same_id sid sid')) [
  | inl t ↦ rw t refl
  | inr f ↦ rw f refl
]
remove_topics-listed s sid (k ∷ ks) key sid' =
    remove_topics-listed (remove_from_topic s sid k) sid ks key sid'
    ∙ ap (λ l. if same_id sid sid' && contains same_key ks key then false else l)
        (in_index-erase same_key same_key-Decides s.topic_index k key sid sid')
    ∙ both_removed (same_id sid sid') (same_key k key) (contains same_key ks key)
        (listed s key sid')

-- `is_subscribed` reads nothing but the states.
abbrev pub subs_at : Map ℕ SubscriptionState → ℕ → TopicKey → Bool
subs_at states sid key = elim (find same_id states sid) [
  | none ↦ false
  | some st ↦ contains same_key st.subscriptions key
]

pub is_subscribed_lem :
    (s : SubscriptionIndex) (sid : ℕ) (key : TopicKey)
    → is_subscribed s sid key ≡ subs_at s.states sid key
unfolding is_subscribed
is_subscribed_lem s sid key = refl

pub subs_at-erase :
    (states : Map ℕ SubscriptionState) (sid sid' : ℕ) (key : TopicKey)
    → subs_at (erase_key same_id states sid) sid' key
      ≡ (if same_id sid sid' then false else subs_at states sid' key)
subs_at-erase states sid sid' key = elim (Bool-cases (same_id sid sid')) [
  | inl t ↦ rw (subs_at, find-erase_key same_id same_id-Decides states sid sid', t) refl
  | inr f ↦ rw (subs_at, find-erase_key same_id same_id-Decides states sid sid', f) refl
]

pub subs_at-put :
    (states : Map ℕ SubscriptionState) (sid sid' : ℕ) (st : SubscriptionState) (key : TopicKey)
    → subs_at (put same_id states sid st) sid' key ≡ (
        if same_id sid sid'
        then contains same_key st.subscriptions key
        else subs_at states sid' key)
subs_at-put states sid sid' st key = elim (Bool-cases (same_id sid sid')) [
  | inl t ↦ rw (subs_at, find-put same_id same_id-Decides states sid sid' st, t) refl
  | inr f ↦ rw (subs_at, find-put same_id same_id-Decides states sid sid' st, f) refl
]

pub subs_at-some :
    (states : Map ℕ SubscriptionState) (sid : ℕ) {st : SubscriptionState} (key : TopicKey)
    → find same_id states sid ≡ some st
    → subs_at states sid key ≡ contains same_key st.subscriptions key
subs_at-some states sid key e = rw (subs_at, e) refl

module _ (s : SubscriptionIndex) (sid : ℕ) (m : Mirrors s) where
  -- What of the index the session itself stands in.
  pub own :
      {st : SubscriptionState} (key : TopicKey) (sid' : ℕ)
      → find same_id s.states sid ≡ some st
      → same_id sid sid' ≡ true
      → listed s key sid' ≡ contains same_key st.subscriptions key
  own key sid' e t =
      m key sid'
      ∙ is_subscribed_lem s sid' key
      ∙ ap (λ z. subs_at s.states z key) (sym ((same_id-Decides sid sid').0 t))
      ∙ subs_at-some s.states sid key e

  cleared :
      {st : SubscriptionState} (key : TopicKey) (sid' : ℕ)
      → find same_id s.states sid ≡ some st
      → (if same_id sid sid' && contains same_key st.subscriptions key
          then false
          else listed s key sid')
        ≡ (if same_id sid sid' then false else subs_at s.states sid' key)
  cleared {st} key sid' e = elim (Bool-cases (same_id sid sid')) [
    | inl t ↦ elim (Bool-cases (contains same_key st.subscriptions key)) [
      | inl u ↦ rw (t, u) refl
      | inr g ↦ rw (t, g) (own key sid' e t ∙ g)
    ]
    | inr f ↦ rw f (m key sid' ∙ is_subscribed_lem s sid' key)
  ]

  -- If before a call of clearAll the sets of the index of topics hold exactly the sessions that
  -- are subscribed to each topic, then they do after it.
  pub clear_all-Mirrors : Mirrors (clear_all s sid)
  unfolding clear_all
  clear_all-Mirrors key sid' = elim (Option-cases (find same_id s.states sid)) [
    | inl n ↦ rw (clear_all, n) (m key sid')
    | inr (st, e) ↦
        rw (clear_all, e)
          (ap (λ i. in_index same_key same_key-Decides i key sid')
              (remove_scopes-topics (remove_topics s sid st.subscriptions) sid st.scope_ref_count)
            ∙ remove_topics-listed s sid st.subscriptions key sid'
            ∙ cleared key sid' e
            ∙ sym (
                is_subscribed_lem _ sid' key
                ∙ ap (λ states. subs_at (erase_key same_id states sid) sid' key)
                    (remove_scopes-states (remove_topics s sid st.subscriptions) sid
                        st.scope_ref_count
                      ∙ remove_topics-states s sid st.subscriptions)
                ∙ subs_at-erase s.states sid sid' key))
  ]
