-- ===== src/App/Registry/Index/Subscribe.antt =====
-- `subscribe` keeps the index of topics in step with the subscriptions.
use network_engine_portfolio.Prelude.{
  ℕ, Bool, true, false, ◌&&◌, ◌≡◌, refl, ap, ap₂, sym, ◌∙◌, inl, inr, ◌==◌, if◌then◌else◌,
  Bool-cases, Option-cases,
}
use network_engine_portfolio.Map.{Map, contains, find, find_or}
use network_engine_portfolio.Map.Laws.{same_id-Decides, contains-insert}
use network_engine_portfolio.App.Registry.Index.Slots.{in_index, in_index-add}
use network_engine_portfolio.Map.{same_id}
use network_engine_portfolio.App.Registry.Index.{
  TopicKey, same_key, SubscriptionState, SubscriptionIndex, add_to_topic, no_subscriptions,
  set_state, count_scope, subscribe, is_subscribed,
}
use network_engine_portfolio.App.Registry.Index.Mirror.{
  same_key-Decides, listed, Mirrors, subs_at, is_subscribed_lem, subs_at-put,
}

-- The subscriptions of the state that `states_[sid]` finds or makes.
subs_at-find_or :
    (states : Map ℕ SubscriptionState) (sid : ℕ) (key : TopicKey)
    → contains same_key (find_or same_id states sid no_subscriptions).subscriptions key
      ≡ subs_at states sid key
unfolding find_or contains
subs_at-find_or states sid key = elim (Option-cases (find same_id states sid)) [
  | inl n ↦ rw (find_or, subs_at, n) refl
  | inr (st, e) ↦ rw (find_or, subs_at, e) refl
]

count_scope-topics :
    (s : SubscriptionIndex) (sid : ℕ) (st : SubscriptionState) (w cnt : ℕ)
    → (count_scope s sid st w cnt).topic_index ≡ s.topic_index
unfolding count_scope
count_scope-topics s sid st w cnt = elim (Bool-cases (cnt == 0)) [
  | inl t ↦ rw (count_scope, t) refl
  | inr f ↦ rw (count_scope, f) refl
]

count_scope-subs :
    (s : SubscriptionIndex) (sid : ℕ) (st : SubscriptionState) (w cnt : ℕ) (sid' : ℕ)
    (key : TopicKey)
    → is_subscribed (count_scope s sid st w cnt) sid' key ≡ (
        if same_id sid sid'
        then contains same_key st.subscriptions key
        else subs_at s.states sid' key)
unfolding count_scope is_subscribed
count_scope-subs s sid st w cnt sid' key = elim (Bool-cases (cnt == 0)) [
  | inl t ↦ rw (count_scope, t) (subs_at-put s.states sid sid' _ key)
  | inr f ↦ rw (count_scope, f) (subs_at-put s.states sid sid' _ key)
]

-- Adding one key on both sides.
one_added :
    (a b l c : Bool)
    → (a ≡ true → l ≡ c)
    → (if b && a then true else l) ≡ (if a then (if b then true else c) else l)
one_added true true l c h = refl
one_added true false l c h = h refl
one_added false true l c h = refl
one_added false false l c h = refl

module _ (s : SubscriptionIndex) (sid w c : ℕ) (m : Mirrors s) where
  abbrev topic_key : TopicKey
  topic_key = record { scope = w; topic = c }

  abbrev st : SubscriptionState
  st = find_or same_id s.states sid no_subscriptions

  found :
      (key : TopicKey) (sid' : ℕ)
      → same_id sid sid' ≡ true
      → listed s key sid' ≡ contains same_key st.subscriptions key
  found key sid' t =
      m key sid'
      ∙ is_subscribed_lem s sid' key
      ∙ ap (λ z. subs_at s.states z key) (sym ((same_id-Decides sid sid').0 t))
      ∙ sym (subs_at-find_or s.states sid key)

  same_state :
      (key : TopicKey) (sid' : ℕ)
      → listed s key sid' ≡ (
          if same_id sid sid'
          then contains same_key st.subscriptions key
          else subs_at s.states sid' key)
  same_state key sid' = elim (Bool-cases (same_id sid sid')) [
    | inl t ↦ rw t (found key sid' t)
    | inr f ↦ rw f (m key sid' ∙ is_subscribed_lem s sid' key)
  ]

  -- If before a call of subscribe the sets of the index of topics hold exactly the sessions that
  -- are subscribed to each topic, then they do after it, whether the subscription is new or not.
  pub subscribe-Mirrors : Mirrors (subscribe s sid w c).1
  unfolding subscribe
  subscribe-Mirrors key sid' = elim (Bool-cases (contains same_key st.subscriptions topic_key)) [
    | inl t ↦
        rw (subscribe, t)
          (same_state key sid'
            ∙ sym (subs_at-put s.states sid sid' st key)
            ∙ sym (is_subscribed_lem (set_state s sid st) sid' key))
    | inr f ↦
        rw (subscribe, f)
          (ap (λ i. in_index same_key same_key-Decides i key sid')
              (count_scope-topics (add_to_topic s sid topic_key) sid _ w _)
            ∙ in_index-add same_key same_key-Decides s.topic_index topic_key key sid sid'
            ∙ one_added (same_id sid sid') (same_key topic_key key) (listed s key sid')
                (contains same_key st.subscriptions key) (found key sid')
            ∙ ap₂ (λ x y. if same_id sid sid' then x else y)
                (sym (contains-insert same_key same_key-Decides st.subscriptions topic_key key))
                (m key sid' ∙ is_subscribed_lem s sid' key)
            ∙ sym (count_scope-subs (add_to_topic s sid topic_key) sid _ w _ sid' key))
  ]
