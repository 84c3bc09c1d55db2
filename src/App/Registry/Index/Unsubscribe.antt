-- ===== src/App/Registry/Index/Unsubscribe.antt =====
-- `unsubscribe` keeps the index of topics in step with the subscriptions.
use network_engine_portfolio.Prelude.{
  ℕ, ◌-◌, Bool, true, false, ◌&&◌, ◌≡◌, refl, ap, ap₂, sym, ◌∙◌, inl, inr, ◌==◌, ltb, if◌then◌else◌,
  Bool-cases, Option-cases,
}
use network_engine_portfolio.Map.{contains, erase, find, put, erase_key}
use network_engine_portfolio.Map.Laws.{contains-erase, List-cases}
use network_engine_portfolio.App.Registry.Index.Slots.{in_index, in_index-erase}
use network_engine_portfolio.Map.{same_id}
use network_engine_portfolio.App.Registry.Index.{
  TopicKey, same_key, SubscriptionState, SubscriptionIndex, remove_from_topic, uncount_scope,
  unsubscribe_from, unsubscribe,
}
use network_engine_portfolio.App.Registry.Index.Mirror.{
  same_key-Decides, listed, Mirrors, subs_at, is_subscribed_lem, subs_at-erase, subs_at-put, own,
  remove_scopes-topics, remove_scopes-states,
}

one_removed :
    (a b l c : Bool)
    → (a ≡ true → l ≡ c)
    → (if b && a then false else l) ≡ (if a then (if b then false else c) else l)
one_removed true true l c h = refl
one_removed true false l c h = h refl
one_removed false true l c h = refl
one_removed false false l c h = refl

-- A reference to a scope less changes neither topics nor subscriptions.
uncount_scope_lem :
    (s : SubscriptionIndex) (sid : ℕ) (st : SubscriptionState) (w : ℕ)
    → ((uncount_scope s sid st w).0.subscriptions ≡ st.subscriptions)
      × ((uncount_scope s sid st w).1.topic_index ≡ s.topic_index)
      × ((uncount_scope s sid st w).1.states ≡ s.states)
unfolding uncount_scope
uncount_scope_lem s sid st w = elim (Option-cases (find same_id st.scope_ref_count w)) [
  | inl n ↦ rw (uncount_scope, n) (refl, refl, refl)
  | inr (cnt, e) ↦ elim (Bool-cases ((if ltb 0 cnt then cnt - 1 else cnt) == 0)) [
    | inl t ↦ rw (uncount_scope, e, t) (refl, refl, refl)
    | inr f ↦ rw (uncount_scope, e, f) (refl, refl, refl)
  ]
]

module _ (s : SubscriptionIndex) (sid w c : ℕ) (m : Mirrors s) where
  abbrev topic_key : TopicKey
  topic_key = record { scope = w; topic = c }

  -- What is left of a state without the key, with the index behind the count of the scope.
  abbrev lessened : SubscriptionState → SubscriptionState × SubscriptionIndex
  lessened st' =
      uncount_scope (remove_from_topic s sid topic_key) sid
        (record st' { subscriptions = erase same_key st'.subscriptions topic_key }) w

  lessened_lem :
      (st' : SubscriptionState)
      → ((lessened st').0.subscriptions ≡ erase same_key st'.subscriptions topic_key)
        × ((lessened st').1.topic_index ≡ (remove_from_topic s sid topic_key).topic_index)
        × ((lessened st').1.states ≡ s.states)
  lessened_lem st' = uncount_scope_lem (remove_from_topic s sid topic_key) sid _ w

  abbrev after : SubscriptionState → SubscriptionIndex
  after st' = unsubscribe_from s sid st' w topic_key

  after-topics :
      (st' : SubscriptionState)
      → (after st').topic_index ≡ (remove_from_topic s sid topic_key).topic_index
  unfolding unsubscribe_from
  after-topics st' = elim (List-cases (lessened st').0.subscriptions) [
    | inl z ↦
        rw (unsubscribe_from, z)
          (remove_scopes-topics (lessened st').1 sid _ ∙ (lessened_lem st').1)
    | inr (k, ks, z) ↦ rw (unsubscribe_from, z) (lessened_lem st').1
  ]

  after-subs :
      (st' : SubscriptionState) (sid' : ℕ) (key : TopicKey)
      → subs_at (after st').states sid' key ≡ (
          if same_id sid sid'
          then contains same_key (erase same_key st'.subscriptions topic_key) key
          else subs_at s.states sid' key)
  unfolding unsubscribe_from contains
  after-subs st' sid' key = elim (List-cases (lessened st').0.subscriptions) [
    | inl z ↦
        rw (unsubscribe_from, z)
          (ap (λ states. subs_at (erase_key same_id states sid) sid' key)
              (remove_scopes-states (lessened st').1 sid _ ∙ (lessened_lem st').2)
            ∙ subs_at-erase s.states sid sid' key
            ∙ ap
                (λ xs.
                  if same_id sid sid' then contains same_key xs key else subs_at s.states sid' key)
                (sym z ∙ (lessened_lem st').0))
    | inr (k, ks, z) ↦
        rw (unsubscribe_from, z)
          (ap (λ states. subs_at (put same_id states sid (lessened st').0) sid' key)
              (lessened_lem st').2
            ∙ subs_at-put s.states sid sid' (lessened st').0 key
            ∙ ap
                (λ xs.
                  if same_id sid sid' then contains same_key xs key else subs_at s.states sid' key)
                (lessened_lem st').0)
  ]

  -- If before a call of unsubscribe the sets of the index of topics hold exactly the sessions that
  -- are subscribed to each topic, then they do after it, whether the session was subscribed or
  -- not, and also when its last subscription goes.
  pub unsubscribe-Mirrors : Mirrors (unsubscribe s sid w c).1
  unfolding unsubscribe
  unsubscribe-Mirrors key sid' = elim (Option-cases (find same_id s.states sid)) [
    | inl n ↦ rw (unsubscribe, n) (m key sid')
    | inr (st', e) ↦ elim (Bool-cases (contains same_key st'.subscriptions topic_key)) [
      | inr f ↦ rw (unsubscribe, e, f) (m key sid')
      | inl t ↦
          rw (unsubscribe, e, t)
            (ap (λ i. in_index same_key same_key-Decides i key sid') (after-topics st')
              ∙ in_index-erase same_key same_key-Decides s.topic_index topic_key key sid sid'
              ∙ one_removed (same_id sid sid') (same_key topic_key key) (listed s key sid')
                  (contains same_key st'.subscriptions key) (own s sid m key sid' e)
              ∙ ap₂ (λ x y. if same_id sid sid' then x else y)
                  (sym (contains-erase same_key same_key-Decides st'.subscriptions topic_key key))
                  (m key sid' ∙ is_subscribed_lem s sid' key)
              ∙ sym (is_subscribed_lem (after st') sid' key ∙ after-subs st' sid' key))
    ]
  ]
