-- ===== src/Net/Manager/Policy.antt =====
-- Closing the sessions of a worker by policy.
use network_engine_portfolio.Prelude.{
  ℕ, ◌≡◌, refl, ap, ap₂, sym, ◌∙◌, Bool, true, false, not, ◌&&◌, Option, none, some, List, [], ◌∷◌,
  if◌then◌else◌, Bool-cases, Option-cases, inl, inr,
}
use network_engine_portfolio.Map.{Map, find, put, erase_key, contains, same_id}
use network_engine_portfolio.Map.Laws.{same_id-Decides, find-erase_key, find-put, same_self}
use network_engine_portfolio.Net.Session.{connected, CloseReason, begin_close}
use network_engine_portfolio.Net.Session.Send.{is_connected}
use network_engine_portfolio.Net.Session.Timeouts.{Watched}
use network_engine_portfolio.Net.Session.Timeouts.Idle.{begin_close-closed}
use network_engine_portfolio.Net.Manager.{
  Manager, App, keys, on_session_closed, changed, close_by_policy, close_ids, close_all_by_policy,
}

-- A session that is connected and whose manager is told of its end.
abbrev pub Up : Watched → Type 0
Up s = (s.core.state ≡ connected) × (s.core.has_manager ≡ true)

abbrev pub AllUp : Map ℕ Watched → Type 0
AllUp sessions = (id : ℕ) (s : Watched) → find same_id sessions id ≡ some s → Up s

-- `quiet`: the callback for a session's end leaves the table alone.
module _ (app : App)
    (quiet : (id : ℕ) (m : Manager) → (app.on_session_end id m).sessions ≡ m.sessions)
    (reason : CloseReason) (err : ℕ) where
  told :
      (s : Watched)
      → Up s
      → (is_connected s.core.state
          && (not (is_connected (begin_close s.core reason err).state) && s.core.has_manager))
        ≡ true
  told s (up, managed) =
      ap₂ (λ a b. is_connected a && b) up
        (ap₂ (λ a b. not (is_connected a) && b) (begin_close-closed s.core reason err up) managed)

  there :
      (m : Manager) (id : ℕ) (s : Watched) → find same_id (put same_id m.sessions id s) id ≡ some s
  there m id s =
      find-put same_id same_id-Decides m.sessions id id s
      ∙ ap (λ b. if b then some s else find same_id m.sessions id)
          (same_self same_id same_id-Decides id)

  closed-sessions :
      (m : Manager) (id : ℕ) (s : Watched)
      → find same_id m.sessions id ≡ some s
      → Up s
      → (close_by_policy app m id reason err).sessions
        ≡ erase_key same_id
            (put same_id m.sessions id (record s { core = begin_close s.core reason err }))
            id
  unfolding close_by_policy changed on_session_closed
  closed-sessions m id s e up =
      rw
        (
          close_by_policy,
          e,
          changed,
          told s up,
          on_session_closed,
          there m id (record s { core = begin_close s.core reason err }),
        )
        (quiet id _)

  -- Of connected sessions, a close by policy takes the one that it names.
  pub closed-find :
      (m : Manager) (id id' : ℕ)
      → AllUp m.sessions
      → find same_id (close_by_policy app m id reason err).sessions id'
        ≡ (if same_id id id' then none else find same_id m.sessions id')
  unfolding close_by_policy
  closed-find m id id' up = elim (Option-cases (find same_id m.sessions id)) [
    | inl e ↦
        rw (close_by_policy, e)
          (elim (Bool-cases (same_id id id')) [
            | inl t ↦ rw t (ap (find same_id m.sessions) (sym ((same_id-Decides id id').0 t)) ∙ e)
            | inr f ↦ rw f refl
          ])
    | inr (s, e) ↦
        ap (λ t. find same_id t id') (closed-sessions m id s e (up id s e))
        ∙ find-erase_key same_id same_id-Decides
            (put same_id m.sessions id (record s { core = begin_close s.core reason err })) id id'
        ∙ elim (Bool-cases (same_id id id')) [
          | inl t ↦ rw t refl
          | inr f ↦
              rw
                (
                  f,
                  find-put same_id same_id-Decides m.sessions id id'
                      (record s { core = begin_close s.core reason err }),
                  f,
                )
                refl
        ]
  ]

  still_up :
      (m : Manager) (id : ℕ)
      → AllUp m.sessions
      → AllUp (close_by_policy app m id reason err).sessions
  still_up m id up id' s e =
      let law = closed-find m id id' up in
      elim (Bool-cases (same_id id id')) [
        | inl t ↦
            let no : none ≡ some s =
              sym (ap (λ b. if b then none else find same_id m.sessions id') t) ∙ sym law ∙ e in
            absurd cc
        | inr f ↦
            up id' s
              (sym (ap (λ b. if b then none else find same_id m.sessions id') f) ∙ sym law ∙ e)
      ]

  closed-ids :
      (m : Manager) (ids : List ℕ) (id' : ℕ)
      → AllUp m.sessions
      → find same_id (close_ids app m ids reason err).sessions id'
        ≡ (if contains same_id ids id' then none else find same_id m.sessions id')
  unfolding close_ids contains
  closed-ids m [] id' up = refl
  closed-ids m (id ∷ ids) id' up =
      closed-ids (close_by_policy app m id reason err) ids id' (still_up m id up)
      ∙ elim (Bool-cases (same_id id id')) [
        | inl t ↦ rw (closed-find m id id' up, t) (either (contains same_id ids id'))
        | inr f ↦ rw (closed-find m id id' up, f) refl
      ]
    where
      either : (b : Bool) → Path (Option Watched) (if b then none else none) none
      either true = refl
      either false = refl

  key-contained :
      (sessions : Map ℕ Watched) (id : ℕ)
      → (if contains same_id (keys app sessions) id then none else find same_id sessions id) ≡ none
  unfolding contains find
  key-contained [] id = refl
  key-contained ((x, s) ∷ sessions) id =
      let rest = key-contained sessions id in
      elim (Bool-cases (same_id x id)) [ inl t ↦ rw t refl | inr f ↦ rw f rest ]

  -- If every session of the table is connected and tells its manager of its end, and the
  -- application's callback for that leaves the table alone, then after closeAllByPolicy no id has
  -- a session.
  pub close_all_by_policy-empties :
      (m : Manager) (id : ℕ)
      → AllUp m.sessions
      → find same_id (close_all_by_policy app m reason err).sessions id ≡ none
  unfolding close_all_by_policy
  close_all_by_policy-empties m id up =
      closed-ids m (keys app m.sessions) id up ∙ key-contained m.sessions id
