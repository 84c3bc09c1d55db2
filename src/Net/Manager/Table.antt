-- ===== src/Net/Manager/Table.antt =====
-- What has to hold of the table of sessions between two calls, and a session's close.
use network_engine_portfolio.Prelude.{
  ℕ, ◌+◌, ◌*◌, ◌^◌, ◌≤◌, ◌<◌, ◌≡◌, ap, sym, subst, ◌∙◌, not, ◌&&◌, none, some, if◌then◌else◌, arith,
  Bool-cases, Option-cases, inl, inr, ◌⊎◌,
}
use network_engine_portfolio.Map.{Map, find, put, erase_key, same_id}
use network_engine_portfolio.Map.Laws.{same_id-Decides, find-erase_key, find-put}
use network_engine_portfolio.Map.Unique.{
  Unique, entries, erase_key-Unique, put-Unique, entries-erase_key, entries-replaced,
}
use network_engine_portfolio.Net.Session.{CloseReason, Core, begin_close}
use network_engine_portfolio.Net.Session.Send.{is_connected}
use network_engine_portfolio.Net.Session.Timeouts.{Watched}
use network_engine_portfolio.Net.Manager.{Manager, App, on_session_closed, changed, close_by_policy}

-- Whether this worker gave out an id.
abbrev pub Made : Manager → ℕ → Type 0
Made m id = (m.owner_worker_id * 2 ^ 32 ≤ id) × (id < m.owner_worker_id * 2 ^ 32 + m.local_counter)

pub record IsManager (m : Manager) : Type 0 where
  pub unique : Unique same_id same_id-Decides m.sessions
  pub made : (id : ℕ) (s : Watched) → find same_id m.sessions id ≡ some s → Made m id
  pub balance : m.opened ≡ m.ended + entries same_id same_id-Decides m.sessions

-- A key of a table with one key put in is that key, or one that was there.
pub put-cases :
    (sessions : Map ℕ Watched) (id id' : ℕ) (s s' : Watched)
    → find same_id (put same_id sessions id s) id' ≡ some s'
    → (id ≡ id') ⊎ (find same_id sessions id' ≡ some s')
put-cases sessions id id' s s' e =
    let law = find-put same_id same_id-Decides sessions id id' s in
    elim (Bool-cases (same_id id id')) [
      | inl t ↦ inl ((same_id-Decides id id').0 t)
      | inr f ↦
          inr (sym (ap (λ b. if b then some s else find same_id sessions id') f) ∙ sym law ∙ e)
    ]

erased-there :
    (sessions : Map ℕ Watched) (id id' : ℕ) (s' : Watched)
    → find same_id (erase_key same_id sessions id) id' ≡ some s'
    → find same_id sessions id' ≡ some s'
erased-there sessions id id' s' e =
    let law = find-erase_key same_id same_id-Decides sessions id id' in
    elim (Bool-cases (same_id id id')) [
      | inl t ↦
          let no : none ≡ some s' =
            sym (ap (λ b. if b then none else find same_id sessions id') t) ∙ sym law ∙ e in
          absurd cc
      | inr f ↦ sym (ap (λ b. if b then none else find same_id sessions id') f) ∙ sym law ∙ e
    ]

-- A session that is there, with other members.
replaced-IsManager :
    (m : Manager) (id : ℕ) (s s' : Watched)
    → IsManager m
    → find same_id m.sessions id ≡ some s
    → IsManager (record m { sessions = put same_id m.sessions id s' })
replaced-IsManager m id s s' v e = record {
  unique = put-Unique same_id same_id-Decides m.sessions id s' v.unique;
  made = λ id' t e'. elim (put-cases m.sessions id id' s' t e') [
    | inl same ↦ subst (Made m) same (v.made id s e)
    | inr there ↦ v.made id' t there
  ];
  balance =
      v.balance
      ∙ ap (λ n. m.ended + n)
          (sym (entries-replaced same_id same_id-Decides m.sessions id s s' v.unique e));
}

removed-IsManager :
    (m : Manager) (id : ℕ) (s : Watched)
    → IsManager m
    → find same_id m.sessions id ≡ some s
    → IsManager (record m { sessions = erase_key same_id m.sessions id; ended = m.ended + 1 })
removed-IsManager m id s v e = record {
  unique = erase_key-Unique same_id same_id-Decides m.sessions id v.unique;
  made = λ id' t e'. v.made id' t (erased-there m.sessions id id' t e');
  balance =
      omega
        (arith, v.balance, entries-erase_key same_id same_id-Decides m.sessions id s v.unique e);
}

module _ (app : App)
    (ends : (id : ℕ) (m : Manager) → IsManager m → IsManager (app.on_session_end id m)) where
  on_session_closed-IsManager :
      (m : Manager) (id : ℕ) → IsManager m → IsManager (on_session_closed app m id)
  unfolding on_session_closed
  on_session_closed-IsManager m id v = elim (Option-cases (find same_id m.sessions id)) [
    | inl e ↦ rw (on_session_closed, e) v
    | inr (s, e) ↦
        rw (on_session_closed, e)
          (ends id (record m { sessions = erase_key same_id m.sessions id; ended = m.ended + 1 })
            (removed-IsManager m id s v e))
  ]

  pub changed-IsManager :
      (m : Manager) (id : ℕ) (s : Watched) (c : Core)
      → IsManager m
      → find same_id m.sessions id ≡ some s
      → IsManager (changed app m id s c)
  unfolding changed
  changed-IsManager m id s c v e =
      let m' : Manager = record m {
        sessions = put same_id m.sessions id (record s { core = c });
      } in
      let v' = replaced-IsManager m id s (record s { core = c }) v e in
      elim (Bool-cases
        (is_connected s.core.state && (not (is_connected c.state) && s.core.has_manager))) [
          | inl t ↦ rw (changed, t) (on_session_closed-IsManager m' id v')
          | inr f ↦ rw (changed, f) v'
        ]

  -- The table stays well formed when a session is closed.
  pub close_by_policy-IsManager :
      (m : Manager) (id : ℕ) (reason : CloseReason) (err : ℕ)
      → IsManager m
      → IsManager (close_by_policy app m id reason err)
  unfolding close_by_policy
  close_by_policy-IsManager m id reason err v = elim (Option-cases (find same_id m.sessions id)) [
    | inl e ↦ rw (close_by_policy, e) v
    | inr (s, e) ↦
        rw (close_by_policy, e) (changed-IsManager m id s (begin_close s.core reason err) v e)
  ]
