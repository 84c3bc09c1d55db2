-- ===== src/Net/Manager/Accept.antt =====
-- A new connection in the table of sessions.
use network_engine_portfolio.Prelude.{
  ℕ, ◌+◌, ◌^◌, ◌<◌, ◌≡◌, Bool, Option, none, [], arith, Bool-cases, Option-cases, inl, inr, add64,
}
use network_engine_portfolio.Map.{Map, find, put, emplace, same_id}
use network_engine_portfolio.Map.Laws.{same_id-Decides}
use network_engine_portfolio.Map.Unique.{put-Unique, entries-added}
use network_engine_portfolio.Net.Session.Timeouts.{Watched, start_timeouts}
use network_engine_portfolio.Net.Manager.{Manager, App, next_session_id, on_accepted}
use network_engine_portfolio.Net.Manager.Ids.{next_session_id-layout}
use network_engine_portfolio.Net.Manager.Table.{Made, IsManager, put-cases}

module _ (m : Manager) (v : IsManager m) (small : m.owner_worker_id < 2 ^ 32)
    (counter : m.local_counter < 2 ^ 32) where
  abbrev id : ℕ
  id = (next_session_id m).0

  next-unused : find same_id m.sessions id ≡ none
  next-unused = elim (Option-cases (find same_id m.sessions id)) [
    | inl e ↦ e
    | inr (s, e) ↦ absurd (omega (arith, next_session_id-layout m small counter, (v.made id s e).1))
  ]

  -- What an id given out, with or without a session for it, leaves.
  abbrev numbered : Map ℕ Watched → ℕ → ℕ → Manager
  numbered sessions opened errors = record m {
    local_counter = add64 m.local_counter 1;
    sessions = sessions;
    opened = opened;
    errors = errors;
  }

  later : (id' : ℕ) → Made m id' → Made (numbered [] 0 0) id'
  later id' (low, high) = (low, omega (arith, high))

  unopened-IsManager : IsManager (numbered m.sessions m.opened (m.errors + 1))
  unopened-IsManager = record {
    unique = v.unique;
    made = λ id' t e. later id' (v.made id' t e);
    balance = v.balance;
  }

  opened-IsManager :
      (s : Watched) → IsManager (numbered (put same_id m.sessions id s) (m.opened + 1) m.errors)
  opened-IsManager s = record {
    unique = put-Unique same_id same_id-Decides m.sessions id s v.unique;
    made = λ id' t e. elim (put-cases m.sessions id id' s t e) [
      | inl same ↦
          let layout = next_session_id-layout m small counter in
          (omega (arith, layout, same), omega (arith, layout, same))
      | inr there ↦ later id' (v.made id' t there)
    ];
    balance =
        omega (arith, v.balance, entries-added same_id same_id-Decides m.sessions id s next-unused);
  }

  module _ (app : App)
      (starts : (id : ℕ) (m : Manager) → IsManager m → IsManager (app.on_session_start id m)) where
    -- If no id stands twice in the table of sessions, all were given out by this worker, and the
    -- connections opened are those ended and those in the table, then this holds after a new
    -- connection, whether its session was created and registered or not, as long as the worker's
    -- number and the counter are below 2^32 and the application's callback keeps it.
    pub on_accepted-IsManager :
        (made : ℕ → Option Watched) (added : Bool) (now : ℕ)
        → IsManager (on_accepted app made added now m).1
    unfolding on_accepted next_session_id emplace
    on_accepted-IsManager made added now = elim (Option-cases (made id)) [
      | inl e ↦ rw (on_accepted, e) unopened-IsManager
      | inr (s, e) ↦ elim (Bool-cases added) [
        | inl t ↦
            rw (on_accepted, e, t, emplace, next-unused)
              (starts id _
                (opened-IsManager (start_timeouts s m.idle_timeout_ms m.heartbeat_interval_ms now)))
        | inr f ↦ rw (on_accepted, e, f) unopened-IsManager
      ]
    ]
