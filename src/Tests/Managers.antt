-- ===== src/Tests/Managers.antt =====
-- The sessions of a worker and the table of handlers at concrete inputs.
use network_engine_portfolio.Prelude.{
  ℕ, ◌*◌, ◌+◌, ◌^◌, ◌≡◌, refl, ap, sym, true, false, List, [], ◌∷◌, some, none, arith,
  if◌then◌else◌, Bool-cases, inl, inr,
}
use network_engine_portfolio.Map.{find, same_id}
use network_engine_portfolio.Map.Laws.{same_id-Decides}
use network_engine_portfolio.Map.Unique.{Unique, entries}
use network_engine_portfolio.Protocol.Dispatch.{dispatch, register_all, is_some, dispatch-first}
use network_engine_portfolio.Net.Session.{connected, policy_close}
use network_engine_portfolio.Net.Session.Timeouts.{Watched}
use network_engine_portfolio.Net.Manager.{
  Manager, App, on_accepted, close_all_by_policy, dispatch_on_message,
}
use network_engine_portfolio.Net.Manager.Table.{IsManager}
use network_engine_portfolio.Net.Manager.Accept.{on_accepted-IsManager}
use network_engine_portfolio.Net.Manager.Messages.{Returns, dispatch_on_message-IsManager}
use network_engine_portfolio.Net.Manager.Policy.{AllUp, close_all_by_policy-empties}

-- Opcode 5 is registered twice.
dispatch-first_example : dispatch (register_all [] ((5, 1) ∷ (6, 2) ∷ (5, 3) ∷ [])) 5 ≡ (
    if is_some (dispatch [] 5)
    then dispatch [] 5
    else find same_id ((5, 1) ∷ (6, 2) ∷ (5, 3) ∷ []) 5)
dispatch-first_example = dispatch-first [] ((5, 1) ∷ (6, 2) ∷ (5, 3) ∷ []) 5

abbrev watched : Watched
watched = record {
  core = record {
    state = connected;
    send_ring = none;
    fd = some 7;
    write_interest = false;
    has_manager = true;
    log = [];
  };
  watch = record {
    idle_timeout_ms = 0;
    heartbeat_interval_ms = 0;
    last_rx_at = 0;
    idle_timer_armed = false;
    heartbeat_timer_armed = false;
  };
  timers = [];
}

-- The first id of worker 2.
abbrev first_id : ℕ
first_id = 2 * 2 ^ 32 + 1

abbrev manager : Manager
manager = record {
  owner_worker_id = 2;
  local_counter = 2;
  idle_timeout_ms = 10;
  heartbeat_interval_ms = 0;
  handlers = (5, 1) ∷ [];
  sessions = (first_id, watched) ∷ [];
  opened = 1;
  ended = 0;
  errors = 0;
  received = 0;
}

-- An application that counts its messages in `received`.
abbrev app : App
app = record {
  on_session_start = λ id m. m;
  on_session_end = λ id m. m;
  on_message = λ handler sid body m. record m { received = m.received + 1 };
}

only_first :
    (id : ℕ) (s : Watched)
    → find same_id ((first_id, watched) ∷ []) id ≡ some s
    → (first_id ≡ id) × (watched ≡ s)
unfolding find
only_first id s e = elim (Bool-cases (same_id first_id id)) [
  | inl t ↦ ((same_id-Decides first_id id).0 t, cc)
  | inr f ↦ let e' = rw f at e in absurd cc
]

manager-IsManager : IsManager manager
unfolding Unique entries find
manager-IsManager = record {
  unique = (refl, tt);
  made = λ id s e. let same = (only_first id s e).0 in (omega (arith, same), omega (arith, same));
  balance = refl;
}

on_accepted-IsManager_example :
    IsManager (on_accepted app (λ id. some watched) true 1_000 manager).1
on_accepted-IsManager_example =
    on_accepted-IsManager manager manager-IsManager (omega arith) (omega arith) app (λ id m v. v)
      (λ id. some watched) true 1_000

counted :
    (handler sid : ℕ) (body : List ℕ) (m : Manager)
    → IsManager m
    → IsManager (record m { received = m.received + 1 })
counted handler sid body m v = record { unique = v.unique; made = v.made; balance = v.balance }

dispatch_on_message-IsManager_example :
    Returns
      (λ (out : Manager × List ℕ). IsManager out.0)
      (dispatch_on_message app (λ fd enable. none) [] manager [] first_id (0 ∷ 6 ∷ 9 ∷ []))
dispatch_on_message-IsManager_example =
    dispatch_on_message-IsManager app (λ id m v. v) counted (λ fd enable. none) [] manager []
      first_id (0 ∷ 6 ∷ 9 ∷ []) manager-IsManager

all_up : AllUp manager.sessions
all_up id s e =
    let same = (only_first id s e).1 in
    (sym (ap (λ w. w.core.state) same), sym (ap (λ w. w.core.has_manager) same))

close_all_by_policy-empties_example :
    find same_id (close_all_by_policy app manager policy_close 0).sessions first_id ≡ none
close_all_by_policy-empties_example =
    close_all_by_policy-empties app (λ id m. refl) policy_close 0 manager first_id all_up
