-- ===== src/Connector/Dials/Calls.antt =====
-- How often the callback of a dial is called.
use network_engine_portfolio.Prelude.{
  ℕ, ◌+◌, ◌≤◌, ◌≡◌, refl, ap, sym, subst, ◌∙◌, true, false, not, ◌&&◌, ◌||◌, Option, none, some,
  List, [], ◌∷◌, ◌++◌, ◌==◌, ltb, if◌then◌else◌, arith, Bool-cases, Option-cases, inl, inr,
}
use network_engine_portfolio.Map.{Map, find, put, same_id}
use network_engine_portfolio.Map.Laws.{same_id-Decides, same_self, find-put}
use network_engine_portfolio.Map.Weight.{total, total-taken, total-put}
use network_engine_portfolio.Connector.Dials.{
  Dial, DialAct, add_fd, remove_fd, close_fd, start_later, time_out_later, call_back, refuse, Dials,
  Connect, no_socket, refused, connected, in_progress, does, store, unregister, close_socket,
  finish, finish_dial_ok, finish_dial_fail, after_connect, dial_start_attempt,
}

pub there : (m : Map ℕ Dial) (id : ℕ) (d : Dial) → find same_id (put same_id m id d) id ≡ some d
there m id d =
    find-put same_id same_id-Decides m id id d
    ∙ ap (λ b. if b then some d else find same_id m id) (same_self same_id same_id-Decides id)

module _ (c : ℕ) where
  unfoldable pub is_it : ℕ → ℕ
  is_it id = if c == id then 1 else 0

  unfoldable pub calls : List DialAct → ℕ
  calls [] = 0
  calls (call_back id _ ∷ acts) = is_it id + calls acts
  calls (add_fd _ ∷ acts) = calls acts
  calls (remove_fd _ ∷ acts) = calls acts
  calls (close_fd _ ∷ acts) = calls acts
  calls (start_later _ _ _ ∷ acts) = calls acts
  calls (time_out_later _ _ _ ∷ acts) = calls acts
  calls (refuse ∷ acts) = calls acts

  -- How often the dial stands in the table: its call is still to come.
  abbrev pub waiting : Map ℕ Dial → ℕ
  waiting m = total (λ id _. is_it id) m

  abbrev pub owed : Dials → ℕ
  owed m = calls m.acts + waiting m.dials

  pub calls-append : (xs ys : List DialAct) → calls (xs ++ ys) ≡ calls xs + calls ys
  unfolding calls
  calls-append [] ys = omega arith
  calls-append (call_back id r ∷ xs) ys = omega (arith, calls-append xs ys)
  calls-append (add_fd _ ∷ xs) ys = calls-append xs ys
  calls-append (remove_fd _ ∷ xs) ys = calls-append xs ys
  calls-append (close_fd _ ∷ xs) ys = calls-append xs ys
  calls-append (start_later _ _ _ ∷ xs) ys = calls-append xs ys
  calls-append (time_out_later _ _ _ ∷ xs) ys = calls-append xs ys
  calls-append (refuse ∷ xs) ys = calls-append xs ys

  pub calls-unregister : (d : Dial) → calls (unregister d) ≡ 0
  unfolding unregister calls
  calls-unregister d = elim (Option-cases d.sock) [
    | inl e ↦ rw (unregister, e) refl
    | inr (fd, e) ↦ elim (Bool-cases d.registered) [
      | inl t ↦ rw (unregister, e, t) refl
      | inr f ↦ rw (unregister, e, f) refl
    ]
  ]

  pub calls-close_socket : (d : Dial) → calls (close_socket d) ≡ 0
  unfolding close_socket calls
  calls-close_socket d = elim (Option-cases d.sock) [
    | inl e ↦ rw (close_socket, e) refl
    | inr (fd, e) ↦ rw (close_socket, e) refl
  ]

  pub calls-left : (d : Dial) → calls (unregister d ++ close_socket d) ≡ 0
  calls-left d = omega (
    arith,
    calls-append (unregister d) (close_socket d),
    calls-unregister d,
    calls-close_socket d,
  )

  finish-owed :
      (m : Dials) (id : ℕ) (d : Dial) (acts : List DialAct) (r : Option ℕ)
      → find same_id m.dials id ≡ some d
      → calls acts ≡ 0
      → owed (finish m id acts r) ≤ owed m
  unfolding finish calls
  finish-owed m id d acts r e silent = omega (
    arith,
    silent,
    total-taken (λ k _. is_it k) m.dials id d e,
    calls-append m.acts (acts ++ call_back id r ∷ []),
    calls-append acts (call_back id r ∷ []),
  )

  pub ok-owed :
      (session : Option ℕ) (m : Dials) (id attempt : ℕ)
      → owed (finish_dial_ok session m id attempt) ≤ owed m
  unfolding finish_dial_ok
  ok-owed session m id attempt = elim (Option-cases (find same_id m.dials id)) [
    | inl e ↦ rw (finish_dial_ok, e) (omega arith)
    | inr (d, e) ↦ elim (Bool-cases (d.completed || not (d.attempt_index == attempt))) [
      | inl t ↦ rw (finish_dial_ok, e, t) (omega arith)
      | inr f ↦
          rw (finish_dial_ok, e, f)
            (finish-owed m id d (unregister d) session e (calls-unregister d))
    ]
  ]

  pub fail-owed : (m : Dials) (id attempt : ℕ) → owed (finish_dial_fail m id attempt) ≤ owed m
  unfolding finish_dial_fail
  fail-owed m id attempt = elim (Option-cases (find same_id m.dials id)) [
    | inl e ↦ rw (finish_dial_fail, e) (omega arith)
    | inr (d, e) ↦ elim (Bool-cases (d.completed || not (d.attempt_index == attempt))) [
      | inl t ↦ rw (finish_dial_fail, e, t) (omega arith)
      | inr f ↦
          rw (finish_dial_fail, e, f)
            (finish-owed m id d (unregister d ++ close_socket d) none e (calls-left d))
    ]
  ]

  -- Acts without a callback, and a dial that is there with other members, owe no more.
  pub does-owed : (m : Dials) (acts : List DialAct) → calls acts ≡ 0 → owed (does m acts) ≤ owed m
  does-owed m acts silent = omega (arith, silent, calls-append m.acts acts)

  store-owed :
      (m : Dials) (id : ℕ) (d d' : Dial)
      → find same_id m.dials id ≡ some d
      → owed (store m id d') ≤ owed m
  store-owed m id d d' e =
      omega (
        arith,
        total-put (λ k _. is_it k) m.dials id d',
        total-taken (λ k _. is_it k) m.dials id d e,
      )

  after_connect-owed :
      (answer : Connect) (session : Option ℕ) (m : Dials) (id : ℕ) (d : Dial) (attempt : ℕ)
      → find same_id m.dials id ≡ some d
      → owed (after_connect answer session m id d attempt) ≤ owed m
  unfolding after_connect calls
  after_connect-owed no_socket session m id d attempt e = fail-owed m id attempt
  after_connect-owed (connected fd) session m id d attempt e =
      let d' : Dial = record d { sock = some fd } in
      omega (arith, ok-owed session (store m id d') id attempt, store-owed m id d d' e)
  after_connect-owed (refused fd) session m id d attempt e =
      elim (Bool-cases (d.opt.retry_once && (attempt == 0))) [
        | inl t ↦ rw t (does-owed m (start_later d.opt.retry_delay_ms id 1 ∷ close_fd fd ∷ []) refl)
        | inr f ↦ rw f (
            omega (
              arith,
              does-owed (finish_dial_fail m id attempt) (close_fd fd ∷ []) refl,
              fail-owed m id attempt,
            ))
      ]
  after_connect-owed (in_progress fd false) session m id d attempt e =
      let d' : Dial = record d { sock = none } in
      omega (
        arith,
        fail-owed (does (store m id d') (close_fd fd ∷ [])) id attempt,
        does-owed (store m id d') (close_fd fd ∷ []) refl,
        store-owed m id d d' e,
      )
  after_connect-owed (in_progress fd true) session m id d attempt e =
      let d' : Dial = record d { sock = some fd; registered = true } in
      elim (Bool-cases (ltb 0 d.opt.timeout_ms)) [
        | inl t ↦ rw t (
            omega (
              arith,
              does-owed (store m id d')
                  (add_fd fd ∷ time_out_later d.opt.timeout_ms id attempt ∷ []) refl,
              store-owed m id d d' e,
            ))
        | inr f ↦
            rw f (
              omega
                (arith, does-owed (store m id d') (add_fd fd ∷ []) refl, store-owed m id d d' e))
      ]

  pub start-owed :
      (answer : Connect) (session : Option ℕ) (m : Dials) (id attempt : ℕ)
      → owed (dial_start_attempt answer session m id attempt) ≤ owed m
  unfolding dial_start_attempt
  start-owed answer session m id attempt = elim (Option-cases (find same_id m.dials id)) [
    | inl e ↦ rw (dial_start_attempt, e) (omega arith)
    | inr (d, e) ↦ elim (Bool-cases d.completed) [
      | inl t ↦ rw (dial_start_attempt, e, t) (omega arith)
      | inr f ↦
          let d' : Dial = record d { sock = none; registered = false; attempt_index = attempt } in
          let m' : Dials = does (store m id d') (unregister d ++ close_socket d) in
          let bound = after_connect-owed answer session m' id d' attempt (there m.dials id d') in
          subst (λ m''. owed m'' ≤ owed m) (sym (by_attempt e f))
            (omega (
              arith,
              bound,
              does-owed (store m id d') (unregister d ++ close_socket d) (calls-left d),
              store-owed m id d d' e,
            ))
    ]
  ]
    where
      by_attempt :
          {d : Dial}
          → find same_id m.dials id ≡ some d
          → d.completed ≡ false
          → dial_start_attempt answer session m id attempt ≡ (
              let d' : Dial = record d {
                sock = none;
                registered = false;
                attempt_index = attempt;
              } in
              after_connect answer session
                (does (store m id d') (unregister d ++ close_socket d))
                id
                d'
                attempt)
      by_attempt {d} e f =
          rw (dial_start_attempt, e)
            (ap
              (λ b.
                if b
                then m
                else after_connect answer session
                    (does
                      (store m id
                        (record d { sock = none; registered = false; attempt_index = attempt }))
                      (unregister d ++ close_socket d))
                    id (record d { sock = none; registered = false; attempt_index = attempt })
                    attempt)
              f)
