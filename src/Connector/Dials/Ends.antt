-- ===== src/Connector/Dials/Ends.antt =====
-- How a dial ends that gets no answer.
use network_engine_portfolio.Prelude.{
  ℕ, ◌+◌, ◌≡◌, ◌⊎◌, refl, ap, sym, subst, ◌∙◌, Bool, true, false, not, ◌&&◌, ◌||◌, Option, none,
  some, List, [], ◌∷◌, ◌++◌, ◌==◌, ltb, if◌then◌else◌, arith, Bool-cases, inl, inr,
}
use network_engine_portfolio.Map.{find, same_id}
use network_engine_portfolio.Map.Laws.{same_id-Decides, same_self, find-erase_key}
use network_engine_portfolio.Connector.Dials.{
  Dial, DialAct, close_fd, start_later, call_back, Dials, Connect, no_socket, refused, connected,
  in_progress, does, store, unregister, close_socket, finish, finish_dial_ok, finish_dial_fail,
  after_connect, dial_start_attempt, dial_timeout,
}
use network_engine_portfolio.Connector.Dials.Calls.{
  there, is_it, calls, calls-append, calls-unregister, calls-left,
}

module _ (id : ℕ) where
  -- The dial is gone, and its callback was called once.
  abbrev pub Ended : Dials → Dials → Type 0
  Ended m m' = (find same_id m'.dials id ≡ none) × (calls id m'.acts ≡ calls id m.acts + 1)

  -- The dial is there, in an attempt that is not over.
  abbrev pub Under : Dial → Dials → ℕ → Type 0
  Under d m attempt =
      (find same_id m.dials id ≡ some d)
      × ((d.completed || not (d.attempt_index == attempt)) ≡ false)

  finish-Ended :
      (m : Dials) (acts : List DialAct) (r : Option ℕ)
      → calls id acts ≡ 0
      → Ended m (finish m id acts r)
  unfolding finish calls is_it
  finish-Ended m acts r silent = (
    find-erase_key same_id same_id-Decides m.dials id id
        ∙ ap (λ b. if b then none else find same_id m.dials id) self,
    omega (
      arith,
      silent,
      one,
      calls-append id m.acts (acts ++ call_back id r ∷ []),
      calls-append id acts (call_back id r ∷ []),
    ),
  )
    where
      self : same_id id id ≡ true
      self = same_self same_id same_id-Decides id

      one : Path ℕ (if id == id then 1 else 0) 1
      one = rw self refl

  fail-Ended :
      (m : Dials) (d : Dial) (attempt : ℕ)
      → Under d m attempt
      → Ended m (finish_dial_fail m id attempt)
  unfolding finish_dial_fail
  fail-Ended m d attempt (e, going) =
      rw (finish_dial_fail, e, going)
        (finish-Ended m (unregister d ++ close_socket d) none (calls-left id d))

  ok-Ended :
      (session : Option ℕ) (m : Dials) (d : Dial) (attempt : ℕ)
      → Under d m attempt
      → Ended m (finish_dial_ok session m id attempt)
  unfolding finish_dial_ok
  ok-Ended session m d attempt (e, going) =
      rw (finish_dial_ok, e, going) (finish-Ended m (unregister d) session (calls-unregister id d))

  last-timeout : (m : Dials) (d : Dial) → Under d m 1 → Ended m (dial_timeout m id 1)
  unfolding dial_timeout
  last-timeout m d (e, going) = rw (dial_timeout, e, going) (only_fails d.opt.retry_once)
    where
      only_fails :
          (b : Bool)
          → Ended m (
              if b && false
              then does m (start_later d.opt.retry_delay_ms id 1 ∷ [])
              else finish_dial_fail m id 1)
      only_fails true = fail-Ended m d 1 (e, going)
      only_fails false = fail-Ended m d 1 (e, going)

  gone-timeout :
      (m : Dials) (attempt : ℕ) → find same_id m.dials id ≡ none → dial_timeout m id attempt ≡ m
  unfolding dial_timeout
  gone-timeout m attempt e = rw (dial_timeout, e) refl

  calls-does :
      (m : Dials) (acts : List DialAct)
      → calls id acts ≡ 0
      → calls id (does m acts).acts ≡ calls id m.acts
  calls-does m acts silent = omega (arith, silent, calls-append id m.acts acts)

  -- What the second attempt comes to: the end, or an attempt that goes on.
  Second : Dials → Dials → Type 0
  Second m m' = Ended m m' ⊎ ((d' : Dial) × Under d' m' 1 × (calls id m'.acts ≡ calls id m.acts))

  after_connect-Second :
      (answer : Connect) (session : Option ℕ) (m : Dials) (d : Dial)
      → find same_id m.dials id ≡ some d
      → d.completed ≡ false
      → d.attempt_index ≡ 1
      → Second m (after_connect answer session m id d 1)
  unfolding Second after_connect calls
  after_connect-Second answer session m d e fresh first = go answer
    where
      going : (d.completed || not (d.attempt_index == 1)) ≡ false
      going = rw (fresh, first) refl

      refused_ends :
          (fd : ℕ) (b : Bool)
          → Ended m (
              if b && false
              then does m (start_later d.opt.retry_delay_ms id 1 ∷ close_fd fd ∷ [])
              else does (finish_dial_fail m id 1) (close_fd fd ∷ []))
      refused_ends fd b =
          let (gone, once) = fail-Ended m d 1 (e, going) in
          let after : Ended m (does (finish_dial_fail m id 1) (close_fd fd ∷ [])) = (
            gone,
            omega (arith, once, calls-does (finish_dial_fail m id 1) (close_fd fd ∷ []) refl),
          ) in
          elim (Bool-cases b) [ inl t ↦ rw t after | inr f ↦ rw f after ]

      not_added :
          (fd : ℕ)
          → Ended m (
              finish_dial_fail
                (does (store m id (record d { sock = none })) (close_fd fd ∷ []))
                id
                1)
      not_added fd =
          let m' : Dials = store m id (record d { sock = none }) in
          let (gone, once) =
            fail-Ended (does m' (close_fd fd ∷ [])) (record d { sock = none }) 1
              (there m.dials id _, going) in
          (gone, omega (arith, once, calls-does m' (close_fd fd ∷ []) refl))

      watched : ℕ → Dial
      watched fd = record d { sock = some fd; registered = true }

      silent :
          (fd : ℕ)
          → calls id (after_connect (in_progress fd true) session m id d 1).acts ≡ calls id m.acts
      silent fd =
          calls-does (store m id (watched fd)) _
            (elim (Bool-cases (ltb 0 d.opt.timeout_ms)) [ inl t ↦ rw t refl | inr f ↦ rw f refl ])

      go : (answer : Connect) → Second m (after_connect answer session m id d 1)
      go no_socket = inl (fail-Ended m d 1 (e, going))
      go (refused fd) = inl (refused_ends fd d.opt.retry_once)
      go (connected fd) =
          let d' : Dial = record d { sock = some fd } in
          inl (ok-Ended session (store m id d') d' 1 (there m.dials id d', going))
      go (in_progress fd false) = inl (not_added fd)
      go (in_progress fd true) = inr (watched fd, (there m.dials id (watched fd), going), silent fd)

  start-Second :
      (answer : Connect) (session : Option ℕ) (m : Dials) (d : Dial)
      → find same_id m.dials id ≡ some d
      → d.completed ≡ false
      → Second m (dial_start_attempt answer session m id 1)
  unfolding Second dial_start_attempt
  start-Second answer session m d e fresh = subst (Second m) (sym started) (elim next [
    | inl (gone, once) ↦ inl (gone, omega (arith, once, quiet))
    | inr (d', under, same) ↦ inr (d', under, same ∙ quiet)
  ])
    where
      d' : Dial
      d' = record d { sock = none; registered = false; attempt_index = 1 }

      m' : Dials
      m' = does (store m id d') (unregister d ++ close_socket d)

      quiet : calls id m'.acts ≡ calls id m.acts
      quiet = calls-does (store m id d') (unregister d ++ close_socket d) (calls-left id d)

      next : Second m' (after_connect answer session m' id d' 1)
      next = after_connect-Second answer session m' d' (there m.dials id d') fresh refl

      started : dial_start_attempt answer session m id 1 ≡ after_connect answer session m' id d' 1
      started =
          rw (dial_start_attempt, e)
            (ap (λ b. if b then m else after_connect answer session m' id d' 1) fresh)

  gone-start :
      (answer : Connect) (session : Option ℕ) (m : Dials) (attempt : ℕ)
      → find same_id m.dials id ≡ none
      → dial_start_attempt answer session m id attempt ≡ m
  unfolding dial_start_attempt
  gone-start answer session m attempt e = rw (dial_start_attempt, e) refl

  -- The timeout of the second attempt, if it comes to that.
  Second-Ended : (m m' : Dials) → Second m m' → Ended m (dial_timeout m' id 1)
  unfolding Second
  Second-Ended m m' (inl (gone, once)) = subst (Ended m) (sym (gone-timeout m' 1 gone)) (gone, once)
  Second-Ended m m' (inr (d', under, same)) =
      let (gone, once) = last-timeout m' d' under in (gone, omega (arith, once, same))

  first-timeout :
      (m : Dials) (d : Dial)
      → Under d m 0
      → dial_timeout m id 0 ≡ (
          if d.opt.retry_once && true
          then does m (start_later d.opt.retry_delay_ms id 1 ∷ [])
          else finish_dial_fail m id 0)
  unfolding dial_timeout
  first-timeout m d (e, going) = rw (dial_timeout, e, going) refl

  -- A dial in its first attempt whose timeout runs, and then, if it comes to that, the second
  -- attempt starts and its timeout runs, is gone from the table afterwards and its callback was
  -- called exactly once, whatever the kernel and the session manager answered to the second
  -- attempt.
  pub dial-Ended :
      (answer : Connect) (session : Option ℕ) (m : Dials) (d : Dial)
      → find same_id m.dials id ≡ some d
      → d.completed ≡ false
      → d.attempt_index ≡ 0
      → Ended m (dial_timeout (dial_start_attempt answer session (dial_timeout m id 0) id 1) id 1)
  unfolding calls
  dial-Ended answer session m d e fresh first = elim (Bool-cases d.opt.retry_once) [
    | inl t ↦
        let (gone, once) = Second-Ended retried _ (start-Second answer session retried d e fresh) in
        subst after_timeout (sym (outcome t)) (
          gone,
          omega (arith, once, calls-does m (start_later d.opt.retry_delay_ms id 1 ∷ []) refl),
        )
    | inr f ↦
        let over = fail-Ended m d 0 (e, going) in
        let same = gone-start answer session failed 1 over.0 in
        subst after_timeout (sym (outcome f)) (
          subst (λ m'. Ended m (dial_timeout m' id 1)) (sym same)
            (subst (Ended m) (sym (gone-timeout failed 1 over.0)) over))
  ]
    where
      after_timeout : Dials → Type 0
      after_timeout m' = Ended m (dial_timeout (dial_start_attempt answer session m' id 1) id 1)

      retried : Dials
      retried = does m (start_later d.opt.retry_delay_ms id 1 ∷ [])

      failed : Dials
      failed = finish_dial_fail m id 0

      going : (d.completed || not (d.attempt_index == 0)) ≡ false
      going = rw (fresh, first) refl

      outcome :
          {b : Bool}
          → d.opt.retry_once ≡ b
          → dial_timeout m id 0 ≡ (if b && true then retried else failed)
      outcome t = first-timeout m d (e, going) ∙ ap (λ b. if b && true then retried else failed) t
