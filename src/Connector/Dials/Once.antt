-- ===== src/Connector/Dials/Once.antt =====
-- How often the callback of a dial is called, whatever comes.
use network_engine_portfolio.Prelude.{
  ℕ, ◌+◌, ◌≤◌, ◌≡◌, refl, Bool, true, false, not, ◌&&◌, ◌||◌, Option, none, List, [], ◌∷◌, ◌++◌,
  ◌==◌, if◌then◌else◌, arith, Bool-cases, Option-cases, inl, inr, add64,
}
use network_engine_portfolio.Map.{Map, find, emplace, same_id}
use network_engine_portfolio.Map.Weight.{total, total-emplace}
use network_engine_portfolio.Connector.Dials.{
  DialOptions, Dial, start_later, refuse, Dials, Connect, SocketError, unreadable, broken, fine,
  does, unregister, close_socket, finish_dial_ok, finish_dial_fail, dial_start_attempt,
  dial_timeout, handle_event, dial_tcp_session, shut_down, shutdown_dials_in_owner_thread,
}
use network_engine_portfolio.Connector.Dials.Calls.{
  is_it, calls, waiting, owed, calls-append, calls-unregister, calls-close_socket, ok-owed,
  fail-owed, does-owed, start-owed,
}

module _ (c : ℕ) where
  timeout-owed : (m : Dials) (id expected : ℕ) → owed c (dial_timeout m id expected) ≤ owed c m
  unfolding dial_timeout calls
  timeout-owed m id expected = elim (Option-cases (find same_id m.dials id)) [
    | inl e ↦ rw (dial_timeout, e) (omega arith)
    | inr (d, e) ↦ elim (Bool-cases (d.completed || not (d.attempt_index == expected))) [
      | inl t ↦ rw (dial_timeout, e, t) (omega arith)
      | inr f ↦ elim (Bool-cases (d.opt.retry_once && (expected == 0))) [
        | inl t ↦
            rw (dial_timeout, e, f, t)
              (does-owed c m (start_later d.opt.retry_delay_ms id 1 ∷ []) refl)
        | inr g ↦ rw (dial_timeout, e, f, g) (fail-owed c m id expected)
      ]
    ]
  ]

  event-owed :
      (answer : SocketError) (session : Option ℕ) (m : Dials) (id : ℕ)
      → owed c (handle_event answer session m id) ≤ owed c m
  unfolding handle_event calls
  event-owed answer session m id = elim (Option-cases (find same_id m.dials id)) [
    | inl e ↦ rw (handle_event, e) (omega arith)
    | inr (d, e) ↦ rw (handle_event, e) (by_dial d answer)
  ]
    where
      by_answer :
          (d : Dial) (answer : SocketError)
          → owed c (elim answer [
            | unreadable ↦ finish_dial_fail m id d.attempt_index
            | broken ↦
                if d.opt.retry_once && (d.attempt_index == 0)
                then does m (start_later d.opt.retry_delay_ms id (d.attempt_index + 1) ∷ [])
                else finish_dial_fail m id d.attempt_index
            | fine ↦ finish_dial_ok session m id d.attempt_index
          ])
            ≤ owed c m
      by_answer d unreadable = fail-owed c m id d.attempt_index
      by_answer d broken = elim (Bool-cases (d.opt.retry_once && (d.attempt_index == 0))) [
        | inl t ↦
            rw t
              (does-owed c m (start_later d.opt.retry_delay_ms id (d.attempt_index + 1) ∷ []) refl)
        | inr f ↦ rw f (fail-owed c m id d.attempt_index)
      ]
      by_answer d fine = ok-owed c session m id d.attempt_index

      by_dial :
          (d : Dial) (answer : SocketError)
          → owed c (
              if d.completed then m else elim answer [
                | unreadable ↦ finish_dial_fail m id d.attempt_index
                | broken ↦
                    if d.opt.retry_once && (d.attempt_index == 0)
                    then does m (start_later d.opt.retry_delay_ms id (d.attempt_index + 1) ∷ [])
                    else finish_dial_fail m id d.attempt_index
                | fine ↦ finish_dial_ok session m id d.attempt_index
              ])
            ≤ owed c m
      by_dial d answer = elim (Bool-cases d.completed) [
        | inl t ↦ rw t (omega arith)
        | inr f ↦ rw f (by_answer d answer)
      ]

  dial-owed :
      (answer : Connect) (session : Option ℕ) (m : Dials) (opt : DialOptions) (has_callback : Bool)
      → owed c (dial_tcp_session answer session m opt has_callback)
        ≤ owed c m + is_it c m.next_dial_id
  unfolding dial_tcp_session calls
  dial-owed answer session m opt false = omega arith
  dial-owed answer session m opt true = elim (Bool-cases ((opt.host == 0) || (opt.port == 0))) [
    | inl t ↦ rw t (omega (arith, does-owed c m (refuse ∷ []) refl))
    | inr f ↦
        let d : Dial = record {
          opt = opt;
          attempt_index = 0;
          registered = false;
          completed = false;
          sock = none;
        } in
        rw f (
          omega (
            arith,
            start-owed c answer session
                (record m {
                  next_dial_id = add64 m.next_dial_id 1;
                  dials = emplace same_id m.dials m.next_dial_id d;
                })
                m.next_dial_id 0,
            total-emplace (λ k _. is_it c k) m.dials m.next_dial_id d,
          ))
  ]

  shut_down-silent : (dials : Map ℕ Dial) → calls c (shut_down dials) ≡ 0
  unfolding shut_down calls
  shut_down-silent [] = refl
  shut_down-silent ((id, d) ∷ rest) = omega (
    arith,
    shut_down-silent rest,
    calls-unregister c d,
    calls-close_socket c d,
    calls-append c (unregister d) (close_socket d ++ shut_down rest),
    calls-append c (close_socket d) (shut_down rest),
  )

  shutdown-owed : (m : Dials) → owed c (shutdown_dials_in_owner_thread m) ≤ owed c m
  unfolding shutdown_dials_in_owner_thread total
  shutdown-owed m =
      omega (arith, calls-append c m.acts (shut_down m.dials), shut_down-silent m.dials)

-- What reaches the table of dials, with what the kernel and the session manager answer.
pub data DialEvent : Type 0 where
  dials : Connect → Option ℕ → DialOptions → (has_callback : Bool) → DialEvent
  starts : Connect → Option ℕ → (id attempt : ℕ) → DialEvent
  times_out : (id attempt : ℕ) → DialEvent
  is_ready : SocketError → Option ℕ → (id : ℕ) → DialEvent
  shuts_down : DialEvent

unfoldable pub step : Dials → DialEvent → Dials
step m (dials answer session opt has_callback) = dial_tcp_session answer session m opt has_callback
step m (starts answer session id attempt) = dial_start_attempt answer session m id attempt
step m (times_out id attempt) = dial_timeout m id attempt
step m (is_ready answer session id) = handle_event answer session m id
step m shuts_down = shutdown_dials_in_owner_thread m

unfoldable pub steps : Dials → List DialEvent → Dials
steps m [] = m
steps m (e ∷ es) = steps (step m e) es

-- How often a call of `dialTcpSession` finds the id `c` to be the next one.
unfoldable begun : ℕ → Dials → DialEvent → ℕ
begun c m (dials _ _ _ _) = is_it c m.next_dial_id
begun c m _ = 0

unfoldable pub all_begun : ℕ → Dials → List DialEvent → ℕ
unfolding begun
all_begun c m [] = 0
all_begun c m (e ∷ es) = begun c m e + all_begun c (step m e) es

step-owed : (c : ℕ) (m : Dials) (e : DialEvent) → owed c (step m e) ≤ owed c m + begun c m e
unfolding step begun
step-owed c m (dials answer session opt has_callback) =
    dial-owed c answer session m opt has_callback
step-owed c m (starts answer session id attempt) =
    omega (arith, start-owed c answer session m id attempt)
step-owed c m (times_out id attempt) = omega (arith, timeout-owed c m id attempt)
step-owed c m (is_ready answer session id) = omega (arith, event-owed c answer session m id)
step-owed c m shuts_down = omega (arith, shutdown-owed c m)

-- Whatever dials, starts of attempts, timeouts, events of sockets and shutdowns come, in whatever
-- order and whatever the kernel and the session manager answer, the calls made of a dial's
-- callback and its entries in the table are together at most those from before and one for each
-- call of dialTcpSession that was given its id: the callback of a dial is called once at most.
pub steps-owed :
    (c : ℕ) (m : Dials) (es : List DialEvent)
    → calls c (steps m es).acts + waiting c (steps m es).dials
      ≤ calls c m.acts + waiting c m.dials + all_begun c m es
unfolding steps all_begun
steps-owed c m [] = omega arith
steps-owed c m (e ∷ es) = omega (arith, steps-owed c (step m e) es, step-owed c m e)
