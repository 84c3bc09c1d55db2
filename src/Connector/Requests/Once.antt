-- ===== src/Connector/Requests/Once.antt =====
-- How often the callback of a request is called.
use network_engine_portfolio.Prelude.{
  ℕ, ◌+◌, ◌≤◌, ◌≡◌, ◌&&◌, Option, none, some, List, [], ◌∷◌, ◌++◌, ◌==◌, if◌then◌else◌, arith,
  Bool-cases, Option-cases, inl, inr, add64,
}
use network_engine_portfolio.Map.{Map, find, put, emplace, erase_key, contains, same_id}
use network_engine_portfolio.Map.Weight.{total, total-taken, total-put, total-emplace}
use network_engine_portfolio.Connector.Requests.{
  SendOptions, Response, fail, Pending, Act, timer, send, call_back, Requests, resolve_timeout,
  run_callback, on_complete, start_attempt, on_timeout, send_async, Event, sends, completes,
  times_out, handle, handle_all,
}

module _ (c : ℕ) where
  -- Whether a callback is the one looked for.
  unfoldable pub is_it : Option ℕ → ℕ
  is_it none = 0
  is_it (some d) = if c == d then 1 else 0

  unfoldable pub calls : List Act → ℕ
  calls [] = 0
  calls (call_back d _ ∷ acts) = is_it (some d) + calls acts
  calls (timer _ _ _ ∷ acts) = calls acts
  calls (send _ _ _ _ ∷ acts) = calls acts

  abbrev pub waiting : Map ℕ Pending → ℕ
  waiting m = total (λ _ p. is_it p.cb) m

  unfoldable pub given : List Event → ℕ
  given [] = 0
  given (sends _ _ _ cb ∷ es) = is_it cb + given es
  given (completes _ _ _ ∷ es) = given es
  given (times_out _ _ ∷ es) = given es

  -- The calls made and the calls that are still to come.
  abbrev owed : Requests → ℕ
  owed m = calls m.acts + waiting m.pending

  calls-append : (xs ys : List Act) → calls (xs ++ ys) ≡ calls xs + calls ys
  unfolding calls
  calls-append [] ys = omega arith
  calls-append (call_back d r ∷ xs) ys = omega (arith, calls-append xs ys)
  calls-append (timer _ _ _ ∷ xs) ys = calls-append xs ys
  calls-append (send _ _ _ _ ∷ xs) ys = calls-append xs ys

  run_callback-owed :
      (m : Requests) (cb : Option ℕ) (r : Response) → owed (run_callback m cb r) ≡ owed m + is_it cb
  unfolding run_callback is_it calls
  run_callback-owed m none r = omega arith
  run_callback-owed m (some d) r = omega (arith, calls-append m.acts (call_back d r ∷ []))

  on_complete-owed :
      (m : Requests) (id attempt : ℕ) (r : Response) → owed (on_complete m id attempt r) ≤ owed m
  unfolding on_complete
  on_complete-owed m id attempt r = elim (Option-cases (find same_id m.pending id)) [
    | inl e ↦ rw (on_complete, e) (omega arith)
    | inr (p, e) ↦
        let taken = total-taken (λ _ q. is_it q.cb) m.pending id p e in
        elim (Bool-cases (attempt == p.attempt)) [
          | inl t ↦
              rw (on_complete, e, t)
                (omega (
                  arith,
                  taken,
                  run_callback-owed (record m { pending = erase_key same_id m.pending id }) p.cb r,
                ))
          | inr f ↦ rw (on_complete, e, f) (omega (arith, taken))
        ]
  ]

  start_attempt-owed : (m : Requests) (id : ℕ) → owed (start_attempt m id) ≤ owed m
  unfolding start_attempt calls
  start_attempt-owed m id = elim (Option-cases (find same_id m.pending id)) [
    | inl e ↦ rw (start_attempt, e) (omega arith)
    | inr (p, e) ↦ elim (Bool-cases (contains same_id m.connectors p.connector_name)) [
      | inl t ↦
          rw (start_attempt, e, t)
            (omega (
              arith,
              calls-append (m.acts ++ timer p.timeout_resolved id p.attempt ∷ [])
                  (send p.connector_name id p.attempt p.request ∷ []),
              calls-append m.acts (timer p.timeout_resolved id p.attempt ∷ []),
            ))
      | inr f ↦ rw (start_attempt, e, f) (on_complete-owed m id p.attempt fail)
    ]
  ]

  on_timeout-owed : (m : Requests) (id attempt : ℕ) → owed (on_timeout m id attempt) ≤ owed m
  unfolding on_timeout
  on_timeout-owed m id attempt = elim (Option-cases (find same_id m.pending id)) [
    | inl e ↦ rw (on_timeout, e) (omega arith)
    | inr (p, e) ↦ elim (Bool-cases (p.attempt == attempt)) [
      | inl t ↦ elim (Bool-cases (p.opt.retry_once && (p.attempt == 0))) [
        | inl u ↦
            let retried : Requests = record m {
              pending = put same_id m.pending id (record p { attempt = 1 });
            } in
            rw (on_timeout, e, t, u)
              (omega (
                arith,
                start_attempt-owed retried id,
                total-put (λ _ q. is_it q.cb) m.pending id (record p { attempt = 1 }),
                total-taken (λ _ q. is_it q.cb) m.pending id p e,
              ))
        | inr g ↦ rw (on_timeout, e, t, g) (on_complete-owed m id p.attempt fail)
      ]
      | inr f ↦ rw (on_timeout, e, f) (omega arith)
    ]
  ]

  send_async-owed :
      (m : Requests) (name : ℕ) (opt : SendOptions) (request : List ℕ) (cb : Option ℕ)
      → owed (send_async m name opt request cb) ≤ owed m + is_it cb
  unfolding send_async
  send_async-owed m name opt request cb = elim (Bool-cases (contains same_id m.connectors name)) [
    | inl t ↦
        rw (send_async, t)
          (omega (
            arith,
            start_attempt-owed
                (record m {
                  next_request_id = add64 m.next_request_id 1;
                  pending = emplace same_id m.pending m.next_request_id fresh;
                })
                m.next_request_id,
            total-emplace (λ _ q. is_it q.cb) m.pending m.next_request_id fresh,
          ))
    | inr f ↦ rw (send_async, f) (omega (arith, run_callback-owed m cb fail))
  ]
    where
      fresh : Pending
      fresh = record {
        connector_name = name;
        opt = opt;
        request = request;
        cb = cb;
        attempt = 0;
        timeout_resolved = resolve_timeout m opt;
      }

  -- Whatever calls of sendAsync, completions and timeouts come, in whatever order and with
  -- whatever ids and attempts, the calls made of a callback and the pending requests that hold it
  -- are together at most those from before and one for each call of sendAsync that brought it: a
  -- callback is called once at most for each request.
  pub handle_all-owed :
      (m : Requests) (es : List Event) → owed (handle_all m es) ≤ owed m + given es
  unfolding handle_all handle given
  handle_all-owed m [] = omega arith
  handle_all-owed m (sends name opt request cb ∷ es) = omega (
    arith,
    handle_all-owed (send_async m name opt request cb) es,
    send_async-owed m name opt request cb,
  )
  handle_all-owed m (completes id attempt r ∷ es) =
      omega
        (arith, handle_all-owed (on_complete m id attempt r) es, on_complete-owed m id attempt r)
  handle_all-owed m (times_out id attempt ∷ es) =
      omega (arith, handle_all-owed (on_timeout m id attempt) es, on_timeout-owed m id attempt)
