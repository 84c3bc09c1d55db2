-- ===== src/Connector/Requests/Stale.antt =====
-- What comes of a request: an answer, none, or one for another attempt than the one under way.
use network_engine_portfolio.Prelude.{
  ℕ, ◌≡◌, refl, Bool, true, false, ◌&&◌, none, some, List, [], ◌∷◌, ◌++◌, ◌==◌, if◌then◌else◌,
  Bool-cases, inl, inr, ap, sym, ◌∙◌, ap₂, ==_iff,
}
use network_engine_portfolio.Map.{Map, find, put, erase_key, contains, same_id}
use network_engine_portfolio.Map.Laws.{same_id-Decides, same_self, find-erase_key, find-put}
use network_engine_portfolio.Connector.Requests.{
  Response, fail, Pending, timer, send, call_back, Requests, does, run_callback, on_complete,
  start_attempt, on_timeout,
}

-- What can come for a request after it was sent.
pub data Later : Type 0 where
  answer : (attempt : ℕ) → Response → Later
  late : (attempt : ℕ) → Later

unfoldable pub receive : Requests → ℕ → Later → Requests
receive m id (answer attempt r) = on_complete m id attempt r
receive m id (late attempt) = on_timeout m id attempt

unfoldable pub receive_all : Requests → ℕ → List Later → Requests
receive_all m id [] = m
receive_all m id (l ∷ ls) = receive_all (receive m id l) id ls

-- Nothing is done for a request that is not pending.
pub gone-receive_all :
    (m : Requests) (id : ℕ) (ls : List Later)
    → find same_id m.pending id ≡ none
    → receive_all m id ls ≡ m
unfolding receive_all receive on_complete on_timeout
gone-receive_all m id [] e = refl
gone-receive_all m id (answer attempt r ∷ ls) e =
    ap (λ m'. receive_all m' id ls) (rw (on_complete, e) refl) ∙ gone-receive_all m id ls e
gone-receive_all m id (late attempt ∷ ls) e =
    ap (λ m'. receive_all m' id ls) (rw (on_timeout, e) refl) ∙ gone-receive_all m id ls e

gone-erase_key : (m : Map ℕ Pending) (id : ℕ) → find same_id (erase_key same_id m id) id ≡ none
gone-erase_key m id =
    find-erase_key same_id same_id-Decides m id id
    ∙ ap (λ b. if b then none else find same_id m id) (same_self same_id same_id-Decides id)

there-put :
    (m : Map ℕ Pending) (id : ℕ) (p : Pending) → find same_id (put same_id m id p) id ≡ some p
there-put m id p =
    find-put same_id same_id-Decides m id id p
    ∙ ap (λ b. if b then some p else find same_id m id) (same_self same_id same_id-Decides id)

-- The requests without one of them.
abbrev pub without : Requests → ℕ → Requests
without m id = record m { pending = erase_key same_id m.pending id }

completed :
    (m : Requests) (id : ℕ) (p : Pending) (r : Response) (cb : ℕ)
    → find same_id m.pending id ≡ some p
    → p.cb ≡ some cb
    → on_complete m id p.attempt r ≡ does (without m id) (call_back cb r)
unfolding on_complete run_callback
completed m id p r cb e is_cb = rw (on_complete, e, (==_iff p.attempt p.attempt).1 refl, is_cb) refl

-- An answer for the attempt under way calls the callback, and nothing that comes later is heard.
pub answered-once :
    (m : Requests) (id : ℕ) (p : Pending) (r : Response) (cb : ℕ) (ls : List Later)
    → find same_id m.pending id ≡ some p
    → p.cb ≡ some cb
    → receive_all (on_complete m id p.attempt r) id ls ≡ does (without m id) (call_back cb r)
answered-once m id p r cb ls e is_cb =
    ap (λ m'. receive_all m' id ls) (completed m id p r cb e is_cb)
    ∙ gone-receive_all (does (without m id) (call_back cb r)) id ls (gone-erase_key m.pending id)

-- An answer that comes for another attempt than the one under way, say for the first attempt after
-- the retry began, drops the pending request without a call of its callback, and whatever answers
-- and timeouts come for the request later change nothing: its callback is never called.
pub stale-lost :
    (m : Requests) (id attempt : ℕ) (p : Pending) (r : Response) (ls : List Later)
    → find same_id m.pending id ≡ some p
    → (attempt == p.attempt) ≡ false
    → receive_all (on_complete m id attempt r) id ls ≡ without m id
unfolding on_complete
stale-lost m id attempt p r ls e stale =
    ap (λ m'. receive_all m' id ls) (rw (on_complete, e, stale) refl)
    ∙ gone-receive_all (without m id) id ls (gone-erase_key m.pending id)

last-timeout :
    (m : Requests) (id attempt cb : ℕ) (p : Pending)
    → find same_id m.pending id ≡ some p
    → p.cb ≡ some cb
    → (p.attempt == attempt) ≡ true
    → (p.opt.retry_once && (p.attempt == 0)) ≡ false
    → on_timeout m id attempt ≡ does (without m id) (call_back cb fail)
unfolding on_timeout
last-timeout m id attempt cb p e is_cb at_attempt last =
    rw (on_timeout, e, last, at_attempt) (completed m id p fail cb e is_cb)

-- The requests with the second attempt of one of them under way.
abbrev pub retried : Requests → ℕ → Pending → Requests
retried m id p = record m {
  pending = put same_id m.pending id (record p { attempt = 1 });
  acts =
      (m.acts ++ timer p.timeout_resolved id 1 ∷ []) ++ send p.connector_name id 1 p.request ∷ [];
}

started :
    (m : Requests) (id : ℕ) (p : Pending)
    → find same_id m.pending id ≡ some p
    → contains same_id m.connectors p.connector_name ≡ true
    → start_attempt m id
      ≡ does
          (does m (timer p.timeout_resolved id p.attempt))
          (send p.connector_name id p.attempt p.request)
unfolding start_attempt
started m id p e known = rw (start_attempt, e, known) refl

first-timeout :
    (m : Requests) (id : ℕ) (p : Pending)
    → find same_id m.pending id ≡ some p
    → (p.attempt == 0) ≡ true
    → (p.opt.retry_once && (p.attempt == 0)) ≡ true
    → contains same_id m.connectors p.connector_name ≡ true
    → on_timeout m id 0 ≡ retried m id p
unfolding on_timeout
first-timeout m id p e first retry known =
    let p' : Pending = record p { attempt = 1 } in
    rw (on_timeout, e, retry, first)
      (started (record m { pending = put same_id m.pending id p' }) id p'
        (there-put m.pending id p') known)

-- If the first attempt of a pending request with a callback and a known connector gets no answer,
-- then after the timeouts of the first and of the second attempt the request is gone and its
-- callback was called, once, with a failure; between them the second attempt was sent exactly if a
-- retry was asked for.
pub unanswered-fails :
    (m : Requests) (id cb : ℕ) (p : Pending)
    → find same_id m.pending id ≡ some p
    → p.cb ≡ some cb
    → p.attempt ≡ 0
    → contains same_id m.connectors p.connector_name ≡ true
    → receive_all m id (late 0 ∷ late 1 ∷ [])
      ≡ does (without (if p.opt.retry_once then retried m id p else m) id) (call_back cb fail)
unfolding receive_all receive
unanswered-fails m id cb p e is_cb first known =
    let is_first : (p.attempt == 0) ≡ true = (==_iff p.attempt 0).1 first in
    elim (Bool-cases p.opt.retry_once) [
      | inl t ↦
          let p' : Pending = record p { attempt = 1 } in
          ap (λ m'. on_timeout m' id 1)
            (first-timeout m id p e is_first (ap₂ (λ a b. a && b) t is_first) known)
          ∙ last-timeout (retried m id p) id 1 cb p' (there-put m.pending id p') is_cb refl
              (ap (λ b. b && false) t)
          ∙ ends t
      | inr f ↦
          ap (λ m'. on_timeout m' id 1)
            (last-timeout m id 0 cb p e is_cb is_first (ap (λ b. b && (p.attempt == 0)) f))
          ∙ gone-receive_all (does (without m id) (call_back cb fail)) id (late 1 ∷ [])
              (gone-erase_key m.pending id)
          ∙ ends f
    ]
  where
    ends :
        {b : Bool}
        → p.opt.retry_once ≡ b
        → does (without (if b then retried m id p else m) id) (call_back cb fail)
          ≡ does (without (if p.opt.retry_once then retried m id p else m) id) (call_back cb fail)
    ends t =
        ap (λ b. does (without (if b then retried m id p else m) id) (call_back cb fail)) (sym t)
