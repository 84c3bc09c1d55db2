-- ===== src/Net/Session/Events/Hangup.antt =====
-- How a session ends when the peer or the kernel ends the connection.
use network_engine_portfolio.Prelude.{
  ℕ, ◌+◌, Bool, true, false, not, ◌||◌, Option, some, List, [], ◌∷◌, ◌++◌, if◌then◌else◌, ◌≡◌, ◌≤◌,
  refl, ap, ◌⊎◌, ◌∙◌, sym, subst, inl, inr, arith,
}
use network_engine_portfolio.Net.Session.{
  SessionState, connected, closing, closed, epoll_err, epoll_hup, epoll_rdhup, epoll_unknown, Core,
  begin_close, close_effects, is_normal_close_reason, CloseReason, Effect,
}
use network_engine_portfolio.Net.Session.Close.{count, of_bool, is_count_error, first_effects_lem}
use network_engine_portfolio.Net.Session.Timeouts.Idle.{begin_close-closed}
use network_engine_portfolio.Net.Session.Receive.{Reading, RecvAnswer, on_readable, read_loop}
use network_engine_portfolio.Net.Session.Receive.Frames.{deliver, finish}
use network_engine_portfolio.Net.Session.Receive.Arrivals.{Ends, Fits, at_ring, AllRead}
use network_engine_portfolio.Net.Session.Receive.Whole.{read_loop_lem}
use network_engine_portfolio.Buffer.Ring.{RingBuffer}
use network_engine_portfolio.Buffer.Ring.Valid.{IsValid, contents}
use network_engine_portfolio.Protocol.Framer.{Framer}
use network_engine_portfolio.Protocol.Framer.Spec.{more, front}
use network_engine_portfolio.Net.Session.Send.{is_connected, SendAnswer}
use network_engine_portfolio.Net.Session.Events.{
  ReadyEvent, on_error, Handled, closes, after_drain, after_read, read_event, unless_closed,
  handle_event,
}

count-++ : (p : Effect → ℕ) (xs ys : List Effect) → count p (xs ++ ys) ≡ count p xs + count p ys
count-++ p [] ys = omega arith
count-++ p (x ∷ xs) ys = omega (arith, count-++ p xs ys)

State-cases : (st : SessionState) → (st ≡ connected) ⊎ (is_connected st ≡ false)
State-cases connected = inl refl
State-cases closing = inr refl
State-cases closed = inr refl

-- How a close shows in the log.
closing-counted :
    (c : Core) (reason : CloseReason)
    → c.state ≡ connected
    → count is_count_error (begin_close c reason 0).log
      ≡ count is_count_error c.log + of_bool (not (is_normal_close_reason reason))
unfolding begin_close
closing-counted c reason up =
    rw (begin_close, up)
      (count-++ is_count_error c.log (close_effects c reason 0)
        ∙ ap (λ n. count is_count_error c.log + n) (first_effects_lem c reason 0).2)

-- The reason of the close, by the flags.
abbrev reason_for : Bool → Bool → Bool → CloseReason
reason_for true hup rdhup = epoll_err
reason_for false hup true = epoll_rdhup
reason_for false true false = epoll_hup
reason_for false false false = epoll_unknown

reason_for-normal :
    (err hup rdhup : Bool)
    → not (is_normal_close_reason (reason_for err hup rdhup)) ≡ (err || not (hup || rdhup))
unfolding is_normal_close_reason
reason_for-normal true hup rdhup = refl
reason_for-normal false true true = refl
reason_for-normal false true false = refl
reason_for-normal false false true = refl
reason_for-normal false false false = refl

on_error-reason :
    (c : Core) (err hup rdhup : Bool)
    → (if err
        then begin_close c epoll_err 0
        else if hup || rdhup
        then begin_close c (if rdhup then epoll_rdhup else epoll_hup) 0
        else begin_close c epoll_unknown 0)
      ≡ begin_close c (reason_for err hup rdhup) 0
on_error-reason c true hup rdhup = refl
on_error-reason c false true true = refl
on_error-reason c false true false = refl
on_error-reason c false false true = refl
on_error-reason c false false false = refl

on_error-begin_close :
    (c : Core) (ev : ReadyEvent)
    → c.state ≡ connected
    → on_error c ev ≡ begin_close c (reason_for ev.error ev.hangup ev.read_hangup) 0
unfolding on_error
on_error-begin_close c ev up =
    let is_up : not (is_connected c.state) ≡ false = ap (λ st. not (is_connected st)) up in
    rw is_up (on_error-reason c ev.error ev.hangup ev.read_hangup)

-- For any event onError_ closes a connected session; that counts one error if EPOLLERR is set, or
-- if neither hangup is, and no error if there is a hangup alone.
pub on_error_lem :
    (c : Core) (ev : ReadyEvent)
    → c.state ≡ connected
    → ((on_error c ev).state ≡ closed)
      × (count is_count_error (on_error c ev).log
          ≡ count is_count_error c.log + of_bool (ev.error || not (ev.hangup || ev.read_hangup)))
on_error_lem c ev up =
    let reason = reason_for ev.error ev.hangup ev.read_hangup in
    let e = on_error-begin_close c ev up in
    (
      ap (λ c'. c'.state) e ∙ begin_close-closed c reason 0 up,
      ap (λ c'. count is_count_error c'.log) e
          ∙ closing-counted c reason up
          ∙ ap (λ b. count is_count_error c.log + of_bool b)
              (reason_for-normal ev.error ev.hangup ev.read_hangup),
    )

on_error-unchanged : (c : Core) (ev : ReadyEvent) → is_connected c.state ≡ false → on_error c ev ≡ c
unfolding on_error
on_error-unchanged c ev down =
    let e : not (is_connected c.state) ≡ true = ap not down in rw (on_error, e) refl

on_error-down : (c : Core) (ev : ReadyEvent) → is_connected (on_error c ev).state ≡ false
unfolding on_error
on_error-down c ev = elim (State-cases c.state) [
  | inl up ↦ ap is_connected (on_error_lem c ev up).0
  | inr down ↦ ap (λ c'. is_connected c'.state) (on_error-unchanged c ev down) ∙ down
]

module _ {A : Type 0} (on_message : List ℕ → Core × A → Core × A)
    (update : ℕ → Bool → Option ℕ) where
  -- The state behind a round in which a session was read, and then closed for the event.
  abbrev pub read_and_closed : ReadyEvent → Handled A → Reading A → Handled A
  read_and_closed ev h out = record h {
    session = record out.session { core = on_error out.session.core ev };
    framer = out.framer;
    app = out.app;
  }

  -- A session that was read, and is closed for the event.
  closed_for_event :
      (ev : ReadyEvent) (recvs : List RecvAnswer) (sends : List SendAnswer) (h : Handled A)
      (out : Reading A)
      → h.session.core.state ≡ connected
      → ev.input ≡ true
      → ev.output ≡ false
      → closes ev ≡ true
      → on_readable on_message recvs h.framer h.session h.app ≡ some out
      → (handle_event on_message update ev recvs sends h ≡ some (read_and_closed ev h out))
        × (is_connected (read_and_closed ev h out).session.core.state ≡ false)
  unfolding handle_event read_event after_read after_drain on_error
  closed_for_event ev recvs sends h out up is_in no_out is_end e = (
    ap (λ st. unless_closed st (some h) (read_event on_message update ev recvs sends h)) up ∙ step,
    on_error-down out.session.core ev,
  )
    where
      h' : Handled A
      h' = record h { session = out.session; framer = out.framer; app = out.app }

      on : Bool → Option (Handled A)
      on b = if b then after_read on_message update ev sends h' else some h'

      ends : some (after_drain ev h') ≡ some (read_and_closed ev h out)
      ends = rw (after_drain, is_end) refl

      stays :
          is_connected out.session.core.state ≡ false → some h' ≡ some (read_and_closed ev h out)
      stays down =
          ap (λ c. some (record h' { session = record out.session { core = c } }))
            (sym (on_error-unchanged out.session.core ev down))

      step : read_event on_message update ev recvs sends h ≡ some (read_and_closed ev h out)
      step =
          rw (read_event, is_in, e)
            (elim (State-cases out.session.core.state) [
              | inl still ↦ ap on (ap is_connected still) ∙ rw (after_read, no_out) ends
              | inr down ↦ ap on down ∙ stays down
            ])

  -- A connected session with an event.
  abbrev pub handled_at : Framer → RingBuffer → Core × A → List ℕ → Handled A
  handled_at f r x wire = record {
    session = at_ring on_message r x;
    framer = f;
    app = x.1;
    wire = wire;
  }

  on_readable-read_loop :
      (recvs : List RecvAnswer) (f : Framer) (r : RingBuffer) (x : Core × A)
      → x.0.state ≡ connected
      → on_readable on_message recvs f (at_ring on_message r x) x.1
        ≡ read_loop on_message recvs f (at_ring on_message r x) x.1
  unfolding on_readable
  on_readable-read_loop recvs f r x up = simp (on_readable, up)

  module _
      (stays : (p : List ℕ) (x : Core × A)
        → x.0.state ≡ connected
        → (on_message p x).0.state ≡ connected) where
    -- If a connected session gets an event to read together with an error or a hangup, and none to
    -- write, its ring waits for the rest of a frame, and each receive fits into the ring, until
    -- the kernel has no more, while the callbacks leave the session connected, then all the bytes
    -- are taken, up to a receive behind which the front is no frame, and the payloads of their
    -- frames delivered in order, before the session is closed for the event; after handleEvent it
    -- is not connected.
    pub read-before_close :
        (ev : ReadyEvent) (recvs : List RecvAnswer) (sends : List SendAnswer) (f : Framer)
        (r : RingBuffer) (x : Core × A) (wire : List ℕ)
        → IsValid r
        → x.0.state ≡ connected
        → front f.max_payload_len r.capacity (contents r) ≡ more
        → 4 ≤ r.capacity
        → Ends recvs
        → Fits on_message recvs f (at_ring on_message r x) x.1
        → ev.input ≡ true
        → ev.output ≡ false
        → closes ev ≡ true
        → (out : Reading A) × AllRead on_message f.max_payload_len r.capacity
            (contents r)
            recvs
            x
            (some out)
          × (handle_event on_message update ev recvs sends (handled_at f r x wire)
              ≡ some (read_and_closed ev (handled_at f r x wire) out))
          × (is_connected (read_and_closed ev (handled_at f r x wire) out).session.core.state
              ≡ false)
    read-before_close ev recvs sends f r x wire v up waits big ends fits is_in no_out is_end =
        let all = read_loop_lem on_message stays recvs f r x v up waits big ends fits in
        let d = all.drained in
        let out = finish on_message d.stop d.framer d.ring (deliver on_message d.payloads x) in
        let (done, down) =
          closed_for_event ev recvs sends (handled_at f r x wire) out up is_in no_out is_end
            (on_readable-read_loop recvs f r x up ∙ d.result) in
        (
          out,
          subst (AllRead on_message f.max_payload_len r.capacity (contents r) recvs x) d.result all,
          done,
          down,
        )
