-- ===== src/Net/Session/Events.antt =====
-- engine/src/hypernet/net/Session.cpp: `handleEvent` and `onError_`, what a session does with the
-- events of the reactor.
pub mod Hangup
use network_engine_portfolio.Prelude.{
  ℕ, Bool, true, false, not, ◌||◌, Option, none, some, List, if◌then◌else◌,
}
use network_engine_portfolio.Protocol.Framer.{Framer}
use network_engine_portfolio.Net.Session.{
  SessionState, connected, closing, closed, CloseReason, epoll_err, epoll_hup, epoll_rdhup,
  epoll_unknown, Core, Session, begin_close,
}
use network_engine_portfolio.Net.Session.Receive.{Reading, RecvAnswer, on_readable}
use network_engine_portfolio.Net.Session.Send.{is_connected, SendAnswer, Sent, on_writable}

-- The bits of `ReadyEvent::events` that are tested.
pub record ReadyEvent : Type 0 where
  pub input : Bool
  pub output : Bool
  pub error : Bool
  pub hangup : Bool
  pub read_hangup : Bool

unfoldable pub on_error : Core → ReadyEvent → Core
on_error c ev =
    if not (is_connected c.state)
    then c
    else if ev.error
    then begin_close c epoll_err 0
    else if ev.hangup || ev.read_hangup
    then begin_close c (if ev.read_hangup then epoll_rdhup else epoll_hup) 0
    else begin_close c epoll_unknown 0

-- The session, the framer, the application and the bytes on the wire.
pub record Handled (A : Type 0) : Type 0 where
  pub session : Session
  pub framer : Framer
  pub app : A
  pub wire : List ℕ

abbrev pub closes : ReadyEvent → Bool
closes ev = ev.error || (ev.hangup || ev.read_hangup)

abbrev pub unless_closed : {A : Type 0} → SessionState → A → A → A
unless_closed closed x y = x
unless_closed _ x y = y

unfoldable pub after_drain : {A : Type 0} → ReadyEvent → Handled A → Handled A
after_drain ev h =
    if closes ev
    then record h { session = record h.session { core = on_error h.session.core ev } }
    else h

-- `on_message` is the callback for a message, `update` the answer of the reactor, and the two lists
-- are the answers of the kernel to `recvmsg` and to `sendmsg`.
module _ {A : Type 0} (on_message : List ℕ → Core × A → Core × A)
    (update : ℕ → Bool → Option ℕ) where
  unfoldable pub after_read : ReadyEvent → List SendAnswer → Handled A → Option (Handled A)
  after_read ev sends h =
      if not ev.output
      then some (after_drain ev h)
      else elim (on_writable update sends h.session.core h.wire) [
        | none ↦ none
        | some out ↦
            let h' : Handled A = record h {
              session = record h.session { core = out.core };
              wire = out.wire;
            } in
            some (if is_connected out.core.state then after_drain ev h' else h')
      ]

  unfoldable pub read_event :
      ReadyEvent → List RecvAnswer → List SendAnswer → Handled A → Option (Handled A)
  read_event ev recvs sends h =
      if not ev.input
      then after_read ev sends h
      else elim (on_readable on_message recvs h.framer h.session h.app) [
        | none ↦ none
        | some out ↦
            let h' : Handled A = record h {
              session = out.session;
              framer = out.framer;
              app = out.app;
            } in
            if is_connected out.session.core.state then after_read ev sends h' else some h'
      ]

  unfoldable pub handle_event :
      ReadyEvent → List RecvAnswer → List SendAnswer → Handled A → Option (Handled A)
  handle_event ev recvs sends h =
      unless_closed h.session.core.state (some h) (read_event ev recvs sends h)
