-- ===== src/Net/Acceptor.antt =====
-- engine/src/hypernet/net/Acceptor.cpp: a listening socket and the connections that it accepts. What
-- the kernel answers to `accept` is a list, one entry for each call.
pub mod Accepts
use network_engine_portfolio.Prelude.{
  ℕ, Bool, true, false, not, ◌&&◌, ◌||◌, Option, none, some, List, [], ◌∷◌, if◌then◌else◌,
}
use network_engine_portfolio.Net.EventLoop.{Loop, remove_fd}
use network_engine_portfolio.Net.Session.Events.{ReadyEvent, closes}

-- Which of the exceptions the constructor throws.
pub data ListenError : Type 0 where
  socket_failed reuse_addr_failed reuse_port_failed bind_failed listen_failed : ListenError

-- Whether the calls on the new socket succeed, in their order.
pub record OpenAnswers : Type 0 where
  pub created : Bool
  pub reuse_addr : Bool
  pub reuse_port : Bool
  pub bound : Bool
  pub listening : Bool

unfoldable pub open_acceptor : (reuse_port : Bool) → OpenAnswers → Option ListenError
open_acceptor reuse_port answers =
    if not answers.created
    then some socket_failed
    else if not answers.reuse_addr
    then some reuse_addr_failed
    else if reuse_port && not answers.reuse_port
    then some reuse_port_failed
    else if not answers.bound
    then some bind_failed
    else if not answers.listening
    then some listen_failed
    else none

-- The descriptor of a client, EAGAIN, EINTR, or another errno.
pub data Accepted : Type 0 where
  client : ℕ → Accepted
  try_again interrupted : Accepted
  failed : ℕ → Accepted

-- `on_accept` is the callback; what it throws is caught.
module _ {A : Type 0} (on_accept : ℕ → A → A) where
  -- `none`: the answers have run out.
  unfoldable pub on_acceptable : List Accepted → A → Option A
  on_acceptable [] a = none
  on_acceptable (client fd ∷ answers) a = on_acceptable answers (on_accept fd a)
  on_acceptable (try_again ∷ answers) a = some a
  on_acceptable (interrupted ∷ answers) a = on_acceptable answers a
  on_acceptable (failed errno ∷ answers) a = some a

  -- The listening socket, the loop and the application. A socket that has been closed is `none`, and
  -- `accept` fails on it at once.
  unfoldable pub handle_accept_event :
      ReadyEvent → List Accepted → Option ℕ → Loop Unit × A → Option (Option ℕ × Loop Unit × A)
  handle_accept_event ev answers none (l, a) = some (none, l, a)
  handle_accept_event ev answers (some fd) (l, a) =
      if closes ev
      then some (none, (remove_fd true l (some fd)).1, a)
      else if not ev.input
      then some (some fd, l, a)
      else elim (on_acceptable answers a) [ none ↦ none | some a' ↦ some (some fd, l, a') ]
