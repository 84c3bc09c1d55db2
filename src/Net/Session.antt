-- ===== src/Net/Session.antt =====
-- engine/src/hypernet/net/Session.cpp: the state of a session and how it closes. All of it runs on
-- the owner worker's thread, which the code checks and aborts on otherwise.

pub mod Close
pub mod Receive
pub mod Send
pub mod Timeouts
pub mod Events
use network_engine_portfolio.Prelude.{
  ℕ, Bool, true, false, not, ◌||◌, Option, none, some, List, [], ◌∷◌, ◌++◌, ◌==◌, if◌then◌else◌,
}
use network_engine_portfolio.Buffer.Ring.{RingBuffer}

pub data SessionState : Type 0 where
  connected closing closed : SessionState

-- The reasons that Session.cpp and SessionManager.cpp give for a close.
pub data CloseReason : Type 0 where
  peer_close worker_shutdown epoll_hup epoll_rdhup idle_timeout heartbeat_timeout : CloseReason
  framer_invalid recv_ring_null recv_overflow recv_error : CloseReason
  send_ring_missing send_overflow send_ring_write_mismatch send_invalid_body send_zero send_failed :
      CloseReason
  epoll_err epoll_unknown epoll_mod_failed : CloseReason
  invalid_opcode_prefix unknown_opcode unknown_injected_opcode policy_close : CloseReason

unfoldable pub is_normal_close_reason : CloseReason → Bool
is_normal_close_reason peer_close = true
is_normal_close_reason worker_shutdown = true
is_normal_close_reason epoll_hup = true
is_normal_close_reason epoll_rdhup = true
is_normal_close_reason idle_timeout = true
is_normal_close_reason heartbeat_timeout = true
is_normal_close_reason _ = false

-- What a session does to the event loop, its socket, the metrics and its manager.
pub data Effect : Type 0 where
  remove_fd : ℕ → Effect
  close_socket count_error session_closed : Effect

-- The members that handlers reach through the manager. `fd` is the native handle of a valid socket,
-- `write_interest` says whether EPOLLOUT is in `currentEpollMask_`; `log` is in order of time.
pub record Core : Type 0 where
  pub state : SessionState
  pub send_ring : Option RingBuffer
  pub fd : Option ℕ
  pub write_interest : Bool
  pub has_manager : Bool
  pub log : List Effect

-- A session; no handler reaches `recv_ring`.
pub record Session : Type 0 where
  pub core : Core
  pub recv_ring : Option RingBuffer

unfoldable pub deregister : Option ℕ → List Effect
deregister none = []
deregister (some fd) = remove_fd fd ∷ []

unfoldable pub close_effects : Core → CloseReason → ℕ → List Effect
close_effects c reason err =
    deregister c.fd
    ++ (close_socket ∷ []
        ++ ((if not (err == 0) || not (is_normal_close_reason reason) then count_error ∷ [] else [])
            ++ (if c.has_manager then session_closed ∷ [] else [])))

unfoldable pub begin_close : Core → CloseReason → ℕ → Core
begin_close c reason err = elim c.state [
  | connected ↦ record c { state = closed; fd = none; log = c.log ++ close_effects c reason err }
  | closing ↦ c
  | closed ↦ c
]

unfoldable pub close_from_manager : Core → Core
close_from_manager c = elim c.state [
  | closed ↦ c
  | _ ↦ record c {
    state = closed;
    fd = none;
    log = c.log ++ (deregister c.fd ++ close_socket ∷ []);
  }
]
