-- ===== src/Connector/Dials.antt =====
-- Outgoing connections: `dialTcpSession`, `dialStartAttempt_`, `dialTimeout_`, `finishDialOk_`,
-- `finishDialFail_`, `shutdownDialsInOwnerThread` and the events of a dial's socket. What a callback
-- does, and the timers, come back as later calls.
pub mod Calls
pub mod Once
pub mod Ends
use network_engine_portfolio.Prelude.{
  ℕ, ◌+◌, Bool, true, false, not, ◌&&◌, ◌||◌, Option, none, some, List, [], ◌∷◌, ◌++◌, ◌==◌, ltb,
  if◌then◌else◌, add64,
}
use network_engine_portfolio.Map.{Map, find, put, emplace, erase_key, same_id}

-- A host is a number, 0 an empty name.
pub record DialOptions : Type 0 where
  pub host : ℕ
  pub port : ℕ
  pub timeout_ms : ℕ
  pub retry_once : Bool
  pub retry_delay_ms : ℕ

-- `sock` is the native handle of a valid socket.
pub record Dial : Type 0 where
  pub opt : DialOptions
  pub attempt_index : ℕ
  pub registered : Bool
  pub completed : Bool
  pub sock : Option ℕ

-- The callback of a dial gets a session, or an error.
pub data DialAct : Type 0 where
  add_fd remove_fd close_fd : ℕ → DialAct
  start_later time_out_later : (delay id attempt : ℕ) → DialAct
  call_back : (id : ℕ) → Option ℕ → DialAct
  refuse : DialAct

pub record Dials : Type 0 where
  pub dials : Map ℕ Dial
  pub next_dial_id : ℕ
  pub acts : List DialAct

-- What the kernel answers to `socket` and `connect`, and the event loop to `addFd`.
pub data Connect : Type 0 where
  no_socket : Connect
  refused connected : (fd : ℕ) → Connect
  in_progress : (fd : ℕ) → (added : Bool) → Connect

-- What `getsockopt` tells of a socket.
pub data SocketError : Type 0 where
  unreadable broken fine : SocketError

abbrev pub does : Dials → List DialAct → Dials
does m acts = record m { acts = m.acts ++ acts }

abbrev pub store : Dials → ℕ → Dial → Dials
store m id d = record m { dials = put same_id m.dials id d }

unfoldable pub unregister : Dial → List DialAct
unregister d = elim d.sock [ none ↦ [] | some fd ↦ if d.registered then remove_fd fd ∷ [] else [] ]

unfoldable pub close_socket : Dial → List DialAct
close_socket d = elim d.sock [ none ↦ [] | some fd ↦ close_fd fd ∷ [] ]

-- The dial is erased after its callback was called.
unfoldable pub finish : Dials → ℕ → List DialAct → Option ℕ → Dials
finish m id acts result = record m {
  dials = erase_key same_id m.dials id;
  acts = m.acts ++ (acts ++ call_back id result ∷ []);
}

abbrev is_over : Dial → ℕ → Bool
is_over d attempt = d.completed || not (d.attempt_index == attempt)

-- `session` is the handle that the session manager gives for the socket, if it does.
unfoldable pub finish_dial_ok : Option ℕ → Dials → ℕ → ℕ → Dials
finish_dial_ok session m id attempt = elim (find same_id m.dials id) [
  | none ↦ m
  | some d ↦ if is_over d attempt then m else finish m id (unregister d) session
]

unfoldable pub finish_dial_fail : Dials → ℕ → ℕ → Dials
finish_dial_fail m id attempt = elim (find same_id m.dials id) [
  | none ↦ m
  | some d ↦ if is_over d attempt then m else finish m id (unregister d ++ close_socket d) none
]

-- The outcome of an attempt to connect, for the dial `d` that was stored for it.
unfoldable pub after_connect : Connect → Option ℕ → Dials → ℕ → Dial → ℕ → Dials
after_connect no_socket session m id d attempt = finish_dial_fail m id attempt
after_connect (connected fd) session m id d attempt =
    finish_dial_ok session (store m id (record d { sock = some fd })) id attempt
after_connect (refused fd) session m id d attempt =
    if d.opt.retry_once && (attempt == 0)
    then does m (start_later d.opt.retry_delay_ms id 1 ∷ close_fd fd ∷ [])
    else does (finish_dial_fail m id attempt) (close_fd fd ∷ [])
after_connect (in_progress fd false) session m id d attempt =
    finish_dial_fail (does (store m id (record d { sock = none })) (close_fd fd ∷ [])) id attempt
after_connect (in_progress fd true) session m id d attempt =
    does (store m id (record d { sock = some fd; registered = true })) (
      add_fd fd
      ∷ (if ltb 0 d.opt.timeout_ms then time_out_later d.opt.timeout_ms id attempt ∷ [] else []))

unfoldable pub dial_start_attempt : Connect → Option ℕ → Dials → ℕ → ℕ → Dials
dial_start_attempt answer session m id attempt = elim (find same_id m.dials id) [
  | none ↦ m
  | some d ↦
      let d' : Dial = record d { sock = none; registered = false; attempt_index = attempt } in
      if d.completed
      then m
      else after_connect answer session (does (store m id d') (unregister d ++ close_socket d)) id
          d' attempt
]

unfoldable pub dial_timeout : Dials → ℕ → ℕ → Dials
dial_timeout m id expected = elim (find same_id m.dials id) [
  | none ↦ m
  | some d ↦
      if is_over d expected
      then m
      else if d.opt.retry_once && (expected == 0)
      then does m (start_later d.opt.retry_delay_ms id 1 ∷ [])
      else finish_dial_fail m id expected
]

unfoldable pub handle_event : SocketError → Option ℕ → Dials → ℕ → Dials
handle_event answer session m id = elim (find same_id m.dials id) [
  | none ↦ m
  | some d ↦ if d.completed then m else elim answer [
    | unreadable ↦ finish_dial_fail m id d.attempt_index
    | broken ↦
        if d.opt.retry_once && (d.attempt_index == 0)
        then does m (start_later d.opt.retry_delay_ms id (d.attempt_index + 1) ∷ [])
        else finish_dial_fail m id d.attempt_index
    | fine ↦ finish_dial_ok session m id d.attempt_index
  ]
]

-- `has_callback`: the callback is not empty.
unfoldable pub dial_tcp_session : Connect → Option ℕ → Dials → DialOptions → Bool → Dials
dial_tcp_session answer session m opt has_callback =
    let id = m.next_dial_id in
    let d : Dial = record {
      opt = opt;
      attempt_index = 0;
      registered = false;
      completed = false;
      sock = none;
    } in
    if not has_callback
    then m
    else if (opt.host == 0) || (opt.port == 0)
    then does m (refuse ∷ [])
    else dial_start_attempt answer session
        (record m { next_dial_id = add64 id 1; dials = emplace same_id m.dials id d }) id 0

unfoldable pub shut_down : Map ℕ Dial → List DialAct
shut_down [] = []
shut_down ((_, d) ∷ rest) = unregister d ++ (close_socket d ++ shut_down rest)

unfoldable pub shutdown_dials_in_owner_thread : Dials → Dials
shutdown_dials_in_owner_thread m = record m { dials = []; acts = m.acts ++ shut_down m.dials }
