-- ===== src/Net/Session/Timeouts.antt =====
-- engine/src/hypernet/net/Session.cpp: `touchRx_`, `startTimeouts_` and the idle and heartbeat timers.
-- The clock is read in nanoseconds; `timers` are the calls of `addTimer`, in order, with the delay
-- in milliseconds.
pub mod Fires
pub mod Idle
pub mod Heartbeat
use network_engine_portfolio.Prelude.{
  ℕ, ◌-◌, ◌*◌, ◌/◌, ◌≡◌, Bool, true, false, not, ◌||◌, List, [], ◌∷◌, ◌++◌, ◌==◌, ltb, leb,
  if◌then◌else◌,
}
use network_engine_portfolio.Net.Session.{Core, begin_close, idle_timeout, heartbeat_timeout}
use network_engine_portfolio.Net.Session.Send.{is_connected}

pub data TimerKind : Type 0 where
  idle heartbeat : TimerKind

pub record Watch : Type 0 where
  pub idle_timeout_ms : ℕ
  pub heartbeat_interval_ms : ℕ
  pub last_rx_at : ℕ
  pub idle_timer_armed : Bool
  pub heartbeat_timer_armed : Bool

-- A session with the members that the timers use, and what they asked the loop for.
pub record Watched : Type 0 where
  pub core : Core
  pub watch : Watch
  pub timers : List (ℕ × TimerKind)

abbrev pub ms : ℕ
ms = 1_000_000

-- `duration_cast<milliseconds>(now - lastRxAt_)`; the clock never goes back.
abbrev pub elapsed_ms : Watch → ℕ → ℕ
elapsed_ms w now = (now - w.last_rx_at) / ms

unfoldable pub touch_rx : Watched → ℕ → Watched
touch_rx s now = record s { watch = record s.watch { last_rx_at = now } }

unfoldable pub arm_idle_timer_after : Watched → ℕ → Watched
arm_idle_timer_after s delay =
    if (s.watch.idle_timeout_ms == 0) || not (is_connected s.core.state) || s.watch.idle_timer_armed
    then s
    else record s {
      watch = record s.watch { idle_timer_armed = true };
      timers = s.timers ++ (delay, idle) ∷ [];
    }

unfoldable pub arm_heartbeat_timer_after : Watched → ℕ → Watched
arm_heartbeat_timer_after s delay =
    if (s.watch.heartbeat_interval_ms == 0)
      || not (is_connected s.core.state)
      || s.watch.heartbeat_timer_armed
    then s
    else record s {
      watch = record s.watch { heartbeat_timer_armed = true };
      timers = s.timers ++ (delay, heartbeat) ∷ [];
    }

unfoldable pub start_timeouts : Watched → ℕ → ℕ → ℕ → Watched
start_timeouts s idle_ms interval_ms now =
    let s' : Watched = record s {
      watch = record s.watch {
        idle_timeout_ms = idle_ms;
        heartbeat_interval_ms = interval_ms;
        last_rx_at = now;
      };
    } in
    let s'' : Watched = if ltb 0 idle_ms then arm_idle_timer_after s' idle_ms else s' in
    if ltb 0 interval_ms then arm_heartbeat_timer_after s'' interval_ms else s''

-- A positive delay.
abbrev pub at_least_one : ℕ → ℕ
at_least_one n = if n == 0 then 1 else n

unfoldable pub on_idle_timer : Watched → ℕ → Watched
on_idle_timer s now =
    let s' : Watched = record s { watch = record s.watch { idle_timer_armed = false } } in
    let elapsed = elapsed_ms s.watch now in
    if (s.watch.idle_timeout_ms == 0) || not (is_connected s.core.state)
    then s'
    else if leb s.watch.idle_timeout_ms elapsed
    then record s' { core = begin_close s.core idle_timeout 0 }
    else arm_idle_timer_after s' (at_least_one (s.watch.idle_timeout_ms - elapsed))

-- `ping` is the manager's call that sends the opcode of a ping to this session.
unfoldable pub on_heartbeat_timer : (Core → Core) → Watched → ℕ → Watched
on_heartbeat_timer ping s now =
    let s' : Watched = record s { watch = record s.watch { heartbeat_timer_armed = false } } in
    let elapsed = elapsed_ms s.watch now in
    let interval = s.watch.heartbeat_interval_ms in
    let remain = interval * 2 - elapsed in
    if (interval == 0) || not (is_connected s.core.state)
    then s'
    else if leb (interval * 2) elapsed
    then record s' { core = begin_close s.core heartbeat_timeout 0 }
    else if leb interval elapsed
    then arm_heartbeat_timer_after
        (record s' { core = if s.core.has_manager then ping s.core else s.core })
        (at_least_one (if ltb remain interval then remain else interval))
    else arm_heartbeat_timer_after s' (at_least_one (interval - elapsed))
