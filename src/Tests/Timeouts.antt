-- ===== src/Tests/Timeouts.antt =====
-- The timers of a session at concrete inputs.
use network_engine_portfolio.Prelude.{◌≡◌, refl, true, false, [], ◌∷◌, some, none}
use network_engine_portfolio.Net.Session.{connected, Core}
use network_engine_portfolio.Net.Session.Timeouts.{
  Watched, start_timeouts, arm_idle_timer_after, arm_heartbeat_timer_after, idle, heartbeat,
}

abbrev core : Core
core = record {
  state = connected;
  send_ring = none;
  fd = some 7;
  write_interest = false;
  has_manager = true;
  log = [];
}

-- Ten milliseconds without a byte close it, or two intervals of four; the last byte came at 0.
abbrev watched : Watched
watched = record {
  core = core;
  watch = record {
    idle_timeout_ms = 10;
    heartbeat_interval_ms = 4;
    last_rx_at = 0;
    idle_timer_armed = true;
    heartbeat_timer_armed = true;
  };
  timers = [];
}

-- Both timers are armed at the start.
both_armed :
    (start_timeouts
      (record watched {
        watch = record watched.watch { idle_timer_armed = false; heartbeat_timer_armed = false };
      })
      10
      4
      0).timers
    ≡ (10, idle) ∷ (4, heartbeat) ∷ []
unfolding start_timeouts arm_idle_timer_after arm_heartbeat_timer_after
both_armed = refl

-- A ping that is sent at once leaves the session as it is.
abbrev at_once : Core → Core
at_once c = c

-- A byte came after three and a half milliseconds, and the timer that was armed at 0 fires late.
abbrev idling : Watched
idling = record watched {
  watch = record watched.watch { last_rx_at = 3_500_000 };
  timers = (10, idle) ∷ [];
}

abbrev beating : Watched
beating = record idling { timers = (4, heartbeat) ∷ [] }
