-- ===== src/Net/Session/Timeouts/Heartbeat.antt =====
-- When the heartbeat closes a session.
use network_engine_portfolio.Prelude.{
  ℕ, ◌-◌, ◌*◌, ◌≤◌, ◌<◌, ◌≡◌, refl, ap, ◌⊎◌, inl, inr, true, false, not, [], ◌∷◌, ◌++◌, ◌==◌, ltb,
  leb, if◌then◌else◌, arith, Bool-cases,
}
use network_engine_portfolio.Net.Session.{connected, closed, Core, begin_close, heartbeat_timeout}
use network_engine_portfolio.Net.Session.Send.{is_connected}
use network_engine_portfolio.Net.Session.Timeouts.{
  heartbeat, Watch, Watched, elapsed_ms, at_least_one, arm_heartbeat_timer_after,
  on_heartbeat_timer,
}

-- The delay of the next heartbeat check, if the session is not closed.
abbrev pub next_check : Watch → ℕ → ℕ
next_check w now =
    if leb w.heartbeat_interval_ms (elapsed_ms w now)
    then w.heartbeat_interval_ms * 2 - elapsed_ms w now
    else w.heartbeat_interval_ms - elapsed_ms w now

-- The session behind the attempt to send a ping.
abbrev pub pinged : (Core → Core) → Watched → Core
pinged ping s = if s.core.has_manager then ping s.core else s.core

module _ (ping : Core → Core) (s : Watched) (now : ℕ) (up : s.core.state ≡ connected) where
  -- The session as a check leaves it that does not close it, with a ping or with none.
  abbrev pub heartbeat_again : Core → Watched
  heartbeat_again c = record s {
    core = c;
    watch = record s.watch { heartbeat_timer_armed = true };
    timers = s.timers ++ (next_check s.watch now, heartbeat) ∷ [];
  }

  module _ (p : 0 < s.watch.heartbeat_interval_ms) where
    abbrev e : ℕ
    e = elapsed_ms s.watch now

    abbrev interval : ℕ
    interval = s.watch.heartbeat_interval_ms

    -- A check of a connected session, if sending a ping closes no session: it closes the session at two
    -- intervals without a byte, sends a ping at one, and else, as after a ping, arms one next check.
    pub on_heartbeat_timer_lem :
        (pinged ping s).state ≡ connected
        → ((interval * 2 ≤ e)
            × (on_heartbeat_timer ping s now ≡ record s {
              core = begin_close s.core heartbeat_timeout 0;
              watch = record s.watch { heartbeat_timer_armed = false };
            }))
          ⊎ (((interval ≤ e)
                × (e < interval * 2)
                × (on_heartbeat_timer ping s now ≡ heartbeat_again (pinged ping s)))
              ⊎ ((e < interval) × (on_heartbeat_timer ping s now ≡ heartbeat_again s.core)))
    unfolding on_heartbeat_timer arm_heartbeat_timer_after
    on_heartbeat_timer_lem still =
        let zero_interval : (interval == 0) ≡ false = ground arith in
        let is_up : not (is_connected s.core.state) ≡ false = ap (λ st. not (is_connected st)) up in
        elim (Bool-cases (leb (interval * 2) e)) [
          | inl t ↦ inl (ground arith, rw (zero_interval, is_up, t) refl)
          | inr f ↦ elim (Bool-cases (leb interval e)) [
            | inl t ↦
                let still' : not (is_connected (pinged ping s).state) ≡ false =
                  ap (λ st. not (is_connected st)) still in
                let d : at_least_one
                      (if ltb (interval * 2 - e) interval then interval * 2 - e else interval)
                    ≡ interval * 2 - e =
                  ground arith in
                inr (
                  inl (ground arith, ground arith, rw (zero_interval, is_up, f, t, still', d) refl))
            | inr g ↦
                let d : at_least_one (interval - e) ≡ interval - e = ground arith in
                inr (inr (ground arith, rw (zero_interval, is_up, f, g, d) refl))
          ]
        ]

module _ (ping : Core → Core)
    (stays : (c : Core) → c.state ≡ connected → (ping c).state ≡ connected) where
  -- What a check comes to: the session is closed, or it is in time and is watched as before.
  record InTime (s : Watched) (now : ℕ) (s' : Watched) : Type 0 where
    early : elapsed_ms s.watch now < s.watch.heartbeat_interval_ms * 2
    still_up : s'.core.state ≡ connected
    same_last : s'.watch.last_rx_at ≡ s.watch.last_rx_at
    same_interval : s'.watch.heartbeat_interval_ms ≡ s.watch.heartbeat_interval_ms
    armed : s'.timers ≡ s.timers ++ (next_check s.watch now, heartbeat) ∷ []

  abbrev Ended : Watched → Type 0
  Ended s = (s.core.state ≡ closed) × (s.timers ≡ [])
