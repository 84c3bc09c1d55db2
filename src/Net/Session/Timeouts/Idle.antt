-- ===== src/Net/Session/Timeouts/Idle.antt =====
-- When the idle timer closes a session.
use network_engine_portfolio.Prelude.{
  ℕ, ◌-◌, ◌≤◌, ◌<◌, ◌≡◌, refl, ap, ◌⊎◌, inl, inr, true, false, not, [], ◌∷◌, ◌++◌, ◌==◌, leb, arith,
  Bool-cases,
}
use network_engine_portfolio.Net.Session.{
  CloseReason, connected, closed, Core, begin_close, idle_timeout,
}
use network_engine_portfolio.Net.Session.Send.{is_connected}
use network_engine_portfolio.Net.Session.Timeouts.{
  idle, Watched, elapsed_ms, at_least_one, arm_idle_timer_after, on_idle_timer,
}

pub begin_close-closed :
    (c : Core) (reason : CloseReason) (err : ℕ)
    → c.state ≡ connected
    → (begin_close c reason err).state ≡ closed
unfolding begin_close
begin_close-closed c reason err up = rw (begin_close, up) refl

pub at_least_one_lem : (n : ℕ) → 0 < n → at_least_one n ≡ n
at_least_one_lem n p = ground arith

module _ (s : Watched) (now : ℕ) (up : s.core.state ≡ connected) where
  is_up : not (is_connected s.core.state) ≡ false
  is_up = ap (λ st. not (is_connected st)) up

  -- The session as the timer leaves it if it is not yet time.
  abbrev pub idle_again : Watched
  idle_again = record s {
    watch = record s.watch { idle_timer_armed = true };
    timers = s.timers ++ (s.watch.idle_timeout_ms - elapsed_ms s.watch now, idle) ∷ [];
  }

  module _ (p : 0 < s.watch.idle_timeout_ms) where
    positive : (s.watch.idle_timeout_ms == 0) ≡ false
    positive = ground arith

    -- The idle timer of a connected session closes it exactly if no byte came for the timeout, in
    -- whole milliseconds; if not, nothing changes but that the timer is armed again, once, for the
    -- rest of the timeout.
    pub on_idle_timer_lem :
        ((s.watch.idle_timeout_ms ≤ elapsed_ms s.watch now)
          × (on_idle_timer s now ≡ record s {
            core = begin_close s.core idle_timeout 0;
            watch = record s.watch { idle_timer_armed = false };
          }))
        ⊎ ((elapsed_ms s.watch now < s.watch.idle_timeout_ms) × (on_idle_timer s now ≡ idle_again))
    unfolding on_idle_timer arm_idle_timer_after
    on_idle_timer_lem = elim (Bool-cases (leb s.watch.idle_timeout_ms (elapsed_ms s.watch now))) [
      | inl t ↦ inl (ground arith, rw (positive, is_up, t) refl)
      | inr f ↦
          let later : elapsed_ms s.watch now < s.watch.idle_timeout_ms = ground arith in
          let e : at_least_one (s.watch.idle_timeout_ms - elapsed_ms s.watch now)
              ≡ s.watch.idle_timeout_ms - elapsed_ms s.watch now =
            at_least_one_lem _ (omega arith) in
          inr (later, rw (positive, is_up, f, e) refl)
    ]
