-- ===== src/Net/Session/Timeouts/Fires.antt =====
-- The timers of a session as the loop runs them: each fires once, at its delay or later.
use network_engine_portfolio.Prelude.{ℕ, ◌+◌, ◌*◌, ◌≡◌, refl, List, [], ◌∷◌}
use network_engine_portfolio.Net.Session.{Core}
use network_engine_portfolio.Net.Session.Timeouts.{
  TimerKind, idle, heartbeat, Watched, ms, on_idle_timer, on_heartbeat_timer,
}

-- A session of which the loop has taken the timers.
abbrev pub cleared : Watched → Watched
cleared s = record s { timers = [] }

module _ (ping : Core → Core) where
  -- The callback of a timer.
  abbrev pub on_timer : TimerKind → Watched → ℕ → Watched
  on_timer idle s now = on_idle_timer s now
  on_timer heartbeat s now = on_heartbeat_timer ping s now

  -- The timer that a session armed at `now` fires, `late` nanoseconds after its delay, then the one
  -- that its callback armed, and so on, as many as there are numbers. A session with no timer is
  -- left alone.
  unfoldable pub fire_all : (lates : List ℕ) → (now : ℕ) → Watched → Watched
  fire_all [] now s = s
  fire_all (late ∷ lates) now s = elim s.timers [
    | [] ↦ s
    | (delay, kind) ∷ rest ↦
        let t = now + delay * ms + late in
        fire_all lates t (on_timer kind (record s { timers = rest }) t)
  ]

  pub fire_all-none :
      (lates : List ℕ) (now : ℕ) (s : Watched) → s.timers ≡ [] → fire_all lates now s ≡ s
  unfolding fire_all
  fire_all-none [] now s e = refl
  fire_all-none (late ∷ lates) now s e = simp (fire_all, e)

  pub fire_all-one :
      (late : ℕ) (lates : List ℕ) (now delay : ℕ) (kind : TimerKind) (s : Watched)
      → s.timers ≡ (delay, kind) ∷ []
      → fire_all (late ∷ lates) now s
        ≡ fire_all lates
            (now + delay * ms + late)
            (on_timer kind (cleared s) (now + delay * ms + late))
  unfolding fire_all
  fire_all-one late lates now delay kind s e = simp (fire_all, e)

  pub fire_all-stop : (now : ℕ) (s : Watched) → fire_all [] now s ≡ s
  unfolding fire_all
  fire_all-stop now s = refl
