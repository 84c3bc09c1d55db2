-- ===== src/Engine/Worker/Down.antt =====
-- A worker that is stopped and shut down.
use network_engine_portfolio.Prelude.{
  ℕ, ◌≡◌, refl, ap, ◌∙◌, Bool, true, false, not, none, some, if◌then◌else◌,
}
use network_engine_portfolio.Engine.Outcome.{done, ◌>>=◌}
use network_engine_portfolio.Engine.Worker.{
  SessionCalls, Worker, Thread, no_thread, looping, returned, catch_up,
}
use network_engine_portfolio.Engine.Worker.Life.{
  finish_thread, join_thread, join, stop, reset, shutdown,
}
use network_engine_portfolio.Engine.Worker.Frame.{
  frame, is_there, cleanup_listener-frame, catch_up-frame,
}

-- No thread, no loop, no sessions and no listener.
abbrev pub Down : {S : Type 0} → Worker S → Type 0
Down w =
    (frame w ≡ (false, false, no_thread, false))
    × (is_there w.session_manager ≡ false)
    × (w.acceptor ≡ none)

module _ {S : Type 0} (calls : SessionCalls S) (drains : ℕ → Bool) where
  -- What a stop comes to.
  pub record Stopped (w : Worker S) : Type 0 where
    pub rest : Worker S
    pub returns : stop calls drains w ≡ done rest
    pub same : frame rest ≡ (w.initialized, false, no_thread, is_there w.event_loop)

  last_turn : Bool → Worker S → Worker S
  last_turn drained w = if drained then catch_up calls w else w

  last_turn-frame : (drained : Bool) (w : Worker S) → frame (last_turn drained w) ≡ frame w
  unfolding last_turn
  last_turn-frame true w = catch_up-frame calls w
  last_turn-frame false w = refl

  finish_thread-frame :
      (w : Worker S)
      → frame (finish_thread calls drains w)
        ≡ (w.initialized, w.running, returned, is_there w.event_loop)
  unfolding finish_thread
  finish_thread-frame w = cleanup_listener-frame (record w {
    session_manager = elim w.session_manager [
      | none ↦ none
      | some s ↦ some (calls.shutdown_in_owner_thread s)
    ];
    thread = returned;
  })

  joined : Worker S → Worker S
  joined w = finish_thread calls drains (last_turn (drains w.id) (record w { running = false }))

  joined-frame :
      (w : Worker S) → frame (joined w) ≡ (w.initialized, false, returned, is_there w.event_loop)
  unfolding joined
  joined-frame w =
      finish_thread-frame (last_turn (drains w.id) (record w { running = false }))
      ∙ ap (λ p. (p.0, p.1, returned, p.3))
          (last_turn-frame (drains w.id) (record w { running = false }))

  -- A stop returns, whatever the worker does, with its thread joined.
  pub stop-Stopped : (w : Worker S) → Stopped w
  unfolding stop join join_thread joined last_turn
  stop-Stopped w = go w.thread refl
    where
      go : (t : Thread) → w.thread ≡ t → Stopped w
      go no_thread e = record {
        rest = record w { running = false };
        returns = ap (λ t. join_thread calls drains t (record w { running = false })) e;
        same = ap (λ t. (w.initialized, false, t, is_there w.event_loop)) e;
      }
      go returned e = record {
        rest = record w { running = false; thread = no_thread };
        returns = ap (λ t. join_thread calls drains t (record w { running = false })) e;
        same = refl;
      }
      go looping e = record {
        rest = record (joined w) { thread = no_thread };
        returns = ap (λ t. join_thread calls drains t (record w { running = false })) e;
        same = ap (λ p. (p.0, p.1, no_thread, p.3)) (joined-frame w);
      }

  -- What a shutdown comes to.
  pub record ShutDown (w : Worker S) : Type 0 where
    pub rest : Worker S
    pub returns : shutdown calls drains w ≡ done rest
    pub is_down : Down rest

  pub shutdown-ShutDown : (w : Worker S) → w.initialized ≡ true → ShutDown w
  unfolding shutdown
  shutdown-ShutDown w e =
      let s = stop-Stopped w in
      record {
        rest = record s.rest {
          session_manager = none;
          acceptor = none;
          event_loop = none;
          buffer_pool = false;
          initialized = false;
        };
        returns =
            ap
              (λ b.
                if not b
                then done w
                else (stop calls drains w >>= λ w'. done (reset calls drains w')))
              e
            ∙ ap (λ o. o >>= λ w'. done (reset calls drains w')) s.returns;
        is_down = (ap (λ p. (false, p.1, p.2, false)) s.same, refl, refl);
      }

  -- A worker that is down stays as it is.
  pub shutdown-idle : (w : Worker S) → w.initialized ≡ false → shutdown calls drains w ≡ done w
  unfolding shutdown
  shutdown-idle w e =
      ap
        (λ b.
          if not b then done w else (stop calls drains w >>= λ w'. done (reset calls drains w')))
        e
