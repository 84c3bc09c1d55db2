-- ===== src/Net/Session/Receive/Whole.antt =====
-- The loop over the receives of `onReadable_`, until the kernel has no more.
use network_engine_portfolio.Prelude.{
  ℕ, ◌≤◌, ◌≡◌, ap, ap₂, subst, ◌∙◌, inl, inr, some, List, [], ◌∷◌, ◌++◌, arith,
}
use network_engine_portfolio.Buffer.Ring.{RingBuffer}
use network_engine_portfolio.Buffer.Ring.Valid.{IsValid, contents, free_space-eq}
use network_engine_portfolio.Protocol.Framer.{Framer}
use network_engine_portfolio.Protocol.Framer.Spec.{more, front}
use network_engine_portfolio.Protocol.Framer.Stream.{waiting}
use network_engine_portfolio.Net.Session.{connected, Core}
use network_engine_portfolio.Net.Session.Receive.{
  RecvAnswer, received, end_of_stream, interrupted, would_block, failed, take_bytes, read_loop,
}
use network_engine_portfolio.Net.Session.Receive.Frames.{Drained, deliver, finish, take_bytes_lem}
use network_engine_portfolio.Net.Session.Receive.Arrivals.{
  Ends, Stop-cases, waiting-more, Fits, Later, at_ring, AllRead, deliver-connected,
}
use network_engine_portfolio.Net.Session.Receive.Turns.{at_end, again_at, stopped_at, went_on}

Ends-nil : ¬ Ends []
unfolding Ends
Ends-nil e = e

Ends-end_of_stream : (answers : List RecvAnswer) → ¬ Ends (end_of_stream ∷ answers)
unfolding Ends
Ends-end_of_stream answers e = e

Ends-failed : (errno : ℕ) (answers : List RecvAnswer) → ¬ Ends (failed errno ∷ answers)
unfolding Ends
Ends-failed errno answers e = e

module _ {A : Type 0} (on_message : List ℕ → Core × A → Core × A) where
  module _
      (stays : (p : List ℕ) (x : Core × A)
        → x.0.state ≡ connected
        → (on_message p x).0.state ≡ connected) where
    -- What is claimed of a list of answers.
    abbrev Reads : List RecvAnswer → Type 0
    Reads answers =
        (f : Framer) (r : RingBuffer) (x : Core × A)
        → IsValid r
        → x.0.state ≡ connected
        → front f.max_payload_len r.capacity (contents r) ≡ more
        → 4 ≤ r.capacity
        → Ends answers
        → Fits on_message answers f (at_ring on_message r x) x.1
        → AllRead on_message f.max_payload_len r.capacity (contents r) answers x
            (read_loop on_message answers f (at_ring on_message r x) x.1)

    received_waiting :
        (bytes : List ℕ) (answers : List RecvAnswer)
        → Reads answers
        → (f : Framer) (r : RingBuffer) (x : Core × A) (v : IsValid r)
          (waits : front f.max_payload_len r.capacity (contents r) ≡ more) (big : 4 ≤ r.capacity)
          (d : Drained on_message f.max_payload_len r.capacity
            (contents r ++ bytes)
            x
            (take_bytes on_message f (at_ring on_message r x) x.1 bytes))
        → x.0.state ≡ connected
        → d.stop ≡ waiting
        → Ends answers
        → Later on_message answers (take_bytes on_message f (at_ring on_message r x) x.1 bytes)
        → AllRead on_message f.max_payload_len r.capacity
            (contents r)
            (received bytes ∷ answers)
            x
            (read_loop on_message (received bytes ∷ answers) f (at_ring on_message r x) x.1)
    received_waiting bytes answers reads f r x v waits big d up e ends fits =
        let rest =
          reads d.framer d.ring (deliver on_message d.payloads x) d.valid
            (deliver-connected on_message stays d.payloads x up)
            (ap₂ (λ m c. front m c (contents d.ring)) d.same_limit d.same_capacity
              ∙ waiting-more d.parsed e)
            (omega (arith, big, d.same_capacity)) ends
            (subst (Later on_message answers)
              (d.result
                ∙ ap
                    (λ s.
                      some (finish on_message s d.framer d.ring (deliver on_message d.payloads x)))
                    e)
              fits) in
        let Ended : ℕ → ℕ → Type 0 = λ max capacity.
          AllRead on_message max capacity (contents d.ring) answers
            (deliver on_message d.payloads x)
            (read_loop on_message answers d.framer
              (at_ring on_message d.ring (deliver on_message d.payloads x))
              (deliver on_message d.payloads x).1) in
        went_on on_message f r x v waits big bytes answers d e (
          subst (λ m. Ended m r.capacity) d.same_limit
            (subst (Ended d.framer.max_payload_len) d.same_capacity rest))

    received_read :
        (bytes : List ℕ) (answers : List RecvAnswer)
        → Reads answers
        → Reads (received bytes ∷ answers)
    unfolding Ends Fits
    received_read bytes answers reads f r x v up waits big ends fits =
        let d =
          take_bytes_lem on_message stays f r x bytes v up fits.0
            (omega (arith, fits.1, free_space-eq v)) in
        elim (Stop-cases d.stop) [
          | inr e ↦ stopped_at on_message f r x v waits big bytes answers d e
          | inl e ↦ received_waiting bytes answers reads f r x v waits big d up e ends fits.2
        ]

    interrupted_read : (answers : List RecvAnswer) → Reads answers → Reads (interrupted ∷ answers)
    unfolding Ends Fits
    interrupted_read answers reads f r x v up waits big ends fits =
        again_at on_message f r x v waits big answers (reads f r x v up waits big ends fits)

    not_ended : (answers : List RecvAnswer) → ¬ Ends answers → Reads answers
    not_ended answers never f r x v up waits big ends fits = absurd (never ends)

    -- On a ring that waits for the rest of a frame, while the callbacks leave the session connected
    -- and each receive fits into the ring, the loop goes on until the kernel has no more, or to
    -- bytes that are no frame.
    pub read_loop_lem : (answers : List RecvAnswer) → Reads answers
    read_loop_lem [] = not_ended [] Ends-nil
    read_loop_lem (end_of_stream ∷ answers) =
        not_ended (end_of_stream ∷ answers) (Ends-end_of_stream answers)
    read_loop_lem (failed errno ∷ answers) =
        not_ended (failed errno ∷ answers) (Ends-failed errno answers)
    read_loop_lem (would_block ∷ answers) =
        λ f r x v up waits big ends fits. at_end on_message f r x v waits big answers
    read_loop_lem (interrupted ∷ answers) = interrupted_read answers (read_loop_lem answers)
    read_loop_lem (received bytes ∷ answers) = received_read bytes answers (read_loop_lem answers)
