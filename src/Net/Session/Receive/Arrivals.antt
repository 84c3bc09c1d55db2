-- ===== src/Net/Session/Receive/Arrivals.antt =====
-- What the kernel brings to a session that reads, and what reading it all comes to.
use network_engine_portfolio.Prelude.{
  ℕ, ◌≤◌, ◌<◌, ◌≡◌, refl, ap, ◌∙◌, ◌⊎◌, inl, inr, Option, none, some, List, [], ◌∷◌, ◌++◌, length,
}
use network_engine_portfolio.Buffer.Ring.{RingBuffer, free_space}
use network_engine_portfolio.Protocol.Framer.{Framer}
use network_engine_portfolio.Protocol.Framer.Spec.{more, front}
use network_engine_portfolio.Protocol.Framer.Stream.{
  Stop, waiting, refused, Parses, wants, bad, next,
}
use network_engine_portfolio.Net.Session.{connected, Core, Session}
use network_engine_portfolio.Net.Session.Receive.{
  Reading, RecvAnswer, received, end_of_stream, interrupted, would_block, failed, take_bytes,
}
use network_engine_portfolio.Net.Session.Receive.Frames.{Drained, deliver}

-- The kernel says in the end that it has no more, without an end of the stream or an error before.
unfoldable pub Ends : List RecvAnswer → Type 0
Ends [] = ⊥
Ends (received _ ∷ answers) = Ends answers
Ends (interrupted ∷ answers) = Ends answers
Ends (would_block ∷ _) = Unit
Ends (end_of_stream ∷ _) = ⊥
Ends (failed _ ∷ _) = ⊥

-- The bytes that come before that.
unfoldable pub bytes_of : List RecvAnswer → List ℕ
bytes_of [] = []
bytes_of (received bytes ∷ answers) = bytes ++ bytes_of answers
bytes_of (interrupted ∷ answers) = bytes_of answers
bytes_of (would_block ∷ _) = []
bytes_of (end_of_stream ∷ _) = []
bytes_of (failed _ ∷ _) = []

pub Stop-cases : (s : Stop) → (s ≡ waiting) ⊎ (s ≡ refused)
Stop-cases waiting = inl refl
Stop-cases refused = inr refl

-- What is left of a stream that waits is no frame yet.
pub waiting-more :
    {max capacity : ℕ} {xs : List ℕ} {ps : List (List ℕ)} {left : List ℕ} {stop : Stop}
    → Parses max capacity xs ps left stop
    → stop ≡ waiting
    → front max capacity left ≡ more
waiting-more {max} {capacity} (wants e l) s = ap (front max capacity) l ∙ e
waiting-more (bad e l) s = cc
waiting-more (next p rest e frames) s = waiting-more frames s

module _ {A : Type 0} (on_message : List ℕ → Core × A → Core × A) where
  abbrev pub room : Session → ℕ
  room s = elim s.recv_ring [ none ↦ 0 | some r ↦ free_space r ]

  -- A receive brings some bytes, and no more than the ring has room for then.
  unfoldable pub Fits : List RecvAnswer → Framer → Session → A → Type 0
  Fits [] f s a = Unit
  Fits (received bytes ∷ answers) f s a =
      (0 < length bytes) × (length bytes ≤ room s) × (elim (take_bytes on_message f s a bytes) [
        | none ↦ Unit
        | some out ↦ Fits answers out.framer out.session out.app
      ])
  Fits (interrupted ∷ answers) f s a = Fits answers f s a
  Fits (would_block ∷ answers) f s a = Unit
  Fits (end_of_stream ∷ answers) f s a = Unit
  Fits (failed _ ∷ answers) f s a = Unit

  abbrev pub Later : List RecvAnswer → Option (Reading A) → Type 0
  Later answers out = elim out [
    | none ↦ Unit
    | some out ↦ Fits answers out.framer out.session out.app
  ]

  abbrev pub at_ring : RingBuffer → Core × A → Session
  at_ring r x = record { core = x.0; recv_ring = some r }

  -- The bytes were taken up to the end, or up to a receive behind which the front is no frame; what
  -- was delivered and what the ring keeps is a cut of those that it held with the taken ones behind.
  pub record AllRead (max capacity : ℕ) (held : List ℕ) (answers : List RecvAnswer) (x : Core × A)
      (out : Option (Reading A)) : Type 0 where
    pub taken : List ℕ
    pub untaken : List ℕ
    pub whole : taken ++ untaken ≡ bytes_of answers
    pub drained : Drained on_message max capacity (held ++ taken) x out
    pub to_the_end : (drained.stop ≡ refused) ⊎ ((drained.stop ≡ waiting) × (untaken ≡ []))

  pub deliver-connected :
      ((p : List ℕ) (x : Core × A) → x.0.state ≡ connected → (on_message p x).0.state ≡ connected)
      → (ps : List (List ℕ)) (x : Core × A) → x.0.state ≡ connected
      → (deliver on_message ps x).0.state ≡ connected
  deliver-connected stays [] x up = up
  deliver-connected stays (p ∷ ps) x up = deliver-connected stays ps (on_message p x) (stays p x up)

  pub deliver-append :
      (ps qs : List (List ℕ)) (x : Core × A)
      → deliver on_message (ps ++ qs) x ≡ deliver on_message qs (deliver on_message ps x)
  deliver-append [] qs x = refl
  deliver-append (p ∷ ps) qs x = deliver-append ps qs (on_message p x)
