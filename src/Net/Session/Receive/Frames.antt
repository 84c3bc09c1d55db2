-- ===== src/Net/Session/Receive/Frames.antt =====
-- What a session hands to the application is the frames of the byte stream.
use network_engine_portfolio.Prelude.{
  ℕ, zero, suc, ◌+◌, ◌-◌, ◌≤◌, ◌<◌, ◌≡◌, refl, ap, sym, subst, ◌∙◌, ◌⊎◌, inl, inr, true, false,
  some, Option, List, [], ◌∷◌, ◌++◌, length, arith, length-drop,
}
use network_engine_portfolio.Buffer.Ring.{RingBuffer}
use network_engine_portfolio.Buffer.Ring.Valid.{IsValid, contents, length-contents}
use network_engine_portfolio.Buffer.Ring.Write.{Appended}
use network_engine_portfolio.Buffer.Ring.Receive.{receive, receive-Appended}
use network_engine_portfolio.Protocol.Framer.{
  Framer, Attempt, FrameResult, need_more, framed, invalid, try_frame, max-try_frame,
}
use network_engine_portfolio.Protocol.Framer.Spec.{
  frame, front, Reads, observe_as, payload_of, try_frame_lem,
}
use network_engine_portfolio.Protocol.Framer.Stream.{
  Stop, waiting, refused, Parses, wants, bad, next, front-frame, announced,
}
use network_engine_portfolio.Net.Session.{connected, Core, begin_close, framer_invalid}
use network_engine_portfolio.Net.Session.Receive.{
  Reading, process_recv_frames, take_bytes, no_iovecs,
}

FrameResult-cases : (x : FrameResult) → (x ≡ need_more) ⊎ ((x ≡ framed) ⊎ (x ≡ invalid))
FrameResult-cases need_more = inl refl
FrameResult-cases framed = inr (inl refl)
FrameResult-cases invalid = inr (inr refl)

module _ {A : Type 0} (on_message : List ℕ → Core × A → Core × A) where
  -- The payloads handed over one after the other.
  abbrev pub deliver : List (List ℕ) → Core × A → Core × A
  deliver [] x = x
  deliver (p ∷ ps) x = deliver ps (on_message p x)

  -- What is returned when the stream waits, and when its front is no frame.
  abbrev pub finish : Stop → Framer → RingBuffer → Core × A → Reading A
  finish waiting f r x = record {
    ok = true;
    framer = f;
    session = record { core = x.0; recv_ring = some r };
    app = x.1;
  }
  finish refused f r x = record {
    ok = false;
    framer = f;
    session = record { core = begin_close x.0 framer_invalid 0; recv_ring = some r };
    app = x.1;
  }

  -- The payloads of the frames at the front of `bytes` were delivered in order, and the ring holds
  -- what stands behind them; the session closes exactly when that is no frame.
  pub record Drained (max capacity : ℕ) (bytes : List ℕ) (x : Core × A) (out : Option (Reading A))
      : Type 0 where
    pub payloads : List (List ℕ)
    pub stop : Stop
    pub ring : RingBuffer
    pub framer : Framer
    pub parsed : Parses max capacity bytes payloads (contents ring) stop
    pub valid : IsValid ring
    pub same_capacity : ring.capacity ≡ capacity
    pub same_limit : framer.max_payload_len ≡ max
    pub result : out ≡ some (finish stop framer ring (deliver payloads x))

  -- One turn of the loop, by what the framer found.
  module _ (fuel : ℕ) (f : Framer) (r : RingBuffer) (c : Core) (a : A) where
    abbrev run : Option (Reading A)
    run = process_recv_frames on_message (suc fuel) f (record { core = c; recv_ring = some r }) a

    abbrev t : Attempt
    t = try_frame f r

    turn_more : t.result ≡ need_more → run ≡ some (finish waiting t.framer t.ring (c, a))
    unfolding process_recv_frames
    turn_more e = rw (process_recv_frames, e) refl

    turn_invalid : t.result ≡ invalid → run ≡ some (finish refused t.framer t.ring (c, a))
    unfolding process_recv_frames
    turn_invalid e = rw (process_recv_frames, e) refl

    turn_framed :
        t.result ≡ framed
        → (on_message (payload_of t) (c, a)).0.state ≡ connected
        → run
          ≡ process_recv_frames on_message fuel t.framer
              (record { core = (on_message (payload_of t) (c, a)).0; recv_ring = some t.ring })
              (on_message (payload_of t) (c, a)).1
    unfolding process_recv_frames
    turn_framed e up = simp (process_recv_frames, e, up)

  abbrev loop : ℕ → Framer → RingBuffer → Core × A → Option (Reading A)
  loop fuel f r x =
      process_recv_frames on_message fuel f (record { core = x.0; recv_ring = some r }) x.1

  -- What a run from a framer, a ring and the rest of the world must come to.
  abbrev Runs : ℕ → Framer → RingBuffer → Core × A → Type 0
  Runs fuel f r x = Drained f.max_payload_len r.capacity (contents r) x (loop fuel f r x)

  module _ (f : Framer) (r : RingBuffer) (v : IsValid r) where
    abbrev first : Attempt
    first = try_frame f r

    did : Reads (front f.max_payload_len r.capacity (contents r)) r first
    did = try_frame_lem f v

    unmoved :
        ¬ (first.result ≡ framed) → (first.result ≡ framed) ⊎ (first.ring ≡ r) → first.ring ≡ r
    unmoved kept_on (inl g) = absurd (kept_on g)
    unmoved kept_on (inr g) = g

    fronted :
        first.result ≡ framed
        → front f.max_payload_len r.capacity (contents r)
          ≡ frame (payload_of first) (contents first.ring)
    fronted e = sym did.seen ∙ ap (λ s. observe_as s first) e

    less : first.result ≡ framed → first.ring.size < r.size
    less e =
        let (a, b, c, d, g) = front-frame f.max_payload_len r.capacity (contents r) (fronted e) in
        omega (
          arith,
          c,
          ap length g,
          length-drop (4 + announced (contents r)) (contents r),
          length-contents first.ring,
          length-contents r,
        )

    module _ (fuel : ℕ) (x : Core × A) where
      at_more : first.result ≡ need_more → Runs (suc fuel) f r x
      at_more e = record {
        payloads = [];
        stop = waiting;
        ring = first.ring;
        framer = first.framer;
        parsed =
            wants (sym did.seen ∙ ap (λ s. observe_as s first) e)
              (ap contents (unmoved (λ g. cc) did.kept));
        valid = did.valid;
        same_capacity = did.same_capacity;
        same_limit = max-try_frame f r;
        result = turn_more fuel f r x.0 x.1 e;
      }

      at_invalid : first.result ≡ invalid → Runs (suc fuel) f r x
      at_invalid e = record {
        payloads = [];
        stop = refused;
        ring = first.ring;
        framer = first.framer;
        parsed =
            bad (sym did.seen ∙ ap (λ s. observe_as s first) e)
              (ap contents (unmoved (λ g. cc) did.kept));
        valid = did.valid;
        same_capacity = did.same_capacity;
        same_limit = max-try_frame f r;
        result = turn_invalid fuel f r x.0 x.1 e;
      }

      at_frame :
          first.result ≡ framed
          → (on_message (payload_of first) x).0.state ≡ connected
          → Runs fuel first.framer first.ring (on_message (payload_of first) x)
          → Runs (suc fuel) f r x
      at_frame e up rest = record {
        payloads = payload_of first ∷ rest'.payloads;
        stop = rest'.stop;
        ring = rest'.ring;
        framer = rest'.framer;
        parsed = next (payload_of first) (contents first.ring) (fronted e) rest'.parsed;
        valid = rest'.valid;
        same_capacity = rest'.same_capacity;
        same_limit = rest'.same_limit;
        result = turn_framed fuel f r x.0 x.1 e up ∙ rest'.result;
      }
        where
          rest' :
              Drained f.max_payload_len r.capacity
                (contents first.ring)
                (on_message (payload_of first) x)
                (loop fuel first.framer first.ring (on_message (payload_of first) x))
          rest' = rw (max-try_frame f r, did.same_capacity) at rest

  module _
      (stays : (p : List ℕ) (x : Core × A)
        → x.0.state ≡ connected
        → (on_message p x).0.state ≡ connected) where
    -- While the callbacks leave the session connected, and with fuel for each byte, the loop over
    -- the frames ends: it has delivered, in order, the payloads of the frames at the front of the
    -- ring, keeps what stands behind them, and closes the session exactly when that is no frame.
    process_recv_frames_lem :
        (fuel : ℕ) (f : Framer) (r : RingBuffer) (x : Core × A)
        → IsValid r
        → x.0.state ≡ connected
        → r.size < fuel
        → Drained f.max_payload_len r.capacity
            (contents r)
            x
            (process_recv_frames on_message fuel f (record { core = x.0; recv_ring = some r }) x.1)
    process_recv_frames_lem zero f r x v up h = absurd (omega arith)
    process_recv_frames_lem (suc fuel) f r x v up h =
        elim (FrameResult-cases (try_frame f r).result) [
          | inl e ↦ at_more f r v fuel x e
          | inr (inl e) ↦
              let up' : (on_message (payload_of (try_frame f r)) x).0.state ≡ connected =
                stays (payload_of (try_frame f r)) x up in
              at_frame f r v fuel x e up' (
                process_recv_frames_lem fuel (try_frame f r).framer (try_frame f r).ring _
                  (did f r v).valid up' (omega (arith, less f r v e)))
          | inr (inr e) ↦ at_invalid f r v fuel x e
        ]

    -- On a connected session with a valid ring that has room for the bytes of one receive, and
    -- while the callbacks leave the session connected, the loop over the frames ends within its
    -- fuel: what was delivered, in order, and what the ring keeps are a cut of the bytes that it
    -- held with the new ones behind them, and the session closes as framer_invalid exactly when
    -- the cut stops at something that is no frame.
    pub take_bytes_lem :
        (f : Framer) (r : RingBuffer) (x : Core × A) (bytes : List ℕ)
        → IsValid r
        → x.0.state ≡ connected
        → 0 < length bytes
        → length bytes ≤ r.capacity - r.size
        → Drained f.max_payload_len r.capacity
            (contents r ++ bytes)
            x
            (take_bytes on_message f (record { core = x.0; recv_ring = some r }) x.1 bytes)
    unfolding take_bytes
    take_bytes_lem f r x bytes v up given h =
        subst (λ b. Drained f.max_payload_len r.capacity b x (loop (suc r'.size) f r' x)) a.bytes
          (subst (λ k. Drained f.max_payload_len k (contents r') x (loop (suc r'.size) f r' x))
            a.same_capacity (process_recv_frames_lem (suc r'.size) f r' x a.valid up (omega arith)))
      where
        r' : RingBuffer
        r' = receive r no_iovecs bytes

        a : Appended r bytes r'
        a = receive-Appended v bytes given h no_iovecs
