-- ===== src/Net/Session/Receive/Turns.antt =====
-- One turn of the loop over the receives of `onReadable_`.
use network_engine_portfolio.Prelude.{
  ℕ, ◌≤◌, ◌≡◌, refl, ap, sym, subst, ◌∙◌, inl, inr, false, if◌then◌else◌, Option, some, List, [],
  ◌∷◌, ◌++◌, arith, append_assoc, append-nil,
}
use network_engine_portfolio.Buffer.Ring.{RingBuffer}
use network_engine_portfolio.Buffer.Ring.Valid.{IsValid, contents, length-contents, free_space-eq}
use network_engine_portfolio.Protocol.Framer.{Framer}
use network_engine_portfolio.Protocol.Framer.Spec.{more, front}
use network_engine_portfolio.Protocol.Framer.Stream.{
  waiting, refused, Parses, wants, waiting-lt, Parses-append,
}
use network_engine_portfolio.Net.Session.{Core, recv_overflow}
use network_engine_portfolio.Net.Session.Receive.{
  Reading, RecvAnswer, received, interrupted, would_block, take_bytes, read_loop, ring_is_full,
  no_iovecs, stop_reading,
}
use network_engine_portfolio.Net.Session.Receive.Frames.{Drained, deliver, finish}
use network_engine_portfolio.Net.Session.Receive.Room.{write_iov-count}
use network_engine_portfolio.Net.Session.Receive.Arrivals.{
  bytes_of, at_ring, AllRead, deliver-append,
}

module _ {A : Type 0} (on_message : List ℕ → Core × A → Core × A) where
  module _ (f : Framer) (r : RingBuffer) (x : Core × A) (v : IsValid r)
      (waits : front f.max_payload_len r.capacity (contents r) ≡ more) (big : 4 ≤ r.capacity) where
    not_full : ring_is_full on_message (at_ring on_message r x) ≡ false
    unfolding ring_is_full
    not_full = write_iov-count r no_iovecs (
        omega (
          arith,
          free_space-eq v,
          waiting-lt f.max_payload_len r.capacity (wants waits refl) refl big,
          length-contents r,
        ))

    abbrev pub loop : List RecvAnswer → Option (Reading A)
    loop answers = read_loop on_message answers f (at_ring on_message r x) x.1

    pub at_end :
        (answers : List RecvAnswer)
        → AllRead on_message f.max_payload_len r.capacity
            (contents r)
            (would_block ∷ answers)
            x
            (loop (would_block ∷ answers))
    unfolding read_loop bytes_of
    at_end answers = record {
      taken = [];
      untaken = [];
      whole = refl;
      drained = record {
        payloads = [];
        stop = waiting;
        ring = r;
        framer = f;
        parsed =
            wants (ap (front f.max_payload_len r.capacity) (append-nil (contents r)) ∙ waits)
              (sym (append-nil (contents r)));
        valid = v;
        same_capacity = refl;
        same_limit = refl;
        result = rw (read_loop, not_full) refl;
      };
      to_the_end = inr (refl, refl);
    }

    retried : (answers : List RecvAnswer) → loop (interrupted ∷ answers) ≡ loop answers
    unfolding read_loop
    retried answers =
        ap
          (λ b.
            if b
            then stop_reading on_message f (at_ring on_message r x) recv_overflow 0 x.1
            else loop answers)
          not_full

    pub again_at :
        (answers : List RecvAnswer)
        → AllRead on_message f.max_payload_len r.capacity (contents r) answers x (loop answers)
        → AllRead on_message f.max_payload_len r.capacity
            (contents r)
            (interrupted ∷ answers)
            x
            (loop (interrupted ∷ answers))
    unfolding bytes_of
    again_at answers rest =
        subst
          (AllRead on_message f.max_payload_len r.capacity (contents r) (interrupted ∷ answers) x)
          (sym (retried answers))
          (record {
            taken = rest.taken;
            untaken = rest.untaken;
            whole = rest.whole;
            drained = rest.drained;
            to_the_end = rest.to_the_end;
          })

    refused_at :
        (bytes : List ℕ) (answers : List RecvAnswer)
        (d : Drained on_message f.max_payload_len r.capacity
          (contents r ++ bytes)
          x
          (take_bytes on_message f (at_ring on_message r x) x.1 bytes))
        → d.stop ≡ refused
        → loop (received bytes ∷ answers)
          ≡ some (finish on_message d.stop d.framer d.ring (deliver on_message d.payloads x))
    unfolding read_loop
    refused_at bytes answers d e =
        subst
          (λ s.
            take_bytes on_message f (at_ring on_message r x) x.1 bytes
              ≡ some (finish on_message s d.framer d.ring (deliver on_message d.payloads x))
            → loop (received bytes ∷ answers)
              ≡ some (finish on_message s d.framer d.ring (deliver on_message d.payloads x)))
          (sym e) (λ q. rw (read_loop, not_full, q) refl) d.result

    waits_at :
        (bytes : List ℕ) (answers : List RecvAnswer)
        (d : Drained on_message f.max_payload_len r.capacity
          (contents r ++ bytes)
          x
          (take_bytes on_message f (at_ring on_message r x) x.1 bytes))
        → d.stop ≡ waiting
        → loop (received bytes ∷ answers)
          ≡ read_loop on_message answers d.framer
              (at_ring on_message d.ring (deliver on_message d.payloads x))
              (deliver on_message d.payloads x).1
    unfolding read_loop
    waits_at bytes answers d e =
        let q : take_bytes on_message f (at_ring on_message r x) x.1 bytes
            ≡ some (finish on_message waiting d.framer d.ring (deliver on_message d.payloads x)) =
          d.result
          ∙ ap (λ s. some (finish on_message s d.framer d.ring (deliver on_message d.payloads x)))
              e in
        rw (read_loop, not_full, q) refl

    pub stopped_at :
        (bytes : List ℕ) (answers : List RecvAnswer)
        (d : Drained on_message f.max_payload_len r.capacity
          (contents r ++ bytes)
          x
          (take_bytes on_message f (at_ring on_message r x) x.1 bytes))
        → d.stop ≡ refused
        → AllRead on_message f.max_payload_len r.capacity
            (contents r)
            (received bytes ∷ answers)
            x
            (loop (received bytes ∷ answers))
    unfolding bytes_of
    stopped_at bytes answers d e = record {
      taken = bytes;
      untaken = bytes_of answers;
      whole = refl;
      drained = record {
        payloads = d.payloads;
        stop = d.stop;
        ring = d.ring;
        framer = d.framer;
        parsed = d.parsed;
        valid = d.valid;
        same_capacity = d.same_capacity;
        same_limit = d.same_limit;
        result = refused_at bytes answers d e;
      };
      to_the_end = inl e;
    }

    pub went_on :
        (bytes : List ℕ) (answers : List RecvAnswer)
        (d : Drained on_message f.max_payload_len r.capacity
          (contents r ++ bytes)
          x
          (take_bytes on_message f (at_ring on_message r x) x.1 bytes))
        → d.stop ≡ waiting
        → AllRead on_message f.max_payload_len r.capacity
            (contents d.ring)
            answers
            (deliver on_message d.payloads x)
            (read_loop on_message answers d.framer
              (at_ring on_message d.ring (deliver on_message d.payloads x))
              (deliver on_message d.payloads x).1)
        → AllRead on_message f.max_payload_len r.capacity
            (contents r)
            (received bytes ∷ answers)
            x
            (loop (received bytes ∷ answers))
    unfolding bytes_of
    went_on bytes answers d e rest = record {
      taken = bytes ++ rest.taken;
      untaken = rest.untaken;
      whole = append_assoc bytes rest.taken rest.untaken ∙ ap (λ t. bytes ++ t) rest.whole;
      drained = record {
        payloads = d.payloads ++ rest.drained.payloads;
        stop = rest.drained.stop;
        ring = rest.drained.ring;
        framer = rest.drained.framer;
        parsed =
            subst
              (λ b.
                Parses f.max_payload_len r.capacity b (d.payloads ++ rest.drained.payloads)
                  (contents rest.drained.ring) rest.drained.stop)
              (append_assoc (contents r) bytes rest.taken)
              (Parses-append f.max_payload_len r.capacity rest.taken d.parsed e
                rest.drained.parsed);
        valid = rest.drained.valid;
        same_capacity = rest.drained.same_capacity;
        same_limit = rest.drained.same_limit;
        result =
            waits_at bytes answers d e
            ∙ rest.drained.result
            ∙ ap
                (λ y.
                  some
                    (finish on_message rest.drained.stop rest.drained.framer rest.drained.ring y))
                (sym (deliver-append on_message d.payloads rest.drained.payloads x));
      };
      to_the_end = rest.to_the_end;
    }
