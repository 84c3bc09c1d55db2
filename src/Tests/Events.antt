-- ===== src/Tests/Events.antt =====
-- The events of a session at concrete inputs.
use network_engine_portfolio.Prelude.{
  arith, tabulate, ℕ, ◌≡◌, refl, Bool, true, false, Option, List, [], ◌∷◌, ◌++◌, some, none,
}
use network_engine_portfolio.Buffer.Ring.{RingBuffer, free_space}
use network_engine_portfolio.Buffer.Ring.Valid.{IsValid, contents}
use network_engine_portfolio.Protocol.Framer.{Framer}
use network_engine_portfolio.Protocol.Framer.Spec.{more, front}
use network_engine_portfolio.Net.Session.Receive.Arrivals.{Ends, Fits, Later, AllRead, at_ring}
use network_engine_portfolio.Net.Session.{connected, closed, Core}
use network_engine_portfolio.Net.Session.Close.{count, is_count_error}
use network_engine_portfolio.Net.Session.Receive.{
  Reading, RecvAnswer, received, would_block, take_bytes,
}
use network_engine_portfolio.Net.Session.Send.{is_connected}
use network_engine_portfolio.Net.Session.Events.{ReadyEvent, on_error, handle_event}
use network_engine_portfolio.Net.Session.Events.Hangup.{
  on_error_lem, read-before_close, read_and_closed, handled_at,
}

abbrev ring : RingBuffer
ring = record { buffer = 0 ∷ 0 ∷ 0 ∷ 0 ∷ []; capacity = 4; head = 0; tail = 2; size = 2 }

abbrev core : Core
core = record {
  state = connected;
  send_ring = none;
  fd = some 7;
  write_interest = false;
  has_manager = true;
  log = [];
}

-- The peer has ended its side, and there is something to read.
abbrev event : ReadyEvent
event = record { input = true; output = false; error = false; hangup = false; read_hangup = true }

on_error_lem_example :
    ((on_error core event).state ≡ closed) × (count is_count_error (on_error core event).log ≡ 0)
on_error_lem_example = on_error_lem core event refl

abbrev framer : Framer
framer = record { max_payload_len = 4; scratch = []; last_error = none }

ring-IsValid : IsValid ring
ring-IsValid = record {
  storage = refl;
  positive = omega arith;
  small = omega arith;
  head_in = omega arith;
  size_in = omega arith;
  tail_at = refl;
}

abbrev keep : List ℕ → Core × List (List ℕ) → Core × List (List ℕ)
keep p (c, seen) = (c, seen ++ p ∷ [])

abbrev accepts : ℕ → Bool → Option ℕ
accepts fd enable = none

-- A connected session stays so for this callback.
keeps :
    (p : List ℕ) (x : Core × List (List ℕ)) → x.0.state ≡ connected → (keep p x).0.state ≡ connected
keeps p x up = up

-- Two bytes come, and then the kernel has no more.
abbrev answers : List RecvAnswer
answers = received (0 ∷ 0 ∷ []) ∷ would_block ∷ []

later : (o : Option (Reading (List (List ℕ)))) → Later keep (would_block ∷ []) o
unfolding Fits
later none = tt
later (some out) = tt

all_fit : Fits keep answers framer (at_ring keep ring (core, [])) []
unfolding Fits free_space
all_fit = (
  omega arith,
  omega arith,
  later (take_bytes keep framer (at_ring keep ring (core, [])) [] (0 ∷ 0 ∷ [])),
)

waits : front 4 4 (contents ring) ≡ more
unfolding front contents tabulate
waits = refl

read-before_close_example :
    (out : Reading (List (List ℕ))) × AllRead keep 4 4 (contents ring) answers (core, []) (some out)
    × (handle_event keep accepts event answers []
          (handled_at keep accepts framer ring (core, []) [])
        ≡ some (
            read_and_closed keep accepts event
              (handled_at keep accepts framer ring (core, []) [])
              out))
    × (is_connected
          (read_and_closed keep accepts event
            (handled_at keep accepts framer ring (core, []) [])
            out).session.core.state
        ≡ false)
unfolding Ends
read-before_close_example =
    read-before_close keep accepts keeps event answers [] framer ring (core, []) [] ring-IsValid
      refl waits (omega arith) tt all_fit refl refl refl
