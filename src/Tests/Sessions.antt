-- ===== src/Tests/Sessions.antt =====
-- Sessions and timers: receiving, sending, closing and the wheel at concrete inputs.
use network_engine_portfolio.Prelude.{
  tabulate, ℕ, zero, suc, get_or, ◌+◌, ◌≡◌, refl, true, false, List, [], ◌∷◌, ◌++◌, some, none,
  arith,
}
use network_engine_portfolio.Buffer.Ring.{RingBuffer}
use network_engine_portfolio.Buffer.Ring.Valid.{contents}
use network_engine_portfolio.Protocol.Framer.{Framer}
use network_engine_portfolio.Net.Session.{connected, Core, epoll_hup, framer_invalid}
use network_engine_portfolio.Net.Session.Receive.{take_bytes}
use network_engine_portfolio.Net.Session.Receive.Frames.{Drained, take_bytes_lem}
use network_engine_portfolio.Net.Session.Receive.{ring_is_full}
use network_engine_portfolio.Net.Session.Receive.Frames.{finish}
use network_engine_portfolio.Net.Session.Receive.Room.{waiting-room}
use network_engine_portfolio.Protocol.Framer.Spec.{front}
use network_engine_portfolio.Protocol.Framer.Stream.{waiting, wants}
use network_engine_portfolio.Net.Session.Close.{
  by_session, by_manager, close_all, shut, first_effects, close_all_lem,
}
use network_engine_portfolio.Core.Timer.Due.{due, all_timers, run_all, tick-runs}
use network_engine_portfolio.Net.Session.Send.Stream.{Streamed}
use network_engine_portfolio.Net.Session.Send.Packet.{enqueue_packet_u16_coalesced-Streamed}
use network_engine_portfolio.Net.Session.Send.{
  enqueue_packet_u16_coalesced, sent, interrupted, would_block,
}
use network_engine_portfolio.Net.Session.Send.Flush.{with_ring}
use network_engine_portfolio.Core.Timer.{TimerWheel, tick}
use network_engine_portfolio.Core.Timer.Slots.{IsWheel, All, Placed}
use network_engine_portfolio.Core.Timer.Fire.{tick-IsWheel, Modest}

-- Seven bytes that go round the end: a frame of two bytes and the start of the next.
abbrev ring : RingBuffer
ring = record {
  buffer = 0 ∷ 0 ∷ 2 ∷ 9 ∷ 8 ∷ 0 ∷ 0 ∷ 0 ∷ [];
  capacity = 8;
  head = 7;
  tail = 6;
  size = 7;
}

abbrev framer : Framer
framer = record { max_payload_len = 4; scratch = []; last_error = none }

abbrev core : Core
core = record {
  state = connected;
  send_ring = some ring;
  fd = some 7;
  write_interest = false;
  has_manager = true;
  log = [];
}

-- Payloads are kept in the order in which they come.
abbrev keep : List ℕ → Core × List (List ℕ) → Core × List (List ℕ)
keep p (c, seen) = (c, seen ++ p ∷ [])

take_bytes_lem_example :
    Drained keep 4 8
      (contents ring ++ 0 ∷ [])
      (core, [])
      (take_bytes keep framer (record { core = core; recv_ring = some ring }) [] (0 ∷ []))
take_bytes_lem_example =
    take_bytes_lem keep (λ p x up. up) framer ring (core, []) (0 ∷ []) (omega arith) refl
      (omega arith) (omega arith)

-- Half a frame, which waits.
abbrev half : RingBuffer
half = record {
  buffer = 0 ∷ 0 ∷ 0 ∷ 0 ∷ 0 ∷ 0 ∷ 0 ∷ 0 ∷ [];
  capacity = 8;
  head = 0;
  tail = 2;
  size = 2;
}

half_taken :
    Drained keep 4 8 (contents half) (core, []) (some (finish keep waiting framer half (core, [])))
unfolding front contents tabulate
half_taken = record {
  payloads = [];
  stop = waiting;
  ring = half;
  framer = framer;
  parsed = wants refl refl;
  valid = omega arith;
  same_capacity = refl;
  same_limit = refl;
  result = refl;
}

waiting-room_example : ring_is_full keep (record { core = core; recv_ring = some half }) ≡ false
unfolding half_taken
waiting-room_example = waiting-room keep core half_taken refl (omega arith)

close_all_lem_example :
    close_all core (by_session framer_invalid 0 ∷ by_manager ∷ by_session epoll_hup 0 ∷ [])
    ≡ shut core (first_effects core (by_session framer_invalid 0))
close_all_lem_example =
    close_all_lem core (by_session framer_invalid 0) (by_manager ∷ by_session epoll_hup 0 ∷ []) refl

-- One timer, three ticks ahead in a wheel of two slots.
abbrev wheel : TimerWheel ℕ
wheel = record {
  tick_resolution = 10;
  slot_count = 2;
  slots = [] ∷ (record { id = 1; expiration_tick = 3; callback = 0 } ∷ []) ∷ [];
  last_tick_time = 0;
  current_tick = 0;
  next_id = 2;
  active_timers = 1;
}

wheel_placed : IsWheel wheel
unfolding All
wheel_placed = record {
  resolution = omega arith;
  slots_there = omega arith;
  slots_all = refl;
  placed = λ i. at_slot i;
}
  where
    at_slot : (i : ℕ) → All (Placed 2 1 i) (get_or wheel.slots i [])
    at_slot zero = tt
    at_slot (suc zero) = ((refl, omega arith), tt)
    at_slot (suc (suc i)) = tt

-- A callback that asks for itself again.
abbrev again : ℕ → ℕ → ℕ × List (ℕ × ℕ)
again k a = (a + 1, (15, k) ∷ [])

again-Modest : (k : ℕ) (a : ℕ) → All (Modest 1 10) (again k a).1
unfolding All
again-Modest k a = (omega arith, tt)

tick-IsWheel_example :
    IsWheel (tick again wheel 0).0 × ((tick again wheel 0).0.current_tick ≡ 0 + 1)
tick-IsWheel_example =
    tick-IsWheel again 1 10 again-Modest wheel 0 wheel_placed refl refl (omega arith)

-- The kernel takes what the ring holds and one byte of the packet.
enqueue_packet_u16_coalesced-Streamed_example :
    Streamed ring (1 ∷ [] ++ (contents ring ++ (0 ∷ 0 ∷ 0 ∷ 3 ∷ [] ++ (0 ∷ 7 ∷ [] ++ (5 ∷ []))))) (
      enqueue_packet_u16_coalesced
        (λ fd enable. none)
        (interrupted ∷ sent 8 ∷ [] ++ would_block ∷ [])
        (with_ring core ring)
        (1 ∷ [])
        (0 ∷ 0 ∷ 0 ∷ 3 ∷ [])
        (0 ∷ 7 ∷ [])
        (some (5 ∷ []))
        1)
enqueue_packet_u16_coalesced-Streamed_example =
    enqueue_packet_u16_coalesced-Streamed (λ fd enable. none) core refl (interrupted ∷ sent 8 ∷ [])
      (1 ∷ []) (0 ∷ 0 ∷ 0 ∷ 3 ∷ []) (0 ∷ 7 ∷ []) (5 ∷ []) (omega arith)

tick-runs_example : (tick again wheel 0).1 ≡ run_all again (due (0 + 1) (all_timers wheel.slots)) 0
tick-runs_example = tick-runs again wheel 0 wheel_placed (omega arith)
