-- ===== src/Core/Timer.antt =====
-- engine/src/hypernet/core/TimerWheel.cpp: timers in slots by the tick at which they expire. A
-- callback is a name; `run` is what it does to the application and the timers that it asks for.
pub mod Slots
pub mod Fire
pub mod Due
use network_engine_portfolio.Prelude.{
  ℕ, zero, suc, ◌+◌, ◌-◌, ◌*◌, ◌/◌, ◌%◌, ◌^◌, ◌≤◌, Bool, true, false, Option, none, some, List, [],
  ◌∷◌, ◌++◌, ◌==◌, ltb, leb, if◌then◌else◌, add64, sub64, get_or, set, replicate,
}

pub record Timer (K : Type 0) : Type 0 where
  pub id : ℕ
  pub expiration_tick : ℕ
  pub callback : K

-- `lastTickTime_` is the clock of the other overload of `tick`, below.
pub record TimerWheel (K : Type 0) : Type 0 where
  pub tick_resolution : ℕ
  pub slot_count : ℕ
  pub slots : List (List (Timer K))
  pub last_tick_time : ℕ
  pub current_tick : ℕ
  pub next_id : ℕ
  pub active_timers : ℕ

-- The constructor; `none` where it throws. Times are in milliseconds.
unfoldable pub make_wheel : {K : Type 0} → ℕ → ℕ → ℕ → Option (TimerWheel K)
make_wheel tick_resolution slot_count now =
    if tick_resolution == 0
    then none
    else if slot_count == 0
    then none
    else some (record {
      tick_resolution = tick_resolution;
      slot_count = slot_count;
      slots = replicate slot_count [];
      last_tick_time = now;
      current_tick = 0;
      next_id = 1;
      active_timers = 0;
    })

-- A delay of no time, or of less than none, is 0 here.
unfoldable pub duration_to_ticks : ℕ → ℕ → ℕ
duration_to_ticks resolution delay =
    if delay == 0 then 0 else sub64 (add64 delay resolution) 1 / resolution

unfoldable pub next_timer_id : ℕ → ℕ
next_timer_id id = let n = add64 id 1 in if n == 0 then 1 else n

module _ {K : Type 0} where
  unfoldable pub push_to_slot : TimerWheel K → ℕ → Timer K → List (List (Timer K))
  push_to_slot w i t = set w.slots i (get_or w.slots i [] ++ t ∷ [])

  unfoldable pub add_timer : TimerWheel K → ℕ → K → ℕ × TimerWheel K
  add_timer w delay callback =
      let ticks = duration_to_ticks w.tick_resolution delay in
      let delay_ticks = if ticks == 0 then 1 else ticks in
      let expiration = add64 w.current_tick delay_ticks in
      let t : Timer K = record {
        id = w.next_id;
        expiration_tick = expiration;
        callback = callback;
      } in
      (
        w.next_id,
        record w {
          slots = push_to_slot w (expiration % w.slot_count) t;
          next_id = next_timer_id w.next_id;
          active_timers = w.active_timers + 1;
        },
      )

  unfoldable pub add_timers : TimerWheel K → List (ℕ × K) → TimerWheel K
  add_timers w [] = w
  add_timers w ((delay, callback) ∷ more) = add_timers (add_timer w delay callback).1 more

  module _ {A : Type 0} (run : K → A → A × List (ℕ × K)) where
    -- One timer of `scratch_`: it runs if it is due, and goes back to its slot if not.
    unfoldable pub handle_timer : TimerWheel K × A → Timer K → TimerWheel K × A
    handle_timer (w, a) t =
        let (a', requests) = run t.callback a in
        let w' : TimerWheel K = add_timers w requests in
        if leb t.expiration_tick w.current_tick
        then (record w' { active_timers = w'.active_timers - 1 }, a')
        else (record w { slots = push_to_slot w (t.expiration_tick % w.slot_count) t }, a)

    unfoldable pub handle_timers : TimerWheel K × A → List (Timer K) → TimerWheel K × A
    handle_timers x [] = x
    handle_timers x (t ∷ ts) = handle_timers (handle_timer x t) ts

    unfoldable pub process_current_tick : TimerWheel K → A → TimerWheel K × A
    process_current_tick w a =
        let i = w.current_tick % w.slot_count in
        handle_timers (record w { slots = set w.slots i [] }, a) (get_or w.slots i [])

    unfoldable pub tick : TimerWheel K → A → TimerWheel K × A
    tick w a = process_current_tick (record w { current_tick = add64 w.current_tick 1 }) a

    unfoldable pub ticks : ℕ → TimerWheel K × A → TimerWheel K × A
    ticks zero x = x
    ticks (suc n) (w, a) = ticks n (tick w a)

    -- `tick(now)`
    unfoldable pub tick_at : ℕ → TimerWheel K → A → TimerWheel K × A
    tick_at now w a =
        let n = (now - w.last_tick_time) / w.tick_resolution in
        let (w', a') = ticks n (w, a) in
        if leb now w.last_tick_time
        then (w, a)
        else if ltb (now - w.last_tick_time) w.tick_resolution
        then (w, a)
        else (record w' { last_tick_time = w'.last_tick_time + w'.tick_resolution * n }, a')
