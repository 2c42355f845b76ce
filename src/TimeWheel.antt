-- ===== src/TimeWheel.antt =====
-- The timing wheel, socket/timer/time_wheel_timer.h. A slot's doubly linked list is the list of its
-- timers from the head on, each with the address of its node; a callback is known by that address.
pub mod Due
pub mod Calls
pub mod Delete
mod Tests
use unix_programming.Base.{
  ℕ, ◌+◌, ◌-◌, ◌/◌, ◌%◌, Option, none, some, List, [], ◌∷◌, ltb, ◌==◌, if◌then◌else◌, get_or, set,
  ℤ, pos, negsuc,
}

abbrev pub slot_count : ℕ
slot_count = 60

abbrev pub slot_interval : ℕ
slot_interval = 1

-- tw_timer, without the links and the callback
pub record Timer : Type 0 where
  pub address : ℕ
  pub rotation : ℕ
  pub time_slot : ℕ

pub record Wheel : Type 0 where
  pub slots : List (List Timer)
  pub cur_slot : ℕ

abbrev pub slot : Wheel → ℕ → List Timer
slot w i = get_or w.slots i []

abbrev pub ticks_of : ℕ → ℕ
ticks_of timeout = if ltb timeout slot_interval then 1 else timeout / slot_interval

-- `address` is what new gives; none is the null pointer
unfoldable pub add_timer : (address : ℕ) → (timeout : ℤ) → Wheel → Option Timer × Wheel
add_timer address (negsuc n) w = (none, w)
add_timer address (pos timeout) w =
    let ticks = ticks_of timeout in
    let ts = (w.cur_slot + ticks % slot_count) % slot_count in
    let timer : Timer = record {
      address = address;
      rotation = ticks / slot_count;
      time_slot = ts;
    } in
    (some timer, record w { slots = set w.slots ts (timer ∷ slot w ts) })

unfoldable pub unlink : ℕ → List Timer → List Timer
unlink address [] = []
unlink address (t ∷ ts) =
    let rest = unlink address ts in if t.address == address then ts else t ∷ rest

unfoldable pub del_timer : Option Timer → Wheel → Wheel
unfolding unlink
del_timer none w = w
del_timer (some t) w = record w {
  slots = set w.slots t.time_slot (unlink t.address (slot w t.time_slot));
}

-- the loop of tick over a slot: the timers that stay, and those whose callback is called
unfoldable pub run_slot : List Timer → List Timer × List ℕ
run_slot [] = ([], [])
run_slot (t ∷ ts) =
    let (stay, called) = run_slot ts in
    if ltb 0 t.rotation
    then (record t { rotation = t.rotation - 1 } ∷ stay, called)
    else (stay, t.address ∷ called)

unfoldable pub tick : Wheel → Wheel × List ℕ
unfolding run_slot
tick w =
    let (stay, called) = run_slot (slot w w.cur_slot) in
    (
      record { slots = set w.slots w.cur_slot stay; cur_slot = (w.cur_slot + 1) % slot_count },
      called,
    )
