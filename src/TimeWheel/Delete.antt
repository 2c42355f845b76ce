-- ===== src/TimeWheel/Delete.antt =====
-- Taking a timer off the wheel of socket/timer/time_wheel_timer.h.
use unix_programming.Base.{
  ℕ, ◌+◌, ◌/◌, ◌%◌, ◌<◌, ◌≡◌, refl, ap, ◌∙◌, List, [], ◌∷◌, arith, length, set, pos, true, ◌==◌,
  set-set, set-get_or, get_or-set_same,
}
use unix_programming.TimeWheel.{Timer, Wheel, slot, ticks_of, add_timer, unlink, del_timer}
use unix_programming.TimeWheel.Due.{IsWheel}

unlink-head : (t : Timer) (ts : List Timer) → unlink t.address (t ∷ ts) ≡ ts
unfolding unlink
unlink-head t ts = let same : (t.address == t.address) ≡ true = ground arith in rw same refl

-- Deleting a timer that has just been added gives back the wheel as it was.
pub del_timer-add_timer :
    (address timeout : ℕ) (w : Wheel)
    → IsWheel w
    → let r = add_timer address (pos timeout) w in del_timer r.0 r.1 ≡ w
unfolding del_timer add_timer
del_timer-add_timer address timeout w h =
    let ts = (w.cur_slot + ticks_of timeout % 60) % 60 in
    let timer : Timer = record {
      address = address;
      rotation = ticks_of timeout / 60;
      time_slot = ts;
    } in
    let inside : ts < length w.slots = (let e = h.size in omega arith) in
    ap (λ (xs : List (List Timer)). record w { slots = xs })
      (set-set w.slots ts (timer ∷ slot w ts) _
        ∙ ap (λ (xs : List Timer). set w.slots ts (unlink address xs))
            (get_or-set_same w.slots ts (timer ∷ slot w ts) [] inside)
        ∙ ap (set w.slots ts) (unlink-head timer (slot w ts))
        ∙ set-get_or w.slots ts [])
