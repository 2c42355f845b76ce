-- ===== src/TimeWheel/Tests.antt =====
-- Timers of socket/timer/time_wheel_timer.h, and the theorems at them.
use unix_programming.Base.{◌≡◌, refl, [], ◌∷◌, replicate, arith, pos}
use unix_programming.TimeWheel.{Wheel, add_timer, del_timer, tick}
use unix_programming.TimeWheel.Due.{IsWheel, Ticked, tick-Ticked}
use unix_programming.TimeWheel.Delete.{del_timer-add_timer}

-- a wheel in the slot before the last
abbrev empty : Wheel
empty = record { slots = replicate 60 []; cur_slot = 58 }

abbrev two : Wheel
two = (add_timer 8 (pos 60) (add_timer 7 (pos 0) empty).1).1

two-IsWheel : IsWheel two
unfolding add_timer
two-IsWheel = record { size = refl; current = omega arith }

tick-Ticked_example : Ticked two (tick two)
tick-Ticked_example = tick-Ticked two two-IsWheel

first_two : ((tick two).1 ≡ []) × ((tick (tick two).0).1 ≡ 7 ∷ [])
unfolding tick add_timer
first_two = (refl, refl)

del_timer-add_timer_example : let r = add_timer 9 (pos 125) two in del_timer r.0 r.1 ≡ two
del_timer-add_timer_example = del_timer-add_timer 9 125 two two-IsWheel
