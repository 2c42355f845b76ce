-- ===== src/TimerList/Tests.antt =====
-- Lists of two and three timers, and the theorems on socket/timer/sigalrm_list_timer.h at them.
use unix_programming.Base.{ℕ, ◌≡◌, refl, Option, none, some, List, [], ◌∷◌, arith, Gives, ◌>>=◌}
use unix_programming.TimerList.{
  Memory, write, Timers, add_timer, adjust_timer, del_timer, tick, insert_after, insert_loop,
  link_front, link_between, link_last, set_next, set_prev, store, adjust_head, adjust_inner, bypass,
  delete_head, delete_tail, delete_inner, release, drop_head,
}
use unix_programming.TimerList.Chain.{Entry, node, IsList, Updated}
use unix_programming.TimerList.Loop.{insert}
use unix_programming.TimerList.Insert.{add_timer-insert}
use unix_programming.TimerList.Adjust.{adjust_timer-insert}
use unix_programming.TimerList.Delete.{Deleted, del_timer-Deleted}
use unix_programming.TimerList.Order.{Fired, tick-Fired}

abbrev entry : (address expire user_data : ℕ) → Entry
entry a e u = record { address = a; expire = e; user_data = u }

abbrev early : Entry
early = entry 1 10 7

abbrev late : Entry
late = entry 2 30 8

abbrev middle : Entry
middle = entry 3 20 9

abbrev nothing : Memory
nothing a = none

-- two timers, and a third that is not in the list
abbrev two : Timers
two = record {
  memory =
      write
        (write (write nothing 1 (some (node early none (some 2)))) 2
          (some (node late (some 1) none)))
        3 (some (node middle none none));
  head = some 1;
  tail = some 2;
}

two-IsList : IsList two (early ∷ late ∷ [])
two-IsList = record {
  chain = (refl, (refl, tt));
  distinct = (refl, (refl, tt));
  head = refl;
  tail = refl;
}

add_timer-insert_example :
    Gives
      (Updated two (middle ∷ early ∷ late ∷ []) (insert middle (early ∷ late ∷ [])))
      (add_timer 3 (some 3) two)
add_timer-insert_example =
    add_timer-insert 3 two middle (early ∷ late ∷ []) two-IsList refl refl (omega arith)

del_timer-Deleted_example : Gives (Deleted two late (early ∷ []) []) (del_timer (some 2) two)
del_timer-Deleted_example = del_timer-Deleted two late (early ∷ []) [] two-IsList

-- the first has been put off to 40
abbrev put_off : Timers
put_off = record two { memory = write two.memory 1 (some (node (entry 1 40 7) none (some 2))) }

put_off-IsList : IsList put_off (entry 1 40 7 ∷ late ∷ [])
put_off-IsList = record {
  chain = (refl, (refl, tt));
  distinct = (refl, (refl, tt));
  head = refl;
  tail = refl;
}

adjust_timer-insert_example :
    Gives
      (Updated put_off (entry 1 40 7 ∷ late ∷ []) (insert (entry 1 40 7) (late ∷ [])))
      (adjust_timer 2 (some 1) put_off)
adjust_timer-insert_example =
    adjust_timer-insert 2 put_off [] (entry 1 40 7) (late ∷ []) put_off-IsList (omega arith)

tick-Fired_example :
    Gives
      (λ r. (ds : List Entry) × (rs : List Entry) × Fired 25 (early ∷ late ∷ []) ds rs r)
      (tick 3 25 two.head two)
tick-Fired_example = tick-Fired 25 3 two (early ∷ late ∷ []) two-IsList (omega arith) (omega arith)

-- the third is added, the first put off, the second deleted, and what is left expires
abbrev day : Option (List ℕ)
day = do
  s ← add_timer 9 (some 3) two
  s ←
      adjust_timer 9 (some 1)
        (record s { memory = write s.memory 1 (some (node (entry 1 40 7) none (some 3))) })
  s ← del_timer (some 2) s
  (s, called) ← tick 9 50 s.head s
  some called

day_calls : day ≡ some (9 ∷ 7 ∷ [])
unfolding add_timer adjust_timer del_timer tick insert_after insert_loop link_front link_between
    link_last set_next set_prev store adjust_head adjust_inner bypass delete_head delete_tail
    delete_inner release drop_head
day_calls = refl
