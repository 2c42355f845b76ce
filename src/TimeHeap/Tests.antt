-- ===== src/TimeHeap/Tests.antt =====
-- A heap of three timers, and the theorems on socket/timer/time_heap_timer.h at it.
use unix_programming.Base.{
  ℕ, zero, suc, ◌≡◌, refl, Option, none, some, List, [], ◌∷◌, arith, ◌==◌, if◌then◌else◌, Gives,
  ◌>>=◌,
}
use unix_programming.TimeHeap.{
  Timer, Memory, TimeHeap, expire_of, expire_at, store, smaller_child, percolate_loop,
  percolate_down, pop_first, pop_timer, tick_loop, tick, heapify, heap_of, made, exception,
  add_timer, percolate_up, resize, new_heap,
}
use unix_programming.TimeHeap.Array.{key, AllLive, IsOrderedFrom}
use unix_programming.TimeHeap.Pop.{IsHeap}
use unix_programming.TimeHeap.Tick.{Fires, tick-Fires}

abbrev timer : ℕ → ℕ → Timer
timer expire user = record { expire = expire; callback = some user }

abbrev memory : Memory
memory p =
    if p == 1
    then some (timer 10 61)
    else if p == 2
    then some (timer 20 62)
    else if p == 3
    then some (timer 30 63)
    else none

abbrev three : TimeHeap
three = record { array = some 1 ∷ some 2 ∷ some 3 ∷ none ∷ []; cur_size = 3; mem = memory }

three-live : AllLive memory 3 three.array
three-live zero h = record { address = 1; timer = timer 10 61; points = refl; holds = refl }
three-live (suc zero) h = record { address = 2; timer = timer 20 62; points = refl; holds = refl }
three-live (suc (suc zero)) h = record {
  address = 3;
  timer = timer 30 63;
  points = refl;
  holds = refl;
}
three-live (suc (suc (suc i))) h = absurd (omega arith)

three-order : IsOrderedFrom 0 memory 3 three.array
unfolding key
three-order zero p q r = absurd (omega arith)
three-order (suc zero) p q r = omega arith
three-order (suc (suc c)) p q r = absurd (omega arith)

three-IsHeap : IsHeap three
three-IsHeap = record {
  size = omega arith;
  room = omega arith;
  live = three-live;
  order = three-order;
  once = λ p. ground arith;
}

tick-Fires_example : Gives (Fires 15 three) (tick 15 three)
tick-Fires_example = tick-Fires 15 three three-IsHeap

-- The timer at 2 has expired at 25, but it is the last entry, and a tick does not find it.
abbrev after_first : List (Option ℕ)
after_first = some 3 ∷ some 2 ∷ some 3 ∷ none ∷ []

misses_the_last :
    Gives
      (λ r.
        (r.0.array ≡ after_first)
        × (r.1 ≡ 61 ∷ [])
        × Gives (λ r'. (r'.0.array ≡ after_first) × (r'.1 ≡ [])) (tick 25 r.0))
      (tick 15 three)
unfolding tick tick_loop pop_timer pop_first percolate_down percolate_loop smaller_child store
    expire_at expire_of
misses_the_last = Gives.gives (refl, refl, Gives.gives (refl, refl))

-- On an empty heap add_timer reads through a null pointer.
first_add : add_timer (some 1) (new_heap 4 memory) ≡ none
unfolding add_timer resize percolate_up new_heap expire_at expire_of
first_add = refl

-- A timer that is added with a later expiry stands behind cur_size, where no other operation looks.
skips_a_place :
    Gives
      (λ h. (h.array ≡ some 1 ∷ some 2 ∷ none ∷ some 3 ∷ []) × (h.cur_size ≡ 3))
      (add_timer
        (some 3)
        (record three { array = some 1 ∷ some 2 ∷ none ∷ none ∷ []; cur_size = 2 }))
unfolding add_timer resize percolate_up store expire_at expire_of
skips_a_place = Gives.gives (refl, refl)

orders :
    Gives
      (λ h. h.array ≡ some 1 ∷ some 2 ∷ some 3 ∷ none ∷ [])
      (heap_of (some 2 ∷ some 1 ∷ some 3 ∷ []) 3 4 memory >>= λ m. elim m [
        | exception ↦ none
        | made h ↦ some h
      ])
unfolding heap_of heapify percolate_down percolate_loop smaller_child store expire_at expire_of
orders = Gives.gives refl
