-- ===== src/TimeWheel/Due.antt =====
-- When the timers of socket/timer/time_wheel_timer.h are due.
use unix_programming.Base.{
  ℕ, ◌+◌, ◌-◌, ◌*◌, ◌/◌, ◌%◌, ◌<◌, ◌≡◌, ◌≢◌, refl, ◌∙◌, ap, sym, inl, inr, Bool-cases, true, false,
  some, List, [], ◌∷◌, map, arith, ltb, ◌==◌, if◌then◌else◌, length, pos, length-set,
  get_or-set_same, get_or-set_other,
}
use unix_programming.TimeWheel.{Timer, Wheel, slot, ticks_of, add_timer, run_slot, tick}

-- how many calls of tick pass before the one that calls back, for a timer in slot `i`
abbrev pub due : (cur i rotation : ℕ) → ℕ
due cur i rotation = (i + 60 - cur) % 60 + 60 * rotation

-- the timers of a slot, each with that number
abbrev pub dues : Wheel → ℕ → List (ℕ × ℕ)
dues w i = map (λ t. (t.address, due w.cur_slot i t.rotation)) (slot w i)

-- the wheel's shape
pub record IsWheel (w : Wheel) : Type 0 where
  pub size : length w.slots ≡ 60
  pub current : w.cur_slot < 60

-- what a tick should do to a list of timers with their numbers
abbrev pub later : List (ℕ × ℕ) → List (ℕ × ℕ)
later [] = []
later ((a, d) ∷ ts) = let rest = later ts in if ltb 0 d then (a, d - 1) ∷ rest else rest

abbrev pub due_now : List (ℕ × ℕ) → List ℕ
due_now [] = []
due_now ((a, d) ∷ ts) = let rest = due_now ts in if ltb 0 d then rest else a ∷ rest

due_here : (c r : ℕ) → c < 60 → due c c r ≡ 60 * r
due_here c r h = omega arith

due_next_here : (c r : ℕ) → c < 60 → 0 < r → due ((c + 1) % 60) c (r - 1) ≡ due c c r - 1
due_next_here c r h k = omega arith

due_next : (c i r : ℕ) → c < 60 → i < 60 → i ≢ c → due ((c + 1) % 60) i r ≡ due c i r - 1
due_next c i r h k ne = omega arith

due_pos : (c i r : ℕ) → c < 60 → i < 60 → i ≢ c → 0 < due c i r
due_pos c i r h k ne = omega arith

due_new : (c t : ℕ) → c < 60 → due c ((c + t % 60) % 60) (t / 60) ≡ t
due_new c t h = omega arith

abbrev with_due : (cur i : ℕ) → Timer → ℕ × ℕ
with_due cur i t = (t.address, due cur i t.rotation)

-- the slot that the tick works on
run_slot-later :
    (c : ℕ) (ts : List Timer)
    → c < 60
    → (map (with_due ((c + 1) % 60) c) (run_slot ts).0 ≡ later (map (with_due c c) ts))
      × ((run_slot ts).1 ≡ due_now (map (with_due c c) ts))
unfolding run_slot
run_slot-later c [] h = (refl, refl)
run_slot-later c (t ∷ ts) h =
    let (stay, called) = run_slot-later c ts h in
    elim (Bool-cases (ltb 0 t.rotation)) [
      | inl more ↦
          let positive : ltb 0 (due c c t.rotation) ≡ true =
            (let e = due_here c t.rotation h in ground arith) in
          let next = due_next_here c t.rotation h (ground arith) in
          rw (more, positive, stay, called, next) (refl, refl)
      | inr done ↦
          let now : ltb 0 (due c c t.rotation) ≡ false =
            (let e = due_here c t.rotation h in ground arith) in
          rw (done, now, stay, called) (refl, refl)
    ]

-- a slot that it leaves alone
other_slot :
    (c i : ℕ) (ts : List Timer)
    → c < 60
    → i < 60
    → i ≢ c
    → (map (with_due ((c + 1) % 60) i) ts ≡ later (map (with_due c i) ts))
      × ([] ≡ due_now (map (with_due c i) ts))
other_slot c i [] h k ne = (refl, refl)
other_slot c i (t ∷ ts) h k ne =
    let (stay, called) = other_slot c i ts h k ne in
    let positive : ltb 0 (due c i t.rotation) ≡ true =
      (let e = due_pos c i t.rotation h k ne in ground arith) in
    let next = due_next c i t.rotation h k ne in rw (positive, stay, ← called, next) (refl, refl)

-- what a tick does to a wheel
pub record Ticked (w : Wheel) (r : Wheel × List ℕ) : Type 0 where
  pub shape : IsWheel r.0
  pub called : r.1 ≡ due_now (dues w w.cur_slot)
  pub others : (i : ℕ) → i < 60 → i ≢ w.cur_slot → due_now (dues w i) ≡ []
  pub counted : (i : ℕ) → i < 60 → dues r.0 i ≡ later (dues w i)

-- tick calls back exactly the timers that are due, all of which are in the current slot, and takes
-- them off the wheel; every other timer stays in its slot and comes one tick nearer.
pub tick-Ticked : (w : Wheel) → IsWheel w → Ticked w (tick w)
unfolding tick
tick-Ticked w h =
    let c = w.cur_slot in
    let (stay, called) = run_slot-later c (slot w c) h.current in
    record {
      shape = record {
        size = length-set w.slots c _ ∙ h.size;
        current = (let k = h.current in omega arith);
      };
      called = called;
      others = λ i k ne. sym (other_slot c i (slot w i) h.current k ne).1;
      counted = λ i k. elim (Bool-cases (i == c)) [
        | inl same ↦
            let s : i ≡ c = ground arith in
            rw s (
              rw
                (get_or-set_same w.slots c (run_slot (slot w c)).0 []
                  (let e = h.size in let k2 = h.current in omega arith))
                stay)
        | inr other ↦
            let ne : i ≢ c = ground arith in
            rw (get_or-set_other w.slots i c (run_slot (slot w c)).0 [] ne)
              (other_slot c i (slot w i) h.current k ne).0
      ];
    }

-- A timer that is added with a timeout of t seconds is the head of its slot and will be called
-- back after t more ticks (after one more where t is 0); the other slots do not change.
pub add_timer-due :
    (address timeout : ℕ) (w : Wheel)
    → IsWheel w
    → (t : Timer) × ((add_timer address (pos timeout) w).0 ≡ some t)
      × (t.time_slot < 60)
      × (dues (add_timer address (pos timeout) w).1 t.time_slot
          ≡ (address, ticks_of timeout) ∷ dues w t.time_slot)
      × ((i : ℕ) → i ≢ t.time_slot → dues (add_timer address (pos timeout) w).1 i ≡ dues w i)
      × IsWheel (add_timer address (pos timeout) w).1
unfolding add_timer
add_timer-due address timeout w h =
    let ticks = ticks_of timeout in
    let ts = (w.cur_slot + ticks % 60) % 60 in
    let timer : Timer = record { address = address; rotation = ticks / 60; time_slot = ts } in
    let new : due w.cur_slot ts (ticks / 60) ≡ ticks = due_new w.cur_slot ticks h.current in
    (
      timer,
      refl,
      (omega arith),
      rw (get_or-set_same w.slots ts (timer ∷ slot w ts) [] (let e = h.size in omega arith))
          (ap (λ d. (address, d) ∷ dues w ts) new),
      (λ i ne. rw (get_or-set_other w.slots i ts (timer ∷ slot w ts) [] ne) refl),
      record { size = length-set w.slots ts _ ∙ h.size; current = h.current },
    )
