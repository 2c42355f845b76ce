-- ===== src/TimeWheel/Calls.antt =====
-- Timers of socket/timer/time_wheel_timer.h over many ticks.
use unix_programming.Base.{
  ℕ, zero, suc, ◌-◌, ◌<◌, ◌≡◌, refl, sym, ap, subst, ◌⊎◌, inl, inr, Bool-cases, true, false, List,
  [], ◌∷◌, arith, ltb, ◌==◌, pos,
}
use unix_programming.TimeWheel.{Wheel, ticks_of, add_timer, tick}
use unix_programming.TimeWheel.Due.{dues, IsWheel, later, due_now, tick-Ticked, add_timer-due}

abbrev pub In : {A : Type 0} → A → List A → Type 0
In x [] = ⊥
In x (y ∷ ys) = (x ≡ y) ⊎ In x ys

abbrev pub run_ticks : ℕ → Wheel → Wheel
run_ticks zero w = w
run_ticks (suc n) w = run_ticks n (tick w).0

later-In : (a d : ℕ) (ts : List (ℕ × ℕ)) → In (a, suc d) ts → In (a, d) (later ts)
later-In a d [] m = m
later-In a d ((b, e) ∷ ts) (inl same) =
    let first : a ≡ b = ap (λ x. x.0) same in
    let second : suc d ≡ e = ap (λ x. x.1) same in
    let positive : ltb 0 e ≡ true = ground arith in
    let less : d ≡ e - 1 = omega arith in rw positive (inl (cc))
later-In a d ((b, e) ∷ ts) (inr m) = elim (Bool-cases (ltb 0 e)) [
  | inl more ↦ rw more (inr (later-In a d ts m))
  | inr done ↦ rw done (later-In a d ts m)
]

due_now-In : (a : ℕ) (ts : List (ℕ × ℕ)) → In (a, 0) ts → In a (due_now ts)
due_now-In a [] m = m
due_now-In a ((b, e) ∷ ts) (inl same) =
    let first : a ≡ b = ap (λ x. x.0) same in
    let second : 0 ≡ e = ap (λ x. x.1) same in
    let now : ltb 0 e ≡ false = ground arith in rw now (inl first)
due_now-In a ((b, e) ∷ ts) (inr m) = elim (Bool-cases (ltb 0 e)) [
  | inl more ↦ rw more (due_now-In a ts m)
  | inr done ↦ rw done (inr (due_now-In a ts m))
]

called_when_due :
    (d a i : ℕ) (w : Wheel)
    → IsWheel w
    → i < 60
    → In (a, d) (dues w i)
    → In a (tick (run_ticks d w)).1
called_when_due zero a i w h k m =
    let ticked = tick-Ticked w h in
    elim (Bool-cases (i == w.cur_slot)) [
      | inl same ↦
          let s : i ≡ w.cur_slot = ground arith in
          rw ticked.called
            (due_now-In a (dues w w.cur_slot) (subst (λ (j : ℕ). In (a, 0) (dues w j)) s m))
      | inr other ↦
          let none_due = ticked.others i k (ground arith) in
          absurd (subst (In a) none_due (due_now-In a (dues w i) m))
    ]
called_when_due (suc d) a i w h k m =
    let ticked = tick-Ticked w h in
    called_when_due d a i (tick w).0 ticked.shape k
      (subst (In (a, d)) (sym (ticked.counted i k)) (later-In a d (dues w i) m))

-- A timer that is added with a timeout of t seconds is called back by the tick that comes after t
-- more (after one more where t is 0), however many other timers there are.
pub add_timer-called :
    (address timeout : ℕ) (w : Wheel)
    → IsWheel w
    → In address (tick (run_ticks (ticks_of timeout) (add_timer address (pos timeout) w).1)).1
add_timer-called address timeout w h =
    let (t, made, inside, own, others, shape) = add_timer-due address timeout w h in
    called_when_due (ticks_of timeout) address t.time_slot (add_timer address (pos timeout) w).1
      shape inside (subst (In (address, ticks_of timeout)) (sym own) (inl refl))
