-- ===== src/ProcessPool/Dispatch.antt =====
-- How the parent of socket/pool/processpool.h hands out connections.
use unix_programming.Base.{
  ℕ, zero, suc, ◌+◌, ◌-◌, ◌%◌, ◌<◌, ◌≡◌, ◌≢◌, refl, sym, ap, subst, ◌∙◌, ◌⊎◌, inl, inr, true, false,
  some, List, [], ◌∷◌, arith, Bool-cases, ltb, ◌==◌, if◌then◌else◌, length, Gives, gives, Gives-inv,
  eqb→eq, ltb→lt,
}
use native.Mathlib.Nat.{mod-add-mod, add_assoc, add-zero, mod-eq_of_lt, add-mod_right}
use unix_programming.ProcessPool.{Process, Parent, Step, Action, send_conn, is_live, pick, dispatch}

-- no live child among the `d` from `counter` on
abbrev pub NoneLive : List Process → ℕ → ℕ → Type 0
NoneLive ps counter d = (e : ℕ) → e < d → is_live ps ((counter + e) % length ps) ≡ false

abbrev Picked : List Process → ℕ → ℕ → Type 0
Picked ps counter i =
    ((d : ℕ) × (d < length ps)
      × (i ≡ (counter + d) % length ps)
      × (is_live ps i ≡ true)
      × NoneLive ps counter d)
    ⊎ ((i ≡ counter) × NoneLive ps counter (length ps))

add_mod : (a d n : ℕ) → 0 < n → ((a + d) % n + 1) % n ≡ (a + (d + 1)) % n
add_mod a d n h = mod-add-mod (a + d) n 1 ∙ ap (λ (x : ℕ). x % n) (add_assoc a d 1)

wraps : (c d n : ℕ) → c < n → d < n → (c + (d + 1)) % n ≡ c → d + 1 ≡ n
wraps c d n hc hd e = elim (Bool-cases (ltb (c + (d + 1)) n)) [
  | inl below ↦
      let same : (c + (d + 1)) % n ≡ c + (d + 1) = mod-eq_of_lt (ltb→lt _ _ below) in
      absurd (omega arith)
  | inr above ↦
      let k = c + (d + 1) - n in
      let whole : c + (d + 1) ≡ k + n = ground arith in
      let same : (k + n) % n ≡ k = add-mod_right k n ∙ mod-eq_of_lt (ground arith) in
      let back : (c + (d + 1)) % n ≡ k = ap (λ (x : ℕ). x % n) whole ∙ same in omega arith
]

comes_in : (c n : ℕ) → c < n → (c + 0) % n ≡ c
comes_in c n h = ap (λ (x : ℕ). x % n) (add-zero c) ∙ mod-eq_of_lt h

comes_back : (c n : ℕ) → c < n → (c + n) % n ≡ c
comes_back c n h = add-mod_right c n ∙ mod-eq_of_lt h

NoneLive-suc :
    (ps : List Process) (counter d i : ℕ)
    → NoneLive ps counter d
    → i ≡ (counter + d) % length ps
    → is_live ps i ≡ false
    → NoneLive ps counter (d + 1)
NoneLive-suc ps counter d i h e dead k lt = elim (Bool-cases (k == d)) [
  | inl same ↦ let s : k ≡ d = ground arith in rw (s, ← e) dead
  | inr other ↦ h k (ground arith)
]

-- the search from the d-th child behind the counter on
pick-Picked :
    (f : ℕ) (ps : List Process) (counter d i : ℕ)
    → counter < length ps
    → d + f ≡ length ps
    → 0 < f
    → i ≡ (counter + d) % length ps
    → NoneLive ps counter d
    → Gives (Picked ps counter) (pick ps counter f i)
unfolding pick
pick-Picked zero ps counter d i lt e f_pos at none_live = absurd (omega arith)
pick-Picked (suc f) ps counter d i lt e f_pos at none_live = elim (Bool-cases (is_live ps i)) [
  | inl live ↦ rw live (gives (inl (d, omega arith, at, live, none_live)))
  | inr dead ↦
      let n = length ps in
      let dead_too = NoneLive-suc ps counter d i none_live at dead in
      let next : (i + 1) % n ≡ (counter + (d + 1)) % n =
        rw at (add_mod counter d n (omega arith)) in
      rw dead (elim (Bool-cases ((i + 1) % n == counter)) [
        | inl back ↦
            let all : d + 1 ≡ n = wraps counter d n lt (omega arith) (sym next ∙ eqb→eq _ _ back) in
            rw back (gives (inr (eqb→eq _ _ back, subst (NoneLive ps counter) all dead_too)))
        | inr on ↦
            let more : d + 1 ≢ n = λ all.
              let back : (i + 1) % n ≡ counter =
                next ∙ ap (λ (x : ℕ). (counter + x) % n) all ∙ comes_back counter n lt in
              absurd (ground arith) in
            rw on (
              pick-Picked f ps counter (d + 1) ((i + 1) % n) lt (omega arith) (omega arith) next
                dead_too)
      ])
]

-- the first live child from the counter on was chosen, or there is none
abbrev pub Dispatched : Parent → Step → Type 0
Dispatched s r =
    ((d : ℕ) × (d < length s.sub_process)
      × (is_live s.sub_process ((s.counter + d) % length s.sub_process) ≡ true)
      × NoneLive s.sub_process s.counter d
      × (r.actions ≡ send_conn ((s.counter + d) % length s.sub_process) ∷ [])
      × (r.state ≡ record s {
        counter = ((s.counter + d) % length s.sub_process + 1) % length s.sub_process;
      })
      × (r.goes_on ≡ true))
    ⊎ (NoneLive s.sub_process s.counter (length s.sub_process)
        × (r.actions ≡ [])
        × (r.state ≡ record s { stop = true })
        × (r.goes_on ≡ false))

-- With the counter in range, a connection is sent to the first live child from the counter on, in
-- the cyclic order of the children, and then the counter stands behind that child. Only if no
-- child is live, nothing is sent, the parent is told to stop, and the loop over the events ends.
pub dispatch-Dispatched :
    (s : Parent) → s.counter < length s.sub_process → Gives (Dispatched s) (dispatch s)
unfolding dispatch
dispatch-Dispatched s h =
    let (i, run, picked) = Gives-inv found in rw (run, dispatch) (by_pick i picked)
  where
    start : s.counter ≡ (s.counter + 0) % length s.sub_process
    start = sym (comes_in s.counter (length s.sub_process) h)

    found :
        Gives
          (Picked s.sub_process s.counter)
          (pick s.sub_process s.counter (length s.sub_process) s.counter)
    found =
        pick-Picked (length s.sub_process) s.sub_process s.counter 0 s.counter h (omega arith)
          (omega arith) start λ e lt. absurd (omega arith)

    by_pick :
        (i : ℕ)
        → Picked s.sub_process s.counter i
        → Gives (Dispatched s) (
            some (
              if is_live s.sub_process i
              then record {
                state = record s { counter = (i + 1) % length s.sub_process };
                actions = send_conn i ∷ [];
                goes_on = true;
              }
              else record { state = record s { stop = true }; actions = []; goes_on = false }))
    by_pick i (inl (d, lt, at, live, none_live)) = rw live (
        gives (
          inl (
            d,
            lt,
            subst (λ x. is_live s.sub_process x ≡ true) at live,
            none_live,
            ap (λ x. send_conn x ∷ []) at,
            ap (λ (x : ℕ). record s { counter = (x + 1) % length s.sub_process }) at,
            refl,
          )))
    by_pick i (inr (back, none_live)) =
        let dead : is_live s.sub_process i ≡ false =
          subst (λ x. is_live s.sub_process x ≡ false) (sym start ∙ sym back)
            (none_live 0 (omega arith)) in
        rw dead (gives (inr (none_live, refl, refl, refl)))

-- the children to which `k` connections go, from the j-th on
abbrev pub sends : (counter n j k : ℕ) → List Action
sends counter n j zero = []
sends counter n j (suc k) = send_conn ((counter + j) % n) ∷ sends counter n (j + 1) k
