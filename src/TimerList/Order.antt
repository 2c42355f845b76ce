-- ===== src/TimerList/Order.antt =====
-- The order of the list of socket/timer/sigalrm_list_timer.h.
use unix_programming.Base.{
  ℕ, ◌<◌, ◌≤◌, ◌≡◌, refl, ap, sym, subst, inl, inr, Bool-cases, true, false, none, List, [], ◌∷◌,
  ◌++◌, map, arith, ltb, Gives, Gives-map, length, All,
}
use unix_programming.TimerList.{Timers, tick}
use unix_programming.TimerList.Chain.{Entry, has, IsList}
use unix_programming.TimerList.Loop.{insert}
use unix_programming.TimerList.Tick.{expired, remaining, Ticked, tick_loop}

-- by the time of expiry
abbrev pub IsSorted : List Entry → Type 0
IsSorted [] = Unit
IsSorted (x ∷ xs) = All (λ y. x.expire ≤ y.expire) xs × IsSorted xs

All-insert :
    (n : ℕ) (t : Entry) (xs : List Entry)
    → n ≤ t.expire
    → All (λ y. n ≤ y.expire) xs
    → All (λ y. n ≤ y.expire) (insert t xs)
unfolding insert
All-insert n t [] h k = (h, tt)
All-insert n t (x ∷ xs) h k = elim (Bool-cases (ltb t.expire x.expire)) [
  | inl before ↦ rw before (h, k)
  | inr behind ↦ rw behind (k.0, All-insert n t xs h k.1)
]

All-le :
    (n m : ℕ) (xs : List Entry) → n ≤ m → All (λ y. m ≤ y.expire) xs → All (λ y. n ≤ y.expire) xs
All-le n m [] h k = tt
All-le n m (x ∷ xs) h k = (omega arith, All-le n m xs h k.1)

pub insert-IsSorted : (t : Entry) (xs : List Entry) → IsSorted xs → IsSorted (insert t xs)
unfolding insert
insert-IsSorted t [] h = (tt, tt)
insert-IsSorted t (x ∷ xs) h = elim (Bool-cases (ltb t.expire x.expire)) [
  | inl before ↦ rw before ((ground arith, All-le t.expire x.expire xs (ground arith) h.0), h)
  | inr behind ↦ rw behind (All-insert x.expire t xs (ground arith) h.0, insert-IsSorted t xs h.1)
]

-- behind timers that expire no later, `t` goes where it goes in the whole list
pub insert-append :
    (t : Entry) (pre post : List Entry)
    → All (λ y. y.expire ≤ t.expire) pre
    → insert t (pre ++ post) ≡ pre ++ insert t post
unfolding insert
insert-append t [] post h = refl
insert-append t (x ∷ pre) post h =
    let behind : ltb t.expire x.expire ≡ false = ground arith in
    rw behind (ap (◌∷◌ x) (insert-append t pre post h.1))

-- a sorted list falls into the timers that are due and the others
record Split (cur : ℕ) (xs : List Entry) : Type 0 where
  whole : xs ≡ expired cur xs ++ remaining cur xs
  due : All (λ y. y.expire ≤ cur) (expired cur xs)
  later : All (λ y. cur < y.expire) (remaining cur xs)
  sorted : IsSorted (remaining cur xs)

All-later :
    (cur n : ℕ) (xs : List Entry)
    → cur < n
    → All (λ y. n ≤ y.expire) xs
    → All (λ y. cur < y.expire) xs
All-later cur n [] h k = tt
All-later cur n (x ∷ xs) h k = (omega arith, All-later cur n xs h k.1)

sorted-Split : (cur : ℕ) (xs : List Entry) → IsSorted xs → Split cur xs
unfolding expired remaining
sorted-Split cur [] h = record { whole = refl; due = tt; later = tt; sorted = tt }
sorted-Split cur (x ∷ xs) h = elim (Bool-cases (ltb cur x.expire)) [
  | inl later ↦ record {
    whole = rw later refl;
    due = rw later tt;
    later = rw later (ground arith, All-later cur x.expire xs (ground arith) h.0);
    sorted = rw later h;
  }
  | inr due ↦
      let rest = sorted-Split cur xs h.1 in
      record {
        whole = rw due (ap (◌∷◌ x) rest.whole);
        due = rw due (ground arith, rest.due);
        later = rw due rest.later;
        sorted = rw due rest.sorted;
      }
]

-- what tick did: `ds` were due and have been called back in their order and freed; the others stay
pub record Fired (cur : ℕ) (xs ds rs : List Entry) (r : Timers × List ℕ) : Type 0 where
  pub whole : xs ≡ ds ++ rs
  pub due : All (λ y. y.expire ≤ cur) ds
  pub later : All (λ y. cur < y.expire) rs
  pub list : IsList r.0 rs
  pub sorted : IsSorted rs
  pub called : r.1 ≡ map (λ x. x.user_data) ds
  pub freed : (a : ℕ) → has a ds ≡ true → r.0.memory a ≡ none

-- tick, with enough fuel, on a sorted list calls back exactly the timers whose time has come, in
-- their order, and frees them; the list that stays is sorted and linked.
pub tick-Fired :
    (cur f : ℕ) (s : Timers) (xs : List Entry)
    → IsList s xs
    → IsSorted xs
    → length xs < f
    → Gives
        (λ r. (ds : List Entry) × (rs : List Entry) × Fired cur xs ds rs r)
        (tick f cur s.head s)
tick-Fired cur f s xs is sorted fuel =
    let parts = sorted-Split cur xs sorted in
    Gives-map
      (subst (λ h. Gives (Ticked s cur xs) (tick f cur h s)) (sym is.head)
        (tick_loop cur f s xs is fuel))
      λ r t. (
        expired cur xs,
        remaining cur xs,
        record {
          whole = parts.whole;
          due = parts.due;
          later = parts.later;
          list = t.list;
          sorted = parts.sorted;
          called = t.called;
          freed = t.freed;
        },
      )
