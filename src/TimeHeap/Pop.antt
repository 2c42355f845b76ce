-- ===== src/TimeHeap/Pop.antt =====
-- The heap that time_heap of socket/timer/time_heap_timer.h keeps: made by the constructor that
-- takes an array, and kept by pop_timer.
use unix_programming.Base.{
  ℕ, zero, suc, ◌+◌, ◌-◌, ◌≤◌, ◌<◌, ◌≡◌, ◌≢◌, refl, ap, false, Option, none, some, List, [], ◌∷◌,
  arith, ◌==◌, length, set, get_elem?-in, get_or-set_same, get_or-set_other, length-set, ◌>>=◌,
  Gives, gives, Gives-inv, Bool-cases, inl, inr,
}
use unix_programming.TimeHeap.{Timer, Memory, TimeHeap, update, pop_first, pop_timer}
use unix_programming.TimeHeap.Array.{
  entry, IsLive, key, parent, store-set, is_at, count, count-set, count-suc, is_at-le-count,
  IsOrderedFrom, AllLive,
}
use unix_programming.TimeHeap.Down.{root-Sifted}

-- The first cur_size entries of the array are timers, each of them once, in the order that the code
-- keeps, and the array has room for one.
pub record IsHeap (h : TimeHeap) : Type 0 where
  pub size : h.cur_size ≤ length h.array
  pub room : 0 < length h.array
  pub live : AllLive h.mem h.cur_size h.array
  pub order : IsOrderedFrom 0 h.mem h.cur_size h.array
  pub once : (p : ℕ) → count h.array h.cur_size p ≤ 1

pub count-none : (xs : List (Option ℕ)) (p : ℕ) → count xs 0 p ≡ 0
count-none [] p = refl
count-none (x ∷ xs) p = refl

-- what taking the timer at `p` off the heap leaves
pub record Popped (p : ℕ) (h h' : TimeHeap) : Type 0 where
  pub heap : IsHeap h'
  pub fewer : h.cur_size ≡ suc h'.cur_size
  pub freed : h'.mem ≡ update h.mem p none
  pub rest : (q : ℕ) → count h.array h.cur_size q ≡ is_at q (some p) + count h'.array h'.cur_size q

other-key :
    (mem : Memory) (p : ℕ) (x : Option ℕ) → is_at p x ≡ 0 → key (update mem p none) x ≡ key mem x
unfolding key
other-key mem p none h = refl
other-key mem p (some q) h = ground arith

other-IsLive :
    (mem : Memory) (p : ℕ) (x : Option ℕ)
    → is_at p x ≡ 0
    → IsLive mem x
    → IsLive (update mem p none) x
other-IsLive mem p none h l = absurd (let e = l.points in cc)
other-IsLive mem p (some q) h l = record {
  address = l.address;
  timer = l.timer;
  points = l.points;
  holds = (let e = l.points in let t = l.holds in ground arith);
}

-- the array with the last entry put at the root
moved : List (Option ℕ) → ℕ → List (Option ℕ)
moved arr n = set arr 0 (entry arr n)

moved-rest :
    (arr : List (Option ℕ)) (n p q : ℕ)
    → suc n ≤ length arr
    → entry arr 0 ≡ some p
    → count arr (suc n) q ≡ is_at q (some p) + count (moved arr n) n q
unfolding moved
moved-rest arr zero p q size first = omega (
  arith,
  count-suc arr 0 q,
  count-none arr q,
  count-none (set arr 0 (entry arr 0)) q,
  ap (is_at q) first,
)
moved-rest arr (suc n) p q size first = omega (
  arith,
  count-suc arr (suc n) q,
  count-set arr 0 (suc n) q (entry arr (suc n)),
  ap (is_at q) first,
)

pub is_at_self : (p : ℕ) → is_at p (some p) ≡ 1
is_at_self p = ground arith

module _ (mem : Memory) (arr : List (Option ℕ)) (n p : ℕ) (size : suc n ≤ length arr)
    (live : AllLive mem (suc n) arr) (order : IsOrderedFrom 0 mem (suc n) arr)
    (once : (q : ℕ) → count arr (suc n) q ≤ 1) (first : entry arr 0 ≡ some p) where
  -- the timer at the root stands nowhere else
  moved_away : (i : ℕ) → i < n → is_at p (entry (moved arr n) i) ≡ 0
  unfolding moved
  moved_away i h = omega (
    arith,
    moved-rest arr n p p size first,
    once p,
    is_at_self p,
    is_at-le-count (moved arr n) i n p h (omega (arith, length-set arr 0 (entry arr n))),
  )

  moved_root : entry (moved arr n) 0 ≡ entry arr n
  unfolding moved
  moved_root = get_or-set_same arr 0 (entry arr n) none (omega arith)

  moved_other : (i : ℕ) → i ≢ 0 → entry (moved arr n) i ≡ entry arr i
  unfolding moved
  moved_other i h = get_or-set_other arr i 0 (entry arr n) none h

  moved-live : AllLive (update mem p none) n (moved arr n)
  moved-live i h =
      other-IsLive mem p (entry (moved arr n) i) (moved_away i h) (elim (Bool-cases (i == 0)) [
        | inl e ↦ let z : i ≡ 0 = ground arith in rw z (rw moved_root (live n (omega arith)))
        | inr e ↦ rw (moved_other i (ground arith)) (live i (omega arith))
      ])

  moved-edges :
      (c : ℕ)
      → 0 < parent c
      → suc c < n
      → key (update mem p none) (entry (moved arr n) (parent c))
        ≤ key (update mem p none) (entry (moved arr n) c)
  moved-edges c up less =
      rw
        (
          other-key mem p (entry (moved arr n) (parent c)) (moved_away (parent c) (omega arith)),
          other-key mem p (entry (moved arr n) c) (moved_away c (omega arith)),
          moved_other (parent c) (omega arith),
          moved_other c (omega arith),
        )
        (order c (omega arith) (omega arith) (omega arith))

abbrev pub heap : List (Option ℕ) → ℕ → Memory → TimeHeap
heap arr n mem = record { array = arr; cur_size = n; mem = mem }

pub live_timer :
    (mem : Memory) (x : Option ℕ) (p : ℕ)
    → IsLive mem x
    → x ≡ some p
    → (t : Timer) × (mem p ≡ some t)
live_timer mem x p l e = (l.timer, (let a = l.points in let b = l.holds in ground arith))

pop_first-Popped :
    (mem : Memory) (arr : List (Option ℕ)) (n p : ℕ)
    → IsHeap (heap arr (suc n) mem)
    → entry arr 0 ≡ some p
    → Gives (Popped p (heap arr (suc n) mem)) (pop_first p (heap arr (suc n) mem))
unfolding pop_first moved
pop_first-Popped mem arr n p v first =
    let (t, held) = live_timer mem (entry arr 0) p (v.live 0 (omega arith)) first in
    let size = v.size in
    let room = v.room in
    let less : suc n - 1 ≡ n = omega arith in
    let last = get_elem?-in arr n none (omega arith) in
    let kept = length-set arr 0 (entry arr n) in
    let (b, run, s) = Gives-inv (
      root-Sifted (update mem p none) n (set arr 0 (entry arr n)) (omega arith) (omega arith)
        (moved-live mem arr n p size v.live v.order v.once first)
        (moved-edges mem arr n p size v.live v.order v.once first)) in
    let sb = s.size in
    rw (held, ◌>>=◌, less)
      (rw (last, ◌>>=◌)
        (rw (store-set arr 0 (entry arr n) room, ◌>>=◌)
          (rw (run, ◌>>=◌)
            (gives (record {
              heap = record {
                size = omega arith;
                room = omega arith;
                live = s.live;
                order = s.order;
                once = λ q. omega (arith, moved-rest arr n p q size first, v.once q, s.same q);
              };
              fewer = refl;
              freed = refl;
              rest = λ q. omega (arith, moved-rest arr n p q size first, s.same q);
            })))))

-- pop_timer on a heap that is not empty takes its first timer off, frees it and keeps the heap.
pub pop_timer-Popped :
    (mem : Memory) (arr : List (Option ℕ)) (n p : ℕ)
    → IsHeap (heap arr (suc n) mem)
    → entry arr 0 ≡ some p
    → Gives (Popped p (heap arr (suc n) mem)) (pop_timer (heap arr (suc n) mem))
unfolding pop_timer
pop_timer-Popped mem arr n p v first =
    let some_left : (suc n == 0) ≡ false = ground arith in
    rw (some_left, get_elem?-in arr 0 none v.room, ◌>>=◌)
      (rw first (pop_first-Popped mem arr n p v first))
