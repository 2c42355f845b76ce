-- ===== src/TimeHeap/Array.antt =====
-- The entries of the array of socket/timer/time_heap_timer.h: what they lead to, how often an
-- address stands among the first ones, and the order of the heap.
use unix_programming.Base.{
  ℕ, zero, suc, ◌+◌, ◌-◌, ◌/◌, ◌≤◌, ◌<◌, ◌≡◌, true, Option, none, some, List, [], ◌∷◌, arith, ltb,
  ◌==◌, if◌then◌else◌, length, get_or, set, get_elem?-in, ◌>>=◌,
}
use unix_programming.TimeHeap.{Timer, Memory, expire_of, expire_at, store}

-- the entry at an index, null outside of the array
abbrev pub entry : List (Option ℕ) → ℕ → Option ℕ
entry arr i = get_or arr i none

-- a pointer to a timer
pub record IsLive (mem : Memory) (x : Option ℕ) : Type 0 where
  pub address : ℕ
  pub timer : Timer
  pub points : x ≡ some address
  pub holds : mem address ≡ some timer

-- the expiry of a timer, 0 where there is none
unfoldable pub key : Memory → Option ℕ → ℕ
key mem none = 0
key mem (some p) = elim (mem p) [ none ↦ 0 | some t ↦ t.expire ]

abbrev pub parent : ℕ → ℕ
parent c = (c - 1) / 2

pub expire_of-key :
    (mem : Memory) (x : Option ℕ) → IsLive mem x → expire_of mem x ≡ some (key mem x)
unfolding expire_of key
expire_of-key mem x l = let e = l.points in let t = l.holds in ground arith

pub expire_at-key :
    (mem : Memory) (arr : List (Option ℕ)) (i : ℕ)
    → i < length arr
    → IsLive mem (entry arr i)
    → expire_at mem arr i ≡ some (key mem (entry arr i))
unfolding expire_at
expire_at-key mem arr i h l =
    rw (get_elem?-in arr i none h, ◌>>=◌) (expire_of-key mem (entry arr i) l)

pub store-set :
    (arr : List (Option ℕ)) (i : ℕ) (x : Option ℕ)
    → i < length arr
    → store arr i x ≡ some (set arr i x)
unfolding store
store-set arr i x h = let e : ltb i (length arr) ≡ true = ground arith in rw e

-- 1 for the address, 0 for another pointer
abbrev pub is_at : ℕ → Option ℕ → ℕ
is_at p none = 0
is_at p (some q) = if q == p then 1 else 0

-- how many of the first n entries are the address
abbrev pub count : List (Option ℕ) → ℕ → ℕ → ℕ
count [] n p = 0
count (x ∷ xs) zero p = 0
count (x ∷ xs) (suc n) p = is_at p x + count xs n p

pub count-set :
    (xs : List (Option ℕ)) (i n p : ℕ) (v : Option ℕ)
    → i < n
    → i < length xs
    → count (set xs i v) n p + is_at p (entry xs i) ≡ count xs n p + is_at p v
count-set [] i n p v h k = absurd (omega arith)
count-set (x ∷ xs) zero zero p v h k = absurd (omega arith)
count-set (x ∷ xs) zero (suc n) p v h k = omega arith
count-set (x ∷ xs) (suc i) zero p v h k = absurd (omega arith)
count-set (x ∷ xs) (suc i) (suc n) p v h k = omega (arith, count-set xs i n p v)

pub count-suc :
    (xs : List (Option ℕ)) (n p : ℕ)
    → n < length xs
    → count xs (suc n) p ≡ count xs n p + is_at p (entry xs n)
count-suc [] n p h = absurd (omega arith)
count-suc (x ∷ []) zero p h = omega arith
count-suc (x ∷ y ∷ xs) zero p h = omega arith
count-suc (x ∷ xs) (suc n) p h = omega (arith, count-suc xs n p)

pub is_at-le-count :
    (xs : List (Option ℕ)) (i n p : ℕ) → i < n → i < length xs → is_at p (entry xs i) ≤ count xs n p
is_at-le-count [] i n p h k = absurd (omega arith)
is_at-le-count (x ∷ xs) i zero p h k = absurd (omega arith)
is_at-le-count (x ∷ xs) zero (suc n) p h k = omega arith
is_at-le-count (x ∷ xs) (suc i) (suc n) p h k = omega (arith, is_at-le-count xs i n p)

-- The order that the code keeps, from the node `lo` on: no entry but the last expires before its
-- parent.
abbrev pub IsOrderedFrom : (lo : ℕ) → Memory → (cur_size : ℕ) → List (Option ℕ) → Type 0
IsOrderedFrom lo mem n arr =
    (c : ℕ)
    → 0 < c
    → suc c < n
    → lo ≤ parent c
    → key mem (entry arr (parent c)) ≤ key mem (entry arr c)

-- the entries below cur_size are timers
abbrev pub AllLive : Memory → (cur_size : ℕ) → List (Option ℕ) → Type 0
AllLive mem n arr = (i : ℕ) → i < n → IsLive mem (entry arr i)
