-- ===== src/TimeHeap/Built.antt =====
-- The constructor of time_heap in socket/timer/time_heap_timer.h that takes an array.
use unix_programming.Base.{
  ℕ, zero, suc, ◌+◌, ◌-◌, ◌/◌, ◌≤◌, ◌<◌, ◌≡◌, refl, sym, ◌∙◌, false, Option, none, List, [], ◌∷◌,
  ◌++◌, arith, ltb, ◌==◌, length, take, replicate, length-append, length-take, length-replicate,
  ◌>>=◌, Gives, gives, Gives-inv, Bool-cases, inl, inr, subst,
}
use unix_programming.TimeHeap.{Memory, Made, made, TimeHeap, heap_of}
use unix_programming.TimeHeap.Array.{entry, IsLive, count, AllLive}
use unix_programming.TimeHeap.Down.{heapify-Sifted}
use unix_programming.TimeHeap.Pop.{IsHeap, count-none}

entry-take :
    (xs ys : List (Option ℕ)) (n i : ℕ)
    → i < n
    → n ≤ length xs
    → entry (take n xs ++ ys) i ≡ entry xs i
entry-take xs ys zero i h k = absurd (omega arith)
entry-take [] ys (suc n) i h k = absurd (omega arith)
entry-take (x ∷ xs) ys (suc n) zero h k = refl
entry-take (x ∷ xs) ys (suc n) (suc i) h k = entry-take xs ys n i (omega arith) (omega arith)

count-take :
    (xs ys : List (Option ℕ)) (n p : ℕ) → n ≤ length xs → count (take n xs ++ ys) n p ≡ count xs n p
count-take xs ys zero p k = count-none ys p ∙ sym (count-none xs p)
count-take [] ys (suc n) p k = absurd (omega arith)
count-take (x ∷ xs) ys (suc n) p k = omega (arith, count-take xs ys n p (omega arith))

-- the heap that the constructor makes: of the timers given to it
pub record Holds (init_array : List (Option ℕ)) (size capacity : ℕ) (mem : Memory) (m : Made)
    : Type 0 where
  pub result : TimeHeap
  pub built : m ≡ made result
  pub heap : IsHeap result
  pub room : length result.array ≡ capacity
  pub timers : (p : ℕ) → count result.array result.cur_size p ≡ count init_array size p
  pub same_mem : result.mem ≡ mem

-- The constructor, given timers that are all different and a capacity for them (at least 1), makes
-- a heap of exactly these.
pub heap_of-Holds :
    (init_array : List (Option ℕ)) (size capacity : ℕ) (mem : Memory)
    → size ≤ length init_array
    → size ≤ capacity
    → 0 < capacity
    → AllLive mem size init_array
    → ((p : ℕ) → count init_array size p ≤ 1)
    → Gives (Holds init_array size capacity mem) (heap_of init_array size capacity mem)
unfolding heap_of
heap_of-Holds arr size capacity mem inside fits room live once =
    let filled = take size arr ++ replicate (capacity - size) none in
    let enough : ltb capacity size ≡ false = ground arith in
    let given : ltb (length arr) size ≡ false = ground arith in
    let len : length filled ≡ capacity = omega (
      arith,
      length-append (take size arr) (replicate {A = Option ℕ} (capacity - size) none),
      length-take size arr,
      length-replicate {A = Option ℕ} (capacity - size) none,
    ) in
    let lives : AllLive mem size filled = λ i h.
      subst (IsLive mem) (sym (entry-take arr (replicate (capacity - size) none) size i h inside))
        (live i h) in
    let same = λ (p : ℕ). count-take arr (replicate (capacity - size) none) size p inside in
    rw (enough, given)
      (elim (Bool-cases (size == 0)) [
        | inl nothing ↦ rw nothing (
            gives (record {
              result = record { array = filled; cur_size = size; mem = mem };
              built = refl;
              heap = record {
                size = omega arith;
                room = omega arith;
                live = lives;
                order = λ c p q r. absurd (ground arith);
                once = λ p. omega (arith, same p, once p);
              };
              room = len;
              timers = same;
              same_mem = refl;
            }))
        | inr more ↦
            let (b, run, s) = Gives-inv (
              heapify-Sifted ((size - 1) / 2 + 1) mem size filled (omega arith) (ground arith) lives
                (λ c p q r. absurd (omega arith))) in
            let sb = s.size in
            rw (more, run, ◌>>=◌)
              (gives (record {
                result = record { array = b; cur_size = size; mem = mem };
                built = refl;
                heap = record {
                  size = omega arith;
                  room = omega arith;
                  live = s.live;
                  order = s.order;
                  once = λ p. omega (arith, s.same p, same p, once p);
                };
                room = sb ∙ len;
                timers = λ p. s.same p ∙ same p;
                same_mem = refl;
              }))
      ])
