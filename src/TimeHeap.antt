-- ===== src/TimeHeap.antt =====
-- The heap of timers, socket/timer/time_heap_timer.h. A timer is known by its address; the heap's
-- array holds addresses or null (none), and its length is the capacity. none as a result is
-- undefined behaviour: a read through null or a freed timer, an index outside of the array.
pub mod Array
pub mod Hole
pub mod Down
pub mod Pop
pub mod Tick
pub mod Built
mod Tests
use unix_programming.Base.{
  ℕ, zero, suc, ◌+◌, ◌-◌, ◌*◌, ◌/◌, Option, none, some, List, [], ◌∷◌, ◌++◌, ltb, leb, ◌==◌,
  if◌then◌else◌, length, get_elem?, set, take, replicate, ◌>>=◌,
}

-- heap_timer: expire, and cb_func with its user_data (none for a null cb_func)
pub record Timer : Type 0 where
  pub expire : ℕ
  pub callback : Option ℕ

abbrev pub Memory : Type 0
Memory = ℕ → Option Timer

-- the array, cur_size and the timers in memory
pub record TimeHeap : Type 0 where
  pub array : List (Option ℕ)
  pub cur_size : ℕ
  pub mem : Memory

-- x->expire
unfoldable pub expire_of : Memory → Option ℕ → Option ℕ
expire_of mem x = do p ← x; t ← mem p; some t.expire

-- array[i]->expire
unfoldable pub expire_at : Memory → List (Option ℕ) → ℕ → Option ℕ
expire_at mem arr i = get_elem? arr i >>= expire_of mem

-- array[i] = x
unfoldable pub store : List (Option ℕ) → ℕ → Option ℕ → Option (List (Option ℕ))
store arr i x = if ltb i (length arr) then some (set arr i x) else none

-- the smaller of the children, where the comparisons leave out the last entry
unfoldable pub smaller_child : Memory → (cur_size : ℕ) → List (Option ℕ) → ℕ → Option ℕ
smaller_child mem cur_size arr child =
    if ltb (child + 2) cur_size
    then (do
      right ← expire_at mem arr (child + 1)
      left ← expire_at mem arr child
      some (if ltb right left then child + 1 else child))
    else some child

-- The while loop of percolate_down and the store behind it. hole * 2 + 1 < cur_size - 1 is written
-- with 2 on the left, since cur_size may be 0.
unfoldable pub percolate_loop :
    (fuel : ℕ)
    → Memory
    → (cur_size : ℕ) → List (Option ℕ)
    → (hole : ℕ) (temp : Option ℕ) → Option (List (Option ℕ))
percolate_loop zero mem cur_size arr hole temp = none
percolate_loop (suc fuel) mem cur_size arr hole temp =
    let sink : Option (List (Option ℕ)) = (do
      child ← smaller_child mem cur_size arr (hole * 2 + 1)
      x ← get_elem? arr child
      below ← expire_of mem x
      above ← expire_of mem temp
      let deeper : Option (List (Option ℕ)) =
          store arr hole x >>= λ arr'. percolate_loop fuel mem cur_size arr' child temp
      if ltb below above then deeper else store arr hole temp) in
    if ltb (hole * 2 + 2) cur_size then sink else store arr hole temp

-- The hole goes down below cur_size, so as many rounds are enough.
unfoldable pub percolate_down :
    Memory → (cur_size : ℕ) → List (Option ℕ) → ℕ → Option (List (Option ℕ))
percolate_down mem cur_size arr hole =
    get_elem? arr hole >>= percolate_loop (cur_size + 1) mem cur_size arr hole

unfoldable pub resize : TimeHeap → Option TimeHeap
resize h =
    if leb h.cur_size (length h.array)
    then some (record h {
      array = take h.cur_size h.array ++ replicate (2 * length h.array - h.cur_size) none;
    })
    else none

-- time_heap(cap)
unfoldable pub new_heap : ℕ → Memory → TimeHeap
new_heap cap mem = record { array = replicate cap none; cur_size = 0; mem = mem }

-- the calls of percolate_down for i - 1, ..., 0
unfoldable pub heapify : Memory → (cur_size : ℕ) → ℕ → List (Option ℕ) → Option (List (Option ℕ))
heapify mem cur_size zero arr = some arr
heapify mem cur_size (suc i) arr = percolate_down mem cur_size arr i >>= heapify mem cur_size i

-- what the second constructor gives
pub data Made : Type 0 where
  exception : Made
  made : TimeHeap → Made

-- time_heap(init_array, size, capacity)
unfoldable pub heap_of : List (Option ℕ) → (size capacity : ℕ) → Memory → Option Made
heap_of init_array size capacity mem =
    if ltb capacity size
    then some exception
    else if ltb (length init_array) size
    then none
    else (let filled = take size init_array ++ replicate (capacity - size) none in
        let ordered = heapify mem size ((size - 1) / 2 + 1) filled in
        (if size == 0 then some filled else ordered) >>= λ arr.
        some (made (record { array = arr; cur_size = size; mem = mem })))

-- the while loop of add_timer and the store behind it
unfoldable pub percolate_up :
    (fuel : ℕ) → Memory → List (Option ℕ) → (hole timer : ℕ) → Option (List (Option ℕ))
percolate_up zero mem arr hole timer = none
percolate_up (suc fuel) mem arr hole timer =
    let parent = (hole - 1) / 2 in
    let rise : Option (List (Option ℕ)) = (do
      above ← expire_at mem arr parent
      own ← expire_of mem (some timer)
      x ← get_elem? arr parent
      let higher : Option (List (Option ℕ)) =
          store arr hole x >>= λ arr'. percolate_up fuel mem arr' parent timer
      if leb above own then store arr hole (some timer) else higher) in
    if ltb 0 hole then rise else store arr hole (some timer)

unfoldable pub add_timer : Option ℕ → TimeHeap → Option TimeHeap
add_timer none h = some h
add_timer (some timer) h = do
  h ← (if leb (length h.array) h.cur_size then resize h else some h)
  let hole = h.cur_size + 1
  arr ← percolate_up (hole + 1) h.mem h.array hole timer
  some (record h { array = arr; cur_size = hole })

abbrev pub update : Memory → ℕ → Option Timer → Memory
update mem p t q = if q == p then t else mem q

unfoldable pub del_timer : Option ℕ → TimeHeap → Option TimeHeap
del_timer none h = some h
del_timer (some p) h = do
  t ← h.mem p
  some (record h { mem = update h.mem p (some (record t { callback = none })) })

-- top(): null where the heap is empty
unfoldable pub top : TimeHeap → Option (Option ℕ)
top h = if h.cur_size == 0 then some none else get_elem? h.array 0

-- delete array[0], and the last entry put in its place
unfoldable pub pop_first : ℕ → TimeHeap → Option TimeHeap
pop_first p h = do
  t ← h.mem p
  last ← get_elem? h.array (h.cur_size - 1)
  arr ← store h.array 0 last
  let mem = update h.mem p none
  arr ← percolate_down mem (h.cur_size - 1) arr 0
  some (record { array = arr; cur_size = h.cur_size - 1; mem = mem })

unfoldable pub pop_timer : TimeHeap → Option TimeHeap
pop_timer h =
    if h.cur_size == 0
    then some h
    else get_elem? h.array 0 >>= λ x. elim x [ none ↦ some h | some p ↦ pop_first p h ]

-- the call of a timer's callback, which is known by its user_data
abbrev pub called : Option ℕ → List ℕ
called none = []
called (some data_of) = data_of ∷ []

-- The while loop of tick, where `tmp` is array[0]; with the calls that it makes.
unfoldable pub tick_loop : (fuel now : ℕ) → Option ℕ → TimeHeap → Option (TimeHeap × List ℕ)
tick_loop zero now tmp h = none
tick_loop (suc fuel) now none h = some (h, [])
tick_loop (suc fuel) now (some p) h =
    let round : Option (TimeHeap × List ℕ) = (do
      t ← h.mem p
      let fire : Option (TimeHeap × List ℕ) = (do
        h' ← pop_timer h
        tmp ← get_elem? h'.array 0
        (h'', more) ← tick_loop fuel now tmp h'
        some (h'', called t.callback ++ more))
      if ltb now t.expire then some (h, []) else fire) in
    if h.cur_size == 0 then some (h, []) else round

-- Each round takes a timer off the heap, so fuel above cur_size is enough.
unfoldable pub tick : (now : ℕ) → TimeHeap → Option (TimeHeap × List ℕ)
tick now h = get_elem? h.array 0 >>= λ tmp. tick_loop (h.cur_size + 1) now tmp h
