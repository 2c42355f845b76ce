-- ===== src/TimerList.antt =====
-- The ascending list of timers, sort_timer_list of socket/timer/sigalrm_list_timer.h: a doubly
-- linked list of nodes in memory. A null pointer is none.
pub mod Chain
pub mod Loop
pub mod Insert
pub mod Unlink
pub mod Bypass
pub mod Delete
pub mod Adjust
pub mod Tick
pub mod Order
mod Tests
use unix_programming.Base.{
  ℕ, zero, suc, ◌≡◌, Bool, true, false, Option, none, some, List, [], ◌∷◌, ltb, ◌==◌, if◌then◌else◌,
  ◌>>=◌,
}

abbrev pub Ptr : Type 0
Ptr = Option ℕ

-- util_timer; `user_data` stands for the callback's argument, and the callback is a parameter
pub record Node : Type 0 where
  pub expire : ℕ
  pub user_data : ℕ
  pub prev : Ptr
  pub next : Ptr

abbrev pub Memory : Type 0
Memory = ℕ → Option Node

abbrev pub write : Memory → ℕ → Option Node → Memory
write h p c a = if a == p then c else h a

-- sort_timer_list, with the memory
pub record Timers : Type 0 where
  pub memory : Memory
  pub head : Ptr
  pub tail : Ptr

-- `*p`; none at an address that holds no node
abbrev pub load : Timers → ℕ → Option Node
load s p = s.memory p

unfoldable pub store : Timers → ℕ → Node → Timers
store s p n = record s { memory = write s.memory p (some n) }

-- p->next = q and p->prev = q
unfoldable pub set_next : ℕ → Ptr → Timers → Option Timers
unfolding store
set_next p q s = do n ← load s p; some (store s p (record n { next = q }))

unfoldable pub set_prev : ℕ → Ptr → Timers → Option Timers
unfolding store
set_prev p q s = do n ← load s p; some (store s p (record n { prev = q }))

-- delete p
unfoldable pub release : ℕ → Timers → Option Timers
release p s = do n ← load s p; some (record s { memory = write s.memory p none })

-- p == q
abbrev pub is_ptr : ℕ → Ptr → Bool
is_ptr p none = false
is_ptr p (some q) = p == q

-- the timer goes between `prev` and `tmp`
unfoldable pub link_between : (timer prev tmp : ℕ) → Timers → Option Timers
link_between timer prev tmp s = do
  s ← set_next prev (some timer) s
  s ← set_next timer (some tmp) s
  s ← set_prev tmp (some timer) s
  set_prev timer (some prev) s

-- the timer goes behind `prev`, the last
unfoldable pub link_last : (timer prev : ℕ) → Timers → Option Timers
link_last timer prev s = do
  s ← set_next prev (some timer) s
  s ← set_prev timer (some prev) s
  s ← set_next timer none s
  some (record s { tail = some timer })

-- the `while` loop of the private add_timer, and the code behind it
unfoldable pub insert_loop : (fuel : ℕ) → (timer prev : ℕ) → (tmp : Ptr) → Timers → Option Timers
insert_loop zero timer prev tmp s = none
insert_loop (suc f) timer prev none s = link_last timer prev s
insert_loop (suc f) timer prev (some tmp) s = do
  t ← load s timer
  n ← load s tmp
  let rest = insert_loop f timer tmp n.next s
  if ltb t.expire n.expire then link_between timer prev tmp s else rest

-- the private add_timer(timer, lst_head)
unfoldable pub insert_after : (fuel : ℕ) → (timer lst_head : ℕ) → Timers → Option Timers
insert_after f timer lst_head s = do n ← load s lst_head; insert_loop f timer lst_head n.next s

-- the timer becomes the head
unfoldable pub link_front : (timer head : ℕ) → Timers → Option Timers
link_front timer head s = do
  s ← set_next timer (some head) s
  s ← set_prev head (some timer) s
  some (record s { head = some timer })

unfoldable pub add_timer : (fuel : ℕ) → Ptr → Timers → Option Timers
add_timer f none s = some s
add_timer f (some timer) s = elim s.head [
  | none ↦ some (record s { head = some timer; tail = some timer })
  | some head ↦ do
    t ← load s timer
    n ← load s head
    if ltb t.expire n.expire then link_front timer head s else insert_after f timer head s
]

-- a node is taken out of the middle
unfoldable pub bypass : ℕ → Timers → Option Timers
bypass timer s = do
  t ← load s timer
  prev ← t.prev
  s ← set_next prev t.next s
  t ← load s timer
  next ← t.next
  set_prev next t.prev s

-- the next two behind the tests of adjust_timer
unfoldable pub adjust_head : (fuel : ℕ) → (timer : ℕ) → Timers → Option Timers
adjust_head f timer s = do
  t ← load s timer
  head ← t.next
  let s = record s { head = some head }
  s ← set_prev head none s
  s ← set_next timer none s
  insert_after f timer head s

unfoldable pub adjust_inner : (fuel : ℕ) → (timer : ℕ) → Timers → Option Timers
adjust_inner f timer s = do
  s ← bypass timer s
  t ← load s timer
  next ← t.next
  insert_after f timer next s

unfoldable pub adjust_timer : (fuel : ℕ) → Ptr → Timers → Option Timers
adjust_timer f none s = some s
adjust_timer f (some timer) s = do
  t ← load s timer
  elim t.next [
    | none ↦ some s
    | some tmp ↦ do
      n ← load s tmp
      if ltb t.expire n.expire
          then some s
          else if is_ptr timer s.head
          then adjust_head f timer s
          else adjust_inner f timer s
  ]

-- the cases of del_timer: the only timer, the head, the tail, another
unfoldable pub delete_head : ℕ → Timers → Option Timers
delete_head timer s = do
  t ← load s timer
  head ← t.next
  s ← set_prev head none (record s { head = some head })
  release timer s

unfoldable pub delete_tail : ℕ → Timers → Option Timers
delete_tail timer s = do
  t ← load s timer
  tail ← t.prev
  s ← set_next tail none (record s { tail = some tail })
  release timer s

unfoldable pub delete_inner : ℕ → Timers → Option Timers
delete_inner timer s = do s ← bypass timer s; release timer s

unfoldable pub del_timer : Ptr → Timers → Option Timers
del_timer none s = some s
del_timer (some timer) s =
    if is_ptr timer s.head
    then (if is_ptr timer s.tail
        then (do s ← release timer s; some (record s { head = none; tail = none }))
        else delete_head timer s)
    else if is_ptr timer s.tail
    then delete_tail timer s
    else delete_inner timer s

-- head = tmp->next; head->prev = nullptr, unless it is null; delete tmp
unfoldable pub drop_head : (tmp : ℕ) → Node → Timers → Option Timers
drop_head tmp n s = do
  s ← elim n.next [
    | none ↦ some (record s { head = none })
    | some head ↦ set_prev head none (record s { head = some head })
  ]
  release tmp s

-- tick: the user data of the callbacks, in their order
unfoldable pub tick : (fuel : ℕ) → (cur : ℕ) → (tmp : Ptr) → Timers → Option (Timers × List ℕ)
tick zero cur tmp s = none
tick (suc f) cur none s = some (s, [])
tick (suc f) cur (some tmp) s = do
  n ← load s tmp
  let rest : Option (Timers × List ℕ) = (do
    s ← drop_head tmp n s
    (s, called) ← tick f cur s.head s
    some (s, n.user_data ∷ called))
  if ltb cur n.expire then some (s, []) else rest
