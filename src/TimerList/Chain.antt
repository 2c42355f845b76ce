-- ===== src/TimerList/Chain.antt =====
-- What a doubly linked list in memory stands for: the entries of its nodes, in order.
use unix_programming.Base.{
  ℕ, ◌≡◌, ◌≢◌, refl, Bool, true, false, ◌||◌, Option, none, some, List, [], ◌∷◌, arith, ◌==◌,
  if◌then◌else◌, Gives, gives, ◌>>=◌, ap,
}
use unix_programming.TimerList.{
  Ptr, Node, Memory, write, Timers, load, store, set_next, set_prev, link_between,
}

pub record Entry : Type 0 where
  pub address : ℕ
  pub expire : ℕ
  pub user_data : ℕ

-- the node of an entry
abbrev pub node : Entry → Ptr → Ptr → Node
node x before after = record {
  expire = x.expire;
  user_data = x.user_data;
  prev = before;
  next = after;
}

abbrev pub first : List Entry → Ptr → Ptr
first [] after = after
first (x ∷ xs) after = some x.address

-- the address of the last node behind the one at `a`
abbrev pub last : ℕ → List Entry → ℕ
last a [] = a
last a (x ∷ xs) = last x.address xs

abbrev pub has : ℕ → List Entry → Bool
has a [] = false
has a (x ∷ xs) = (a == x.address) || has a xs

-- the nodes of `xs`, linked both ways, between two pointers
abbrev pub Chain : Memory → Ptr → List Entry → Ptr → Type 0
Chain h before [] after = Unit
Chain h before (x ∷ xs) after =
    (h x.address ≡ some (node x before (first xs after))) × Chain h (some x.address) xs after

-- no address twice
abbrev pub Distinct : List Entry → Type 0
Distinct [] = Unit
Distinct (x ∷ xs) = (has x.address xs ≡ false) × Distinct xs

pub write_same : (h : Memory) (p : ℕ) (c : Option Node) → write h p c p ≡ c
write_same h p c = ground arith

pub write_other : (h : Memory) (p : ℕ) (c : Option Node) (a : ℕ) → a ≢ p → write h p c a ≡ h a
write_other h p c a ne = ground arith

pub ne_of_out : (a : ℕ) (x : Entry) (xs : List Entry) → has a (x ∷ xs) ≡ false → a ≢ x.address
ne_of_out a x xs out = ground arith

pub out_of_rest : (a : ℕ) (x : Entry) (xs : List Entry) → has a (x ∷ xs) ≡ false → has a xs ≡ false
out_of_rest a x xs out = ground arith

pub ne_of_member : (a b : ℕ) (xs : List Entry) → has a xs ≡ true → has b xs ≡ false → a ≢ b
ne_of_member a b xs m out e = let same : has a xs ≡ has b xs = ap (λ y. has y xs) e in cc

pub Chain-frame :
    (h g : Memory) (before : Ptr) (xs : List Entry) (after : Ptr)
    → ((a : ℕ) → has a xs ≡ true → g a ≡ h a)
    → Chain h before xs after
    → Chain g before xs after
Chain-frame h g b [] after same c = tt
Chain-frame h g b (x ∷ xs) after same c = (
  ground (arith, same x.address),
  Chain-frame h g (some x.address) xs after (λ a m. same a (ground arith)) c.1,
)

pub load-store :
    (s : Timers) (p : ℕ) (n : Node) (a : ℕ)
    → load (store s p n) a ≡ (if a == p then some n else load s a)
unfolding store
load-store s p n a = refl

pub set_next-store :
    (p : ℕ) (q : Ptr) (s : Timers) (n : Node)
    → load s p ≡ some n
    → set_next p q s ≡ some (store s p (record n { next = q }))
unfolding set_next
set_next-store p q s n e = rw (e, ◌>>=◌)

pub set_prev-store :
    (p : ℕ) (q : Ptr) (s : Timers) (n : Node)
    → load s p ≡ some n
    → set_prev p q s ≡ some (store s p (record n { prev = q }))
unfolding set_prev
set_prev-store p q s n e = rw (e, ◌>>=◌)

-- what linking a node in between two neighbours leaves
pub record Linked (s : Timers) (timer prev : ℕ) (tmp : Ptr) (nt np : Node) (s' : Timers)
    : Type 0 where
  pub own : s'.memory timer ≡ some (record nt { prev = some prev; next = tmp })
  pub before : s'.memory prev ≡ some (record np { next = some timer })
  pub head : s'.head ≡ s.head

pub link_between-Linked :
    (timer prev tmp : ℕ) (s : Timers) (nt np nx : Node)
    → load s timer ≡ some nt
    → load s prev ≡ some np
    → load s tmp ≡ some nx
    → timer ≢ prev
    → timer ≢ tmp
    → prev ≢ tmp
    → Gives
        (λ s'.
          Linked s timer prev (some tmp) nt np s'
          × (s'.memory tmp ≡ some (record nx { prev = some timer }))
          × (s'.tail ≡ s.tail)
          × ((a : ℕ) → a ≢ timer → a ≢ prev → a ≢ tmp → s'.memory a ≡ s.memory a))
        (link_between timer prev tmp s)
unfolding link_between store
link_between-Linked timer prev tmp s nt np nx et ep ex tp tx px =
    let s1 = store s prev (record np { next = some timer }) in
    let s2 = store s1 timer (record nt { next = some tmp }) in
    let s3 = store s2 tmp (record nx { prev = some timer }) in
    let s4 = store s3 timer (record nt { prev = some prev; next = some tmp }) in
    let e1 = set_next-store prev (some timer) s np ep in
    let e2 = set_next-store timer (some tmp) s1 nt (ground (arith, et)) in
    let e3 = set_prev-store tmp (some timer) s2 nx (ground (arith, ex)) in
    let e4 = set_prev-store timer (some prev) s3 (record nt { next = some tmp }) (ground arith) in
    rw (e1, ◌>>=◌)
      (rw (e2, ◌>>=◌)
        (rw (e3, ◌>>=◌)
          (rw e4 (
            gives (
              record { own = ground arith; before = ground arith; head = refl },
              ground arith,
              refl,
              λ a at ap ax. ground arith,
            )))))

-- The list object: its nodes are `xs`, linked both ways from head to tail. An empty list may have
-- any tail.
abbrev pub IsTail : Ptr → List Entry → Type 0
IsTail tail [] = Unit
IsTail tail (x ∷ xs) = tail ≡ some (last x.address xs)

pub record IsList (s : Timers) (xs : List Entry) : Type 0 where
  pub chain : Chain s.memory none xs none
  pub distinct : Distinct xs
  pub head : s.head ≡ first xs none
  pub tail : IsTail s.tail xs

-- it has become the list of `ys`, and nodes outside of `touched` are as before
abbrev pub Updated : Timers → (touched ys : List Entry) → Timers → Type 0
Updated s touched ys s' =
    IsList s' ys × ((a : ℕ) → has a touched ≡ false → s'.memory a ≡ s.memory a)
