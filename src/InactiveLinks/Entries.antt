-- ===== src/InactiveLinks/Entries.antt =====
-- Lists of timers by their connections, for socket/timer/handling_inactive_link.cpp.
use unix_programming.Base.{
  ℕ, ◌≤◌, ◌≡◌, refl, ap, sym, ◌∙◌, inl, inr, Bool, Bool-cases, true, false, ◌||◌, none, some, List,
  [], ◌∷◌, ◌++◌, arith, ◌==◌, ltb, All,
}
use unix_programming.TimerList.{Ptr, Node, write, Timers, load, store}
use unix_programming.TimerList.Chain.{
  Entry, node, first, has, Chain-frame, write_same, write_other, ne_of_out, IsTail, IsList,
  ne_of_member,
}
use unix_programming.TimerList.Loop.{insert}
use unix_programming.TimerList.Unlink.{
  back, last-append, first-append, Chain-split, Chain-append, Distinct-right, apart,
}
use unix_programming.TimerList.Adjust.{Distinct-replace}
use unix_programming.TimerList.Order.{IsSorted}

module _ (P : Entry → Type 0) where
  pub All-insert : (t : Entry) (xs : List Entry) → P t → All P xs → All P (insert t xs)
  unfolding insert
  All-insert t [] h k = (h, tt)
  All-insert t (x ∷ xs) h k = elim (Bool-cases (ltb t.expire x.expire)) [
    | inl before ↦ rw before (h, k)
    | inr behind ↦ rw behind (k.0, All-insert t xs h k.1)
  ]

  pub All-append : (xs ys : List Entry) → All P xs → All P ys → All P (xs ++ ys)
  All-append [] ys h k = k
  All-append (x ∷ xs) ys h k = (h.0, All-append xs ys h.1 k)

  pub All-left : (xs ys : List Entry) → All P (xs ++ ys) → All P xs
  All-left [] ys h = tt
  All-left (x ∷ xs) ys h = (h.0, All-left xs ys h.1)

  pub All-right : (xs ys : List Entry) → All P (xs ++ ys) → All P ys
  All-right [] ys h = h
  All-right (x ∷ xs) ys h = All-right xs ys h.1

  pub All-map :
      (Q : Entry → Type 0) → ((x : Entry) → P x → Q x) → (xs : List Entry) → All P xs → All Q xs
  All-map Q k [] h = tt
  All-map Q k (x ∷ xs) h = (k x h.0, All-map Q k xs h.1)

-- whether a connection has a timer
abbrev pub has_user : ℕ → List Entry → Bool
has_user u [] = false
has_user u (x ∷ xs) = (u == x.user_data) || has_user u xs

pub has_user-append :
    (u : ℕ) (xs ys : List Entry) → has_user u (xs ++ ys) ≡ (has_user u xs || has_user u ys)
has_user-append u [] ys = refl
has_user-append u (x ∷ xs) ys = ground (arith, has_user-append u xs ys)

pub has_user-insert :
    (u : ℕ) (t : Entry) (xs : List Entry) → has_user u (insert t xs) ≡ has_user u (t ∷ xs)
unfolding insert
has_user-insert u t [] = refl
has_user-insert u t (x ∷ xs) = ground (arith, has_user-insert u t xs)

-- a node written outside of the list
pub IsList-store :
    (s : Timers) (p : ℕ) (n : Node) (xs : List Entry)
    → has p xs ≡ false
    → IsList s xs
    → IsList (store s p n) xs
unfolding store
IsList-store s p n xs out is = record {
  chain =
      Chain-frame s.memory (write s.memory p (some n)) none xs none
        (λ a m. write_other s.memory p (some n) a (ne_of_member a p xs m out)) is.chain;
  distinct = is.distinct;
  head = is.head;
  tail = is.tail;
}

-- a connection's timer stands somewhere in the list
pub record Found (u : ℕ) (xs : List Entry) : Type 0 where
  pub pre : List Entry
  pub timer : Entry
  pub post : List Entry
  pub whole : xs ≡ pre ++ timer ∷ post
  pub user : timer.user_data ≡ u

pub find : (u : ℕ) (xs : List Entry) → has_user u xs ≡ true → Found u xs
find u [] h = cc
find u (x ∷ xs) h = elim (Bool-cases (u == x.user_data)) [
  | inl here ↦ record { pre = []; timer = x; post = xs; whole = refl; user = ground arith }
  | inr later ↦
      let rest = find u xs (ground arith) in
      record {
        pre = x ∷ rest.pre;
        timer = rest.timer;
        post = rest.post;
        whole = ap (◌∷◌ x) rest.whole;
        user = rest.user;
      }
]

-- the timer's node is given another time of expiry
pub IsList-replace :
    (s : Timers) (pre : List Entry) (t : Entry) (post : List Entry) (n : Node) (e : ℕ)
    → load s t.address ≡ some n
    → IsList s (pre ++ t ∷ post)
    → IsList (store s t.address (record n { expire = e })) (pre ++ record t { expire = e } ∷ post)
unfolding store
IsList-replace s pre t post n e at is =
    let t' = record t { expire = e } in
    let parts = Chain-split s.memory none pre (t ∷ post) none is.chain in
    let n' = record n { expire = e } in
    let g = write s.memory t.address (some n') in
    let right = Distinct-right pre (t ∷ post) is.distinct in
    let same_node : n ≡ node t (back none pre) (first post none) =
      (let two = sym at ∙ parts.1.0 in cc) in
    let own : g t.address ≡ some (node t' (back none pre) (first post none)) =
      write_same s.memory t.address (some n')
      ∙ ap (λ (m : Node). some (record m { expire = e })) same_node in
    let before =
      Chain-frame s.memory g none pre (some t.address)
        (λ a m.
          write_other s.memory t.address (some n') a
            (ne_of_out a t post (apart pre (t ∷ post) a is.distinct m)))
        parts.0 in
    let behind =
      Chain-frame s.memory g (some t.address) post none
        (λ a m.
          write_other s.memory t.address (some n') a (ne_of_member a t.address post m right.0))
        parts.1.1 in
    record {
      chain = Chain-append g none pre (t' ∷ post) none before (own, behind);
      distinct = Distinct-replace pre (t ∷ post) (t' ∷ post) (λ a m. m) right is.distinct;
      head = is.head ∙ first-append pre (t ∷ post) none ∙ sym (first-append pre (t' ∷ post) none);
      tail = same_tail s.tail pre is.tail;
    }
  where
    same_tail :
        (tail : Ptr) (pre : List Entry)
        → IsTail tail (pre ++ t ∷ post)
        → IsTail tail (pre ++ record t { expire = e } ∷ post)
    same_tail tail [] h = h
    same_tail tail (x ∷ pre) h =
        h
        ∙ ap some (
            last-append x.address pre t post
            ∙ sym (last-append x.address pre (record t { expire = e }) post))

pub IsSorted-past :
    (pre : List Entry) (t : Entry) (post : List Entry)
    → IsSorted (pre ++ t ∷ post)
    → IsSorted (pre ++ post)
IsSorted-past [] t post h = h.1
IsSorted-past (x ∷ pre) t post h =
    (past (λ y. x.expire ≤ y.expire) pre t post h.0, IsSorted-past pre t post h.1)
  where
    past :
        (P : Entry → Type 0) (pre : List Entry) (t : Entry) (post : List Entry)
        → All P (pre ++ t ∷ post)
        → All P (pre ++ post)
    past P [] t post h = h.1
    past P (x ∷ pre) t post h = (h.0, past P pre t post h.1)
