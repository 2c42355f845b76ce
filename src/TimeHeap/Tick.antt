-- ===== src/TimeHeap/Tick.antt =====
-- tick of socket/timer/time_heap_timer.h, which fires the timers whose time has come.
use unix_programming.Base.{
  ℕ, zero, suc, ◌+◌, ◌≤◌, ◌<◌, ◌≡◌, ◌≢◌, ◌⊎◌, refl, ap, ◌∙◌, false, Option, none, some, List, [],
  ◌∷◌, ◌++◌, arith, ltb, ltb→lt, not_ltb→le, ◌==◌, get_elem?, get_elem?-in, ◌>>=◌, Gives, gives,
  Gives-inv, Bool-cases, Option-cases, inl, inr,
}
use unix_programming.TimeHeap.{Timer, Memory, TimeHeap, update, pop_timer, called, tick_loop, tick}
use unix_programming.TimeHeap.Array.{entry, key, parent, is_at, count}
use unix_programming.TimeHeap.Pop.{IsHeap, Popped, heap, live_timer, is_at_self, pop_timer-Popped}

-- how often an address stands in a list
abbrev pub times : ℕ → List ℕ → ℕ
times q [] = 0
times q (p ∷ ps) = is_at q (some p) + times q ps

-- the callbacks of timers, in their order
abbrev pub calls_of : Memory → List ℕ → List ℕ
calls_of mem [] = []
calls_of mem (p ∷ ps) = elim (mem p) [
  | none ↦ calls_of mem ps
  | some t ↦ called t.callback ++ calls_of mem ps
]

-- What a tick leaves, where `gone` are the timers that were taken off, each of them once: they had
-- expired and are freed, and their callbacks were called in that order; all other timers are kept
-- as they were. Of those on the heap neither the first has expired nor any other but the last.
pub record Fires (now : ℕ) (h : TimeHeap) (r : TimeHeap × List ℕ) : Type 0 where
  pub gone : List ℕ
  pub heap : IsHeap r.0
  pub calls : r.1 ≡ calls_of h.mem gone
  pub parts : (q : ℕ) → count h.array h.cur_size q ≡ times q gone + count r.0.array r.0.cur_size q
  pub expired : (q : ℕ) → 0 < times q gone → key h.mem (some q) ≤ now
  pub freed : (q : ℕ) → 0 < times q gone → r.0.mem q ≡ none
  pub kept : (q : ℕ) → times q gone ≡ 0 → r.0.mem q ≡ h.mem q
  pub waiting :
      (i : ℕ)
      → i < r.0.cur_size
      → (i ≡ 0) ⊎ (suc i < r.0.cur_size)
      → now < key r.0.mem (entry r.0.array i)

-- an entry that is not the last expires no sooner than the first
first_least :
    (f i n : ℕ) (h : TimeHeap)
    → IsHeap h
    → i ≤ f
    → suc i < h.cur_size
    → key h.mem (entry h.array 0) ≤ key h.mem (entry h.array i)
first_least f zero n h v le less = omega arith
first_least zero (suc i) n h v le less = absurd (omega arith)
first_least (suc f) (suc i) n h v le less = omega (
  arith,
  v.order (suc i) (omega arith) less (omega arith),
  first_least f (parent (suc i)) n h v (omega arith) (omega arith),
)

calls_of-update :
    (mem : Memory) (p : ℕ) (ps : List ℕ)
    → times p ps ≡ 0
    → calls_of (update mem p none) ps ≡ calls_of mem ps
calls_of-update mem p [] h = refl
calls_of-update mem p (q ∷ ps) h =
    let ih = calls_of-update mem p ps (omega arith) in ground (arith, ih)

is_at-apart : (p q : ℕ) → q ≢ p → is_at q (some p) ≡ 0
is_at-apart p q h = ground arith

key-held : (mem : Memory) (p : ℕ) (t : Timer) → mem p ≡ some t → key mem (some p) ≡ t.expire
unfolding key
key-held mem p t h = rw (h, key)

key-update : (mem : Memory) (p q : ℕ) → q ≢ p → key (update mem p none) (some q) ≡ key mem (some q)
unfolding key
key-update mem p q h = ground arith

update_other : (mem : Memory) (p q : ℕ) → q ≢ p → update mem p none q ≡ mem q
update_other mem p q h = ground arith

update_same : (mem : Memory) (p : ℕ) → update mem p none p ≡ none
update_same mem p = ground arith

-- a tick that stops at once
stopped-Fires :
    (now : ℕ) (h : TimeHeap)
    → IsHeap h
    → (0 < h.cur_size → now < key h.mem (entry h.array 0))
    → Fires now h (h, [])
stopped-Fires now h v first = record {
  gone = [];
  heap = v;
  calls = refl;
  parts = λ q. omega arith;
  expired = λ q p. absurd (omega arith);
  freed = λ q p. absurd (omega arith);
  kept = λ q p. refl;
  waiting = λ i less w.
      let top = first (omega arith) in
      elim w [
        | inl e ↦ rw e top
        | inr more ↦ let z = first_least i i 0 h v (omega arith) more in omega arith
      ];
}

-- a round that fires the first timer, and the rounds after it
fired-Fires :
    (now : ℕ) (h h' : TimeHeap) (p : ℕ) (t : Timer) (r : TimeHeap × List ℕ)
    → h.mem p ≡ some t
    → t.expire ≤ now
    → IsHeap h
    → Popped p h h'
    → Fires now h' r
    → Fires now h (r.0, called t.callback ++ r.1)
fired-Fires now h h' p t r held due v out after = record {
  gone = p ∷ after.gone;
  heap = after.heap;
  calls =
      (let same = ap (λ m. calls_of m after.gone) out.freed in
        rw (held, calls_of)
          (ap (λ cs. called t.callback ++ cs)
            (after.calls ∙ same ∙ calls_of-update h.mem p after.gone absent)));
  parts = λ q. omega (arith, out.rest q, after.parts q);
  expired = λ q some_time. elim (Bool-cases (q == p)) [
    | inl e ↦ let same : q ≡ p = ground arith in rw same (rw (key-held h.mem p t held) due)
    | inr e ↦
        let ne : q ≢ p = ground arith in
        let z = after.expired q (omega (arith, is_at-apart p q ne)) in
        rw (← key-update h.mem p q ne, ← ap (λ m. key m (some q)) out.freed) z
  ];
  freed = λ q some_time. elim (Bool-cases (q == p)) [
    | inl e ↦
        let same : q ≡ p = ground arith in
        rw same (after.kept p absent ∙ ap (λ m. m p) out.freed ∙ update_same h.mem p)
    | inr e ↦ let ne : q ≢ p = ground arith in after.freed q (omega (arith, is_at-apart p q ne))
  ];
  kept = λ q never.
      let ne : q ≢ p =
        λ e. absurd (let z = is_at_self p in let w = ap (λ k. is_at k (some p)) e in omega arith) in
      after.kept q (omega arith) ∙ ap (λ m. m q) out.freed ∙ update_other h.mem p q ne;
  waiting = after.waiting;
}
  where
    absent : times p after.gone ≡ 0
    absent = omega (arith, v.once p, out.rest p, after.parts p, is_at_self p)

-- what the rounds on fuel `k` give
abbrev Rounds : (k now : ℕ) → Type 0
Rounds k now =
    (mem : Memory) (arr : List (Option ℕ)) (n : ℕ)
    → n < k
    → IsHeap (heap arr n mem)
    → Gives (Fires now (heap arr n mem)) (tick_loop k now (entry arr 0) (heap arr n mem))

module _ (k now : ℕ) (later : Rounds k now) (mem : Memory) (arr : List (Option ℕ)) (n p : ℕ)
    (t : Timer) (fuel : n < k) (v : IsHeap (heap arr (suc n) mem)) (first : entry arr 0 ≡ some p)
    (held : mem p ≡ some t) where
  first_key : key mem (entry arr 0) ≡ t.expire
  first_key = ap (key mem) first ∙ key-held mem p t held

  fire-Fires :
      t.expire ≤ now
      → Gives (Fires now (heap arr (suc n) mem)) (do
        h' ← pop_timer (heap arr (suc n) mem)
        tmp ← get_elem? h'.array 0
        (h'', more) ← tick_loop k now tmp h'
        some (h'', called t.callback ++ more))
  fire-Fires due =
      let (h', run, out) = Gives-inv (pop_timer-Popped mem arr n p v first) in
      let less = out.fewer in
      let (r, run2, after) = Gives-inv (later h'.mem h'.array h'.cur_size (omega arith) out.heap) in
      rw (run, ◌>>=◌)
        (rw (get_elem?-in h'.array 0 none out.heap.room, ◌>>=◌)
          (rw (run2, ◌>>=◌)
            (gives (fired-Fires now (heap arr (suc n) mem) h' p t r held due v out after))))

  round-Fires :
      Gives
        (Fires now (heap arr (suc n) mem))
        (tick_loop (suc k) now (some p) (heap arr (suc n) mem))
  unfolding tick_loop
  round-Fires =
      let some_left : (suc n == 0) ≡ false = ground arith in
      rw (some_left, held, ◌>>=◌)
        (elim (Bool-cases (ltb now t.expire)) [
          | inl early ↦ rw early (
              gives
                (stopped-Fires now (heap arr (suc n) mem) v λ z. rw first_key (ltb→lt _ _ early)))
          | inr due ↦ rw due (fire-Fires (not_ltb→le _ _ due))
        ])

tick_loop-Fires : (k now : ℕ) → Rounds k now
unfolding tick_loop
tick_loop-Fires zero now mem arr n f v = absurd (omega arith)
tick_loop-Fires (suc k) now mem arr zero f v = elim (Option-cases (entry arr 0)) [
  | inl null ↦ rw null (gives (stopped-Fires now (heap arr 0 mem) v λ h. absurd (omega arith)))
  | inr (p, e) ↦ rw e (gives (stopped-Fires now (heap arr 0 mem) v λ h. absurd (omega arith)))
]
tick_loop-Fires (suc k) now mem arr (suc n) f v =
    let l = v.live 0 (omega arith) in
    let (t, held) = live_timer mem (entry arr 0) l.address l l.points in
    rw l.points (
      round-Fires k now (tick_loop-Fires k now) mem arr n l.address t (omega arith) v l.points held)

-- On a heap whose first entries are timers, in the order that percolate_down keeps (no entry but
-- the last expires before its parent), tick ends without a fault: it takes expired timers off, each
-- once, frees them and calls their callbacks in the order in which they are taken off. The others
-- are kept as they were, and the array is such a heap again. Of its entries the first has not
-- expired, nor has any other but the last.
pub tick-Fires : (now : ℕ) (h : TimeHeap) → IsHeap h → Gives (Fires now h) (tick now h)
unfolding tick
tick-Fires now h v =
    rw (get_elem?-in h.array 0 none v.room, ◌>>=◌)
      (tick_loop-Fires (h.cur_size + 1) now h.mem h.array h.cur_size (omega arith) v)
