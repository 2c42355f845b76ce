-- ===== src/TimeHeap/Hole.antt =====
-- One round of percolate_down of socket/timer/time_heap_timer.h: the hole goes down to the child
-- that expires first, or is filled.
use unix_programming.Base.{
  ℕ, suc, ◌+◌, ◌*◌, ◌≤◌, ◌<◌, ◌≡◌, ◌≢◌, ◌⊎◌, inl, inr, refl, ap, sym, ◌∙◌, Option, none, List,
  arith, ltb, ltb→lt, not_ltb→le, ◌==◌, if◌then◌else◌, length, set, get_or-set, get_or-set_same,
  get_or-set_other, length-set, ◌>>=◌, Gives, gives, Gives-map, Bool-cases,
}
use unix_programming.TimeHeap.{Memory, store, smaller_child, percolate_loop}
use unix_programming.TimeHeap.Array.{
  entry, IsLive, key, parent, expire_at-key, store-set, is_at, count, count-set, IsOrderedFrom,
  AllLive,
}

-- what a percolation leaves: the order, and the same timers
pub record Sifted (lo : ℕ) (mem : Memory) (n : ℕ) (arr arr' : List (Option ℕ)) : Type 0 where
  pub size : length arr' ≡ length arr
  pub order : IsOrderedFrom lo mem n arr'
  pub live : AllLive mem n arr'
  pub same : (p : ℕ) → count arr' n p ≡ count arr n p

-- only the edges below the hole may be wrong; `f` gives the expiry at an index
pub record DownInv (lo n : ℕ) (f : ℕ → ℕ) (hole : ℕ) : Type 0 where
  pub edges : (c : ℕ) → 0 < c → suc c < n → lo ≤ parent c → parent c ≢ hole → f (parent c) ≤ f c
  pub bridged :
      (c : ℕ)
      → 0 < c
      → suc c < n
      → parent c ≡ hole
      → 0 < hole
      → lo ≤ parent hole
      → f (parent hole) ≤ f c

-- `m` is the child of the hole that expires first
pub record IsSmallerChild (mem : Memory) (n : ℕ) (v : List (Option ℕ)) (hole m : ℕ) : Type 0 where
  pub inside : suc m < n
  pub child : (m ≡ hole * 2 + 1) ⊎ (m ≡ hole * 2 + 2)
  pub least :
      (c : ℕ) → 0 < c → suc c < n → parent c ≡ hole → key mem (entry v m) ≤ key mem (entry v c)

least_of_two :
    (f : ℕ → ℕ) (i c : ℕ)
    → (c ≡ i) ⊎ (c ≡ i + 1)
    → f (if ltb (f (i + 1)) (f i) then i + 1 else i) ≤ f c
least_of_two f i c (inl e) = rw e (ground arith)
least_of_two f i c (inr e) = rw e (ground arith)

module _ (mem : Memory) (n : ℕ) (arr : List (Option ℕ)) (hole : ℕ) (size : n ≤ length arr) where
  pub smaller_child-IsSmallerChild :
      hole * 2 + 2 < n
      → IsLive mem (entry arr (hole * 2 + 1))
      → IsLive mem (entry arr (hole * 2 + 1 + 1))
      → Gives (IsSmallerChild mem n arr hole) (smaller_child mem n arr (hole * 2 + 1))
  unfolding smaller_child
  smaller_child-IsSmallerChild h l r =
      let left = expire_at-key mem arr (hole * 2 + 1) (omega arith) l in
      elim (Bool-cases (ltb (hole * 2 + 1 + 2) n)) [
        | inl both ↦
            let right = expire_at-key mem arr (hole * 2 + 1 + 1) (ground arith) r in
            rw (both, right, ◌>>=◌)
              (rw (left, ◌>>=◌)
                (gives (record {
                  inside = ground arith;
                  child = ground arith;
                  least = λ c p q e.
                      least_of_two (λ j. key mem (entry arr j)) (hole * 2 + 1) c (ground arith);
                })))
        | inr only ↦ rw only (
            gives (record {
              inside = omega arith;
              child = inl refl;
              least =
                  λ c p q e. let same : c ≡ hole * 2 + 1 = ground arith in rw same (omega arith);
            }))
      ]

-- the child goes up into the hole, and the hole to the child
swapped :
    (arr : List (Option ℕ)) (hole m j : ℕ) (temp : Option ℕ)
    → hole < length arr
    → m < length arr
    → m ≢ hole
    → entry (set (set arr hole (entry arr m)) m temp) j ≡ (
        if m == j
        then temp
        else if hole == j
        then entry (set arr hole temp) m
        else entry (set arr hole temp) j)
swapped arr hole m j temp hh hm ne =
    let one = get_or-set (set arr hole (entry arr m)) m j temp none in
    ground (
      arith,
      get_or-set (set arr hole (entry arr m)) m j temp none,
      get_or-set arr hole j (entry arr m) none,
      get_or-set arr hole j temp none,
      get_or-set arr hole m temp none,
      length-set arr hole (entry arr m),
    )

swap-DownInv :
    (lo n hole m : ℕ) (f g : ℕ → ℕ)
    → DownInv lo n f hole
    → suc m < n
    → (m ≡ hole * 2 + 1) ⊎ (m ≡ hole * 2 + 2)
    → ((c : ℕ) → 0 < c → suc c < n → parent c ≡ hole → f m ≤ f c)
    → f m < f hole
    → ((j : ℕ) → g j ≡ (if m == j then f hole else if hole == j then f m else f j))
    → DownInv lo n g m
swap-DownInv lo n hole m f g v inside child least below at = record {
  edges = λ c p q r t. ground (arith, at c, at (parent c), v.edges c, v.bridged m, least c);
  bridged = λ c p q r t u. ground (arith, at c, at (parent m), v.edges c);
}

module _ (mem : Memory) (n hole m : ℕ) (arr : List (Option ℕ)) (temp : Option ℕ)
    (size : n ≤ length arr) (hh : hole < n) (hm : m < n) (ne : m ≢ hole) where
  before : List (Option ℕ)
  before = set arr hole temp

  after : List (Option ℕ)
  after = set (set arr hole (entry arr m)) m temp

  swapped-live : AllLive mem n before → AllLive mem n after
  unfolding before after
  swapped-live live i h =
      rw (swapped arr hole m i temp (omega arith) (omega arith) ne) (elim (Bool-cases (m == i)) [
        | inl e ↦ rw e (rw (get_or-set_same arr hole temp none (omega arith)) at (live hole hh))
        | inr e ↦ rw e (elim (Bool-cases (hole == i)) [
          | inl e' ↦ rw e' (live m hm)
          | inr e' ↦ rw e' (live i h)
        ])
      ])

  swapped-count : (p : ℕ) → count after n p ≡ count before n p
  unfolding before after
  swapped-count p =
      let here = get_or-set_other arr m hole (entry arr m) none ne in
      omega (
        arith,
        count-set arr hole n p temp hh (omega arith),
        count-set arr hole n p (entry arr m) hh (omega arith),
        count-set (set arr hole (entry arr m)) m n p temp hm
            (omega (arith, length-set arr hole (entry arr m))),
        ap (is_at p) here,
      )

  swapped-key :
      (j : ℕ)
      → key mem (entry after j) ≡ (
          if m == j
          then key mem (entry before hole)
          else if hole == j
          then key mem (entry before m)
          else key mem (entry before j))
  unfolding before after
  swapped-key j =
      rw
        (
          swapped arr hole m j temp (omega arith) (omega arith) ne,
          get_or-set_same arr hole temp none (omega arith),
        )
        (ground arith)

abbrev pub keys : Memory → List (Option ℕ) → ℕ → ℕ
keys mem arr j = key mem (entry arr j)

-- a round that has found the child `m`; `deeper` is what the rounds after it give
pub round-Sifted :
    (k lo : ℕ) (mem : Memory) (n hole m : ℕ) (arr : List (Option ℕ)) (temp : Option ℕ)
    → n ≤ length arr
    → hole * 2 + 2 < n
    → AllLive mem n (set arr hole temp)
    → DownInv lo n (keys mem (set arr hole temp)) hole
    → IsSmallerChild mem n arr hole m
    → (AllLive mem n (set (set arr hole (entry arr m)) m temp)
        → DownInv lo n (keys mem (set (set arr hole (entry arr m)) m temp)) m
        → Gives
            (Sifted lo mem n (set (set arr hole (entry arr m)) m temp))
            (percolate_loop k mem n (set arr hole (entry arr m)) m temp))
    → Gives (Sifted lo mem n (set arr hole temp)) (
        if ltb (key mem (entry arr m)) (key mem temp)
        then (store arr hole (entry arr m) >>= λ arr'. percolate_loop k mem n arr' m temp)
        else store arr hole temp)
unfolding before after
round-Sifted k lo mem n hole m arr temp size deep live v s deeper =
    let child = s.child in
    let near = s.inside in
    let ne : m ≢ hole = omega arith in
    let inside : hole < length arr = omega arith in
    let seen = λ (j : ℕ) (h : j ≢ hole). get_or-set_other arr j hole temp none h in
    let top = get_or-set_same arr hole temp none inside in
    let least : (c : ℕ)
        → 0 < c
        → suc c < n
        → parent c ≡ hole
        → keys mem (set arr hole temp) m ≤ keys mem (set arr hole temp) c =
      λ c p q e. rw (seen m ne, seen c (ground arith)) (s.least c p q e) in
    elim (Bool-cases (ltb (key mem (entry arr m)) (key mem temp))) [
      | inl sinks ↦
          let lower : keys mem (set arr hole temp) m < keys mem (set arr hole temp) hole =
            rw (seen m ne, top) (ltb→lt _ _ sinks) in
          rw (sinks, store-set arr hole (entry arr m) inside)
            (Gives-map
              (deeper (swapped-live mem n hole m arr temp size (omega arith) (omega arith) ne live)
                (swap-DownInv lo n hole m _ _ v near (omega arith) least lower
                  (swapped-key mem n hole m arr temp size (omega arith) (omega arith) ne)))
              λ out r. record {
                size =
                    r.size
                    ∙ length-set (set arr hole (entry arr m)) m temp
                    ∙ length-set arr hole (entry arr m)
                    ∙ sym (length-set arr hole temp);
                order = r.order;
                live = r.live;
                same = λ p.
                    r.same p
                    ∙ swapped-count mem n hole m arr temp size (omega arith) (omega arith) ne p;
              })
      | inr stays ↦
          let higher : keys mem (set arr hole temp) hole ≤ keys mem (set arr hole temp) m =
            rw (seen m ne, top) (not_ltb→le _ _ stays) in
          rw (stays, store-set arr hole temp inside)
            (gives (record {
              size = refl;
              order = λ c p q r. elim (Bool-cases (parent c == hole)) [
                | inl e ↦
                    let up : parent c ≡ hole = ground arith in
                    let z = least c p q up in rw up (omega arith)
                | inr e ↦ v.edges c p q r (ground arith)
              ];
              live = live;
              same = λ p. refl;
            }))
    ]
