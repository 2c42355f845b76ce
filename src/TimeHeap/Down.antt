-- ===== src/TimeHeap/Down.antt =====
-- percolate_down of socket/timer/time_heap_timer.h restores the order below a hole.
use unix_programming.Base.{
  ℕ, zero, suc, ◌+◌, ◌-◌, ◌*◌, ◌≤◌, ◌<◌, ◌≡◌, ◌≢◌, inl, inr, refl, sym, ◌∙◌, Option, none, some,
  List, arith, ltb, if◌then◌else◌, length, get_elem?, set, get_elem?-in, set-get_or, subst,
  get_or-set_same, get_or-set_other, length-set, ◌>>=◌, Gives, gives, Gives-map, Gives-inv,
  Bool-cases,
}
use unix_programming.TimeHeap.{
  Memory, expire_of, store, smaller_child, percolate_loop, percolate_down, heapify,
}
use unix_programming.TimeHeap.Array.{
  entry, IsLive, key, parent, expire_of-key, store-set, IsOrderedFrom, AllLive,
}
use unix_programming.TimeHeap.Hole.{
  Sifted, DownInv, smaller_child-IsSmallerChild, keys, round-Sifted,
}

percolate_loop-Sifted :
    (k lo : ℕ) (mem : Memory) (n : ℕ) (arr : List (Option ℕ)) (hole : ℕ) (temp : Option ℕ)
    → n - hole < k
    → n ≤ length arr
    → hole < length arr
    → AllLive mem n (set arr hole temp)
    → DownInv lo n (keys mem (set arr hole temp)) hole
    → Gives (Sifted lo mem n (set arr hole temp)) (percolate_loop k mem n arr hole temp)
unfolding percolate_loop
percolate_loop-Sifted zero lo mem n arr hole temp f size inside live v = absurd (omega arith)
percolate_loop-Sifted (suc k) lo mem n arr hole temp f size inside live v =
    elim (Bool-cases (ltb (hole * 2 + 2) n)) [
      | inr bottom ↦
          rw (bottom, store-set arr hole temp inside)
            (gives (record {
              size = refl;
              order = λ c p q r. v.edges c p q r (ground arith);
              live = live;
              same = λ p. refl;
            }))
      | inl more ↦
          let deep : hole * 2 + 2 < n = ground arith in
          let own = entry_live deep in
          let (m, chosen, s) = Gives-inv (
            smaller_child-IsSmallerChild mem n arr hole size deep
              (own (hole * 2 + 1) (omega arith) (omega arith))
              (own (hole * 2 + 1 + 1) (omega arith) (omega arith))) in
          let near = s.inside in
          let child = s.child in
          let ne : m ≢ hole = omega arith in
          rw more (
            with_child m chosen (omega arith) (own m (omega arith) ne) (temp_live deep) (
              round-Sifted k lo mem n hole m arr temp size deep live v s λ live' v'.
                percolate_loop-Sifted k lo mem n (set arr hole (entry arr m)) m temp (omega arith)
                  (omega (arith, length-set arr hole (entry arr m)))
                  (omega (arith, length-set arr hole (entry arr m))) live' v'))
    ]
  where
    entry_live : hole * 2 + 2 < n → (j : ℕ) → j < n → j ≢ hole → IsLive mem (entry arr j)
    entry_live deep j less ne = rw (get_or-set_other arr j hole temp none ne) at (live j less)

    temp_live : hole * 2 + 2 < n → IsLive mem temp
    temp_live deep = rw (get_or-set_same arr hole temp none inside) at (live hole (omega arith))

    with_child :
        (m : ℕ)
        → smaller_child mem n arr (hole * 2 + 1) ≡ some m
        → m < length arr
        → IsLive mem (entry arr m)
        → IsLive mem temp
        → Gives (Sifted lo mem n (set arr hole temp)) (
            if ltb (key mem (entry arr m)) (key mem temp)
            then (store arr hole (entry arr m) >>= λ arr'. percolate_loop k mem n arr' m temp)
            else store arr hole temp)
        → Gives (Sifted lo mem n (set arr hole temp)) (do
          child ← smaller_child mem n arr (hole * 2 + 1)
          x ← get_elem? arr child
          below ← expire_of mem x
          above ← expire_of mem temp
          let deeper : Option (List (Option ℕ)) =
              store arr hole x >>= λ arr'. percolate_loop k mem n arr' child temp
          if ltb below above then deeper else store arr hole temp)
    with_child m chosen less lm lt g =
        rw (chosen, ◌>>=◌)
          (rw (get_elem?-in arr m none less, ◌>>=◌)
            (rw (expire_of-key mem (entry arr m) lm, ◌>>=◌)
              (rw (expire_of-key mem temp lt, ◌>>=◌) g)))

pub percolate_down-Sifted :
    (lo : ℕ) (mem : Memory) (n : ℕ) (arr : List (Option ℕ)) (hole : ℕ)
    → n ≤ length arr
    → hole < length arr
    → AllLive mem n arr
    → DownInv lo n (keys mem arr) hole
    → Gives (Sifted lo mem n arr) (percolate_down mem n arr hole)
unfolding percolate_down
percolate_down-Sifted lo mem n arr hole size inside live v =
    let same : arr ≡ set arr hole (entry arr hole) = sym (set-get_or arr hole none) in
    let go : AllLive mem n (set arr hole (entry arr hole))
        → DownInv lo n (keys mem (set arr hole (entry arr hole))) hole
        → Gives (Sifted lo mem n (set arr hole (entry arr hole)))
            (percolate_loop (n + 1) mem n arr hole (entry arr hole)) =
      percolate_loop-Sifted (n + 1) lo mem n arr hole (entry arr hole) (omega arith) size inside in
    rw (get_elem?-in arr hole none inside, ◌>>=◌)
      (subst
        (λ a. Gives (Sifted lo mem n a) (percolate_loop (n + 1) mem n arr hole (entry arr hole)))
        (sym same)
        (go (subst (AllLive mem n) same live) (subst (λ a. DownInv lo n (keys mem a) hole) same v)))

-- Putting another timer at the root.
pub root-Sifted :
    (mem : Memory) (n : ℕ) (arr : List (Option ℕ))
    → n ≤ length arr
    → 0 < length arr
    → AllLive mem n arr
    → ((c : ℕ) → 0 < parent c → suc c < n → key mem (entry arr (parent c)) ≤ key mem (entry arr c))
    → Gives (Sifted 0 mem n arr) (percolate_down mem n arr 0)
root-Sifted mem n arr size inside live edges =
    percolate_down-Sifted 0 mem n arr 0 size inside live (record {
      edges = λ c p q r t. edges c (omega arith) q;
      bridged = λ c p q r t u. absurd (omega arith);
    })

pub heapify-Sifted :
    (i : ℕ) (mem : Memory) (n : ℕ) (arr : List (Option ℕ))
    → n ≤ length arr
    → i ≤ length arr
    → AllLive mem n arr
    → IsOrderedFrom i mem n arr
    → Gives (Sifted 0 mem n arr) (heapify mem n i arr)
unfolding heapify
heapify-Sifted zero mem n arr size inside live order =
    gives (record { size = refl; order = order; live = live; same = λ p. refl })
heapify-Sifted (suc i) mem n arr size inside live order =
    let (b, run, s) = Gives-inv (
      percolate_down-Sifted i mem n arr i size (omega arith) live (record {
        edges = λ c p q r t. order c p q (ground arith);
        bridged = λ c p q r t u. absurd (omega arith);
      })) in
    let z = s.size in
    rw (run, ◌>>=◌)
      (Gives-map (heapify-Sifted i mem n b (omega arith) (omega arith) s.live s.order) λ c t.
        record {
          size = t.size ∙ z;
          order = t.order;
          live = t.live;
          same = λ p. t.same p ∙ s.same p;
        })
