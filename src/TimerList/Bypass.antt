-- ===== src/TimerList/Bypass.antt =====
-- The writes that take a node out of the list of socket/timer/sigalrm_list_timer.h.
use unix_programming.Base.{
  ℕ, ◌≡◌, ◌≢◌, refl, ap, sym, ◌∙◌, false, none, some, List, [], ◌∷◌, ◌++◌, arith, ◌==◌,
  if◌then◌else◌, Gives, gives, ◌>>=◌,
}
use unix_programming.TimerList.{Ptr, Node, Memory, write, Timers, load, store, release, bypass}
use unix_programming.TimerList.Chain.{
  Entry, node, first, last, has, Chain, Distinct, load-store, set_next-store, set_prev-store,
  ne_of_out, ne_of_member,
}
use unix_programming.TimerList.Unlink.{
  back, back-last, has-append, last-member, Chain-split, PointsPast, Distinct-past, apart, first-ne,
  out_left, out_right,
}

pub last_node :
    (h : Memory) (b after : Ptr) (x : Entry) (xs : List Entry)
    → Chain h b (x ∷ xs) after
    → (n : Node) × (h (last x.address xs) ≡ some n)
last_node h b after x [] c = (node x b after, c.0)
last_node h b after x (y ∷ xs) c = last_node h (some x.address) after y xs c.1

pub release-write :
    (s : Timers) (p : ℕ) (n : Node)
    → load s p ≡ some n
    → release p s ≡ some (record s { memory = write s.memory p none })
unfolding release
release-write s p n e = rw (e, ◌>>=◌)

-- the neighbours still point past a node that is deleted
pub PointsPast-write :
    (h g : Memory) (b : Ptr) (pre post : List Entry) (t : ℕ)
    → has t (pre ++ post) ≡ false
    → PointsPast h g b pre post
    → PointsPast h (write g t none) b pre post
PointsPast-write h g b pre post t out p =
    let split = has-append t pre post in
    record {
      same = λ a m nb nf.
          let ne = ne_of_member a t (pre ++ post) m out in
          let kept = p.same a m nb nf in ground arith;
      to_next = λ q n m e f.
          let ne = ne_of_member q t pre m (ground arith) in
          let kept = p.to_next q n m e f in ground arith;
      to_prev = λ y n e f.
          let ne : y ≢ t = (λ same. first-ne t post (ground arith) (e ∙ ap some same)) in
          let kept = p.to_prev y n e f in ground arith;
    }

-- a memory with two nodes written
abbrev two_writes : Memory → (p y : ℕ) → (n m : Node) → Memory
two_writes h p y n m = write (write h p (some n)) y (some m)

at_first : (h : Memory) (p y : ℕ) (n m : Node) → p ≢ y → two_writes h p y n m p ≡ some n
at_first h p y n m ne = ground arith

at_second : (h : Memory) (p y : ℕ) (n m : Node) → two_writes h p y n m y ≡ some m
at_second h p y n m = ground arith

elsewhere :
    (h : Memory) (p y : ℕ) (n m : Node) (a : ℕ) → a ≢ p → a ≢ y → two_writes h p y n m a ≡ h a
elsewhere h p y n m a ap ay = ground arith

kept : (h : Memory) (p a : ℕ) (n : Node) → p ≢ a → (if a == p then some n else h a) ≡ h a
kept h p a n ne = ground arith

PointsPast-two_writes :
    (h : Memory) (p : ℕ) (np ny : Node) (pre : List Entry) (y : Entry) (post : List Entry)
    → back none pre ≡ some p
    → h p ≡ some np
    → h y.address ≡ some ny
    → p ≢ y.address
    → PointsPast h
        (two_writes h p y.address
          (record np { next = some y.address })
          (record ny { prev = some p }))
        none
        pre
        (y ∷ post)
PointsPast-two_writes h p np ny pre y post prev_t at_p at_y py =
    let np' = record np { next = some y.address } in
    let ny' = record ny { prev = some p } in
    record {
      same = λ a m nb nf.
          elsewhere h p y.address np' ny' a (λ e. nb (prev_t ∙ ap some (sym e)))
            (λ e. nf (ap some (sym e)));
      to_next = λ q n m e f.
          let qp : q ≡ p = (let two = sym e ∙ prev_t in cc) in
          let same_n : np ≡ n = (let two = sym at_p ∙ ap h (sym qp) ∙ f in cc) in
          rw (qp, ← same_n) (at_first h p y.address np' ny' py);
      to_prev = λ q n e f.
          let qy : q ≡ y.address = cc in
          let same_n : ny ≡ n = (let two = sym at_y ∙ ap h (sym qy) ∙ f in cc) in
          rw (qy, ← same_n, prev_t) (at_second h p y.address np' ny');
    }

-- the two writes of `bypass`
pub record Bypassed (s : Timers) (t : Entry) (pre post : List Entry) (s' : Timers) : Type 0 where
  pub past : PointsPast s.memory s'.memory none pre post
  pub own : s'.memory t.address ≡ s.memory t.address
  pub same : (a : ℕ) → has a (pre ++ post) ≡ false → s'.memory a ≡ s.memory a
  pub head : s'.head ≡ s.head
  pub tail : s'.tail ≡ s.tail

-- both neighbours exist
pub bypass-Bypassed :
    (s : Timers) (t x y : Entry) (pre post : List Entry)
    → Chain s.memory none ((x ∷ pre) ++ t ∷ y ∷ post) none
    → Distinct ((x ∷ pre) ++ t ∷ y ∷ post)
    → Gives (Bypassed s t (x ∷ pre) (y ∷ post)) (bypass t.address s)
unfolding bypass store
bypass-Bypassed s t x y pre post c d =
    let parts = Chain-split s.memory none (x ∷ pre) (t ∷ y ∷ post) none c in
    let p = last x.address pre in
    let (np, at_p) = last_node s.memory none (some t.address) x pre parts.0 in
    let prev_t : back none (x ∷ pre) ≡ some p = back-last x.address pre in
    let own : s.memory t.address ≡ some (node t (some p) (some y.address)) =
      rw (← prev_t) parts.1.0 in
    let ny = node y (some t.address) (first post none) in
    let at_y : s.memory y.address ≡ some ny = parts.1.1.0 in
    let s1 = store s p (record np { next = some y.address }) in
    let s2 = store s1 y.address (record ny { prev = some p }) in
    let in_p = last-member x pre in
    let (d', out_t) = Distinct-past (x ∷ pre) t (y ∷ post) d in
    let pt =
      ne_of_member p t.address (x ∷ pre) in_p (out_left t.address (x ∷ pre) (y ∷ post) out_t) in
    let py = ne_of_out p y post (apart (x ∷ pre) (y ∷ post) p d' in_p) in
    let ty = ne_of_out t.address y post (out_right t.address (x ∷ pre) (y ∷ post) out_t) in
    let np' = record np { next = some y.address } in
    let ny' = record ny { prev = some p } in
    let e1 = set_next-store p (some y.address) s np at_p in
    let own1 : load s1 t.address ≡ some (node t (some p) (some y.address)) =
      load-store s p np' t.address ∙ kept s.memory p t.address np' pt ∙ own in
    let next1 : load s1 y.address ≡ some ny =
      load-store s p np' y.address ∙ kept s.memory p y.address np' py ∙ at_y in
    let e2 = set_prev-store y.address (some p) s1 ny next1 in
    rw (own, ◌>>=◌)
      (rw (e1, ◌>>=◌)
        (rw (own1, ◌>>=◌)
          (rw e2 (
            gives (record {
              past = PointsPast-two_writes s.memory p np ny (x ∷ pre) y post prev_t at_p at_y py;
              own = elsewhere s.memory p y.address np' ny' t.address (λ e. pt (sym e)) ty;
              same = λ a o.
                  elsewhere s.memory p y.address np' ny' a
                    (λ e.
                      ne_of_member p a (x ∷ pre) in_p (out_left a (x ∷ pre) (y ∷ post) o) (sym e))
                    (ne_of_out a y post (out_right a (x ∷ pre) (y ∷ post) o));
              head = refl;
              tail = refl;
            })))))
