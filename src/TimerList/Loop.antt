-- ===== src/TimerList/Loop.antt =====
-- The loop of the private add_timer of socket/timer/sigalrm_list_timer.h.
use unix_programming.Base.{
  ℕ, zero, suc, ◌<◌, ◌≡◌, ◌≢◌, refl, ◌∙◌, inl, inr, Bool-cases, false, none, some, List, [], ◌∷◌,
  arith, if◌then◌else◌, ltb, Gives, gives, Gives-map, ◌>>=◌, length,
}
use unix_programming.TimerList.{Ptr, Node, Timers, load, store, link_last, insert_loop}
use unix_programming.TimerList.Chain.{
  Entry, node, first, last, has, Chain, Distinct, Chain-frame, set_next-store, set_prev-store,
  Linked, ne_of_out, out_of_rest, ne_of_member, link_between-Linked,
}

-- in front of the first entry that expires later
unfoldable pub insert : Entry → List Entry → List Entry
insert t [] = t ∷ []
insert t (x ∷ xs) = if ltb t.expire x.expire then t ∷ x ∷ xs else x ∷ insert t xs

pub insert-branch :
    (t x : Entry) (xs : List Entry)
    → insert t (x ∷ xs) ≡ (if ltb t.expire x.expire then t ∷ x ∷ xs else x ∷ insert t xs)
unfolding insert
insert-branch t x xs = refl

pub insert-nil : (t : Entry) → insert t [] ≡ t ∷ []
unfolding insert
insert-nil t = refl

pub has-insert : (a : ℕ) (t : Entry) (xs : List Entry) → has a (insert t xs) ≡ has a (t ∷ xs)
unfolding insert
has-insert a t [] = refl
has-insert a t (x ∷ xs) = ground (arith, has-insert a t xs)

pub link_last-Linked :
    (timer prev : ℕ) (s : Timers) (nt np : Node)
    → load s timer ≡ some nt
    → load s prev ≡ some np
    → timer ≢ prev
    → Gives
        (λ s'.
          Linked s timer prev none nt np s'
          × (s'.tail ≡ some timer)
          × ((a : ℕ) → a ≢ timer → a ≢ prev → s'.memory a ≡ s.memory a))
        (link_last timer prev s)
unfolding link_last store
link_last-Linked timer prev s nt np et ep tp =
    let s1 = store s prev (record np { next = some timer }) in
    let s2 = store s1 timer (record nt { prev = some prev }) in
    let e1 = set_next-store prev (some timer) s np ep in
    let e2 = set_prev-store timer (some prev) s1 nt (ground (arith, et)) in
    let e3 = set_next-store timer none s2 (record nt { prev = some prev }) (ground arith) in
    rw (e1, ◌>>=◌)
      (rw (e2, ◌>>=◌)
        (rw (e3, ◌>>=◌)
          (gives (
            record { own = ground arith; before = ground arith; head = refl },
            refl,
            λ a at ap. ground arith,
          ))))

-- What the loop does behind the node of `c`: `t` stands among the entries behind it.
pub record Inserted (s : Timers) (before : Ptr) (c t : Entry) (post : List Entry) (s' : Timers)
    : Type 0 where
  pub chain : Chain s'.memory before (c ∷ insert t post) none
  pub same : (a : ℕ) → has a (t ∷ c ∷ post) ≡ false → s'.memory a ≡ s.memory a
  pub head : s'.head ≡ s.head
  pub tail : s.tail ≡ some (last c.address post) → s'.tail ≡ some (last c.address (insert t post))

module _ (t : Entry) where
  pub insert_loop-Inserted :
      (f : ℕ) (s : Timers) (before p q : Ptr) (c : Entry) (post : List Entry)
      → load s t.address ≡ some (node t p q)
      → Chain s.memory before (c ∷ post) none
      → Distinct (c ∷ post)
      → has t.address (c ∷ post) ≡ false
      → length post < f
      → Gives (Inserted s before c t post) (insert_loop f t.address c.address (first post none) s)
  unfolding insert_loop insert
  insert_loop-Inserted zero s b p q c post et ch di out fuel = absurd (omega arith)
  insert_loop-Inserted (suc f) s b p q c [] et ch di out fuel =
      Gives-map
        (link_last-Linked t.address c.address s (node t p q) (node c b none) et ch.0 (ground arith))
        λ s' (l, tail, same). record {
          chain = (l.before, (l.own, tt));
          same = λ a o. same a (ground arith) (ground arith);
          head = l.head;
          tail = λ k. tail;
        }
  insert_loop-Inserted (suc f) s b p q c (x ∷ xs) et ch di out fuel =
      let tc = ne_of_out t.address c (x ∷ xs) out in
      let out_x = out_of_rest t.address c (x ∷ xs) out in
      let tx = ne_of_out t.address x xs out_x in
      let cx = ne_of_out c.address x xs di.0 in
      rw (et, ◌>>=◌)
        (rw (ch.1.0, ◌>>=◌)
          (elim (Bool-cases (ltb t.expire x.expire)) [
            | inl before ↦ rw before (
                Gives-map
                  (link_between-Linked t.address c.address x.address s (node t p q)
                    (node c b (some x.address)) (node x (some c.address) (first xs none)) et ch.0
                    ch.1.0 tc tx cx)
                  λ s' (l, tmp, tail, same).
                    let rest =
                      Chain-frame s.memory s'.memory (some x.address) xs none
                        (λ a m.
                          same a (ne_of_member a t.address xs m (out_of_rest t.address x xs out_x))
                            (ne_of_member a c.address xs m (out_of_rest c.address x xs di.0))
                            (ne_of_member a x.address xs m di.1.0))
                        ch.1.1 in
                    record {
                      chain = rw before (l.before, (l.own, (tmp, rest)));
                      same = λ a o.
                          let o' = out_of_rest a t (c ∷ x ∷ xs) o in
                          same a (ne_of_out a t (c ∷ x ∷ xs) o) (ne_of_out a c (x ∷ xs) o')
                            (ne_of_out a x xs (out_of_rest a c (x ∷ xs) o'));
                      head = l.head;
                      tail = λ k. rw before (tail ∙ k);
                    })
            | inr behind ↦ rw behind (
                Gives-map
                  (insert_loop-Inserted f s (some c.address) p q x xs et ch.1 di.1 out_x
                    (omega arith))
                  λ s' r.
                    let kept = r.same c.address (ground (arith, di.0, tc)) in
                    record {
                      chain = rw behind ((kept ∙ ch.0), r.chain);
                      same = λ a o. r.same a (ground arith);
                      head = r.head;
                      tail = λ k. rw behind (r.tail k);
                    })
          ]))

pub Distinct-insert :
    (t : Entry) (xs : List Entry) → has t.address xs ≡ false → Distinct xs → Distinct (insert t xs)
unfolding insert
Distinct-insert t [] out d = (refl, tt)
Distinct-insert t (x ∷ xs) out d = elim (Bool-cases (ltb t.expire x.expire)) [
  | inl before ↦ rw before (out, d)
  | inr behind ↦
      let rest = Distinct-insert t xs (out_of_rest t.address x xs out) d.1 in
      let new : has x.address (insert t xs) ≡ false =
        ground (arith, has-insert x.address t xs, out, d.0) in
      rw behind (new, rest)
]
