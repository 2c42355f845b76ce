-- ===== src/TimerList/Insert.antt =====
-- add_timer of socket/timer/sigalrm_list_timer.h puts a timer where it belongs.
use unix_programming.Base.{
  ℕ, ◌<◌, ◌≡◌, ◌≢◌, refl, ◌∙◌, inl, inr, Bool-cases, false, none, some, List, [], ◌∷◌, arith,
  if◌then◌else◌, ltb, Gives, gives, Gives-map, ◌>>=◌, length,
}
use unix_programming.TimerList.{
  Ptr, Node, write, Timers, load, store, link_front, insert_after, add_timer,
}
use unix_programming.TimerList.Chain.{
  Entry, node, first, has, Chain-frame, load-store, set_next-store, set_prev-store, IsList, Updated,
  ne_of_out, out_of_rest, ne_of_member, IsList, Updated,
}
use unix_programming.TimerList.Loop.{
  insert, insert-branch, insert-nil, has-insert, Distinct-insert, insert_loop-Inserted,
}

link_front-store :
    (s : Timers) (t h : ℕ) (nt nh : Node)
    → load s t ≡ some nt
    → load s h ≡ some nh
    → t ≢ h
    → link_front t h s
      ≡ some
          (record (store
            (store s t (record nt { next = some h }))
            h
            (record nh { prev = some t })) { head = some t })
unfolding link_front
link_front-store s t h nt nh et eh ne =
    let s1 = store s t (record nt { next = some h }) in
    rw (set_next-store t (some h) s nt et, ◌>>=◌)
      (rw
        (
          set_prev-store h (some t) s1 nh
              (ground (arith, load-store s t (record nt { next = some h }) h)),
          ◌>>=◌,
        )
        refl)

pub in_front :
    (s : Timers) (t x : Entry) (xs : List Entry)
    → IsList s (x ∷ xs)
    → s.memory t.address ≡ some (node t none none)
    → has t.address (x ∷ xs) ≡ false
    → Gives (Updated s (t ∷ x ∷ xs) (t ∷ x ∷ xs)) (link_front t.address x.address s)
unfolding store
in_front s t x xs is own out =
    let tx = ne_of_out t.address x xs out in
    let h1 = write s.memory t.address (some (node t none (some x.address))) in
    let h2 = write h1 x.address (some (node x (some t.address) (first xs none))) in
    rw
      (link_front-store s t.address x.address (node t none none) (node x none (first xs none)) own
        is.chain.0 tx)
      (gives (
        record {
          chain = (
            ground arith,
            (
              ground arith,
              Chain-frame s.memory h2 (some x.address) xs none
                  (λ a m.
                    let at = ne_of_member a t.address xs m (out_of_rest t.address x xs out) in
                    let ax = ne_of_member a x.address xs m is.distinct.0 in ground arith)
                  is.chain.1,
            ),
          );
          distinct = (out, is.distinct);
          head = refl;
          tail = is.tail;
        },
        λ a o.
            let at = ne_of_out a t (x ∷ xs) o in
            let ax = ne_of_out a x xs (out_of_rest a t (x ∷ xs) o) in ground arith,
      ))

pub behind_head :
    (f : ℕ) (s : Timers) (p q : Ptr) (t x : Entry) (xs : List Entry)
    → IsList s (x ∷ xs)
    → s.memory t.address ≡ some (node t p q)
    → has t.address (x ∷ xs) ≡ false
    → length xs < f
    → Gives (Updated s (t ∷ x ∷ xs) (x ∷ insert t xs)) (insert_after f t.address x.address s)
unfolding insert_after
behind_head f s p q t x xs is own out fuel =
    rw (is.chain.0, ◌>>=◌)
      (Gives-map (insert_loop-Inserted t f s none p q x xs own is.chain is.distinct out fuel)
        λ s' r. (
          record {
            chain = r.chain;
            distinct = (
              ground (arith, has-insert x.address t xs, out, is.distinct.0),
              Distinct-insert t xs (out_of_rest t.address x xs out) is.distinct.1,
            );
            head = r.head ∙ is.head;
            tail = r.tail is.tail;
          },
          r.same,
        ))

add_timer-branch :
    (f timer head : ℕ) (s : Timers) (t n : Node)
    → s.head ≡ some head
    → load s timer ≡ some t
    → load s head ≡ some n
    → add_timer f (some timer) s
      ≡ (if ltb t.expire n.expire then link_front timer head s else insert_after f timer head s)
unfolding add_timer
add_timer-branch f timer head s t n eh et en = ground arith

add_timer-first :
    (f timer : ℕ) (s : Timers)
    → s.head ≡ none
    → add_timer f (some timer) s ≡ some (record s { head = some timer; tail = some timer })
unfolding add_timer
add_timer-first f timer s eh = ground arith

-- add_timer, with enough fuel, on a timer that is not in the list: the timer is put in front of
-- the first that expires later, and only the nodes of the list and its own are written to.
pub add_timer-insert :
    (f : ℕ) (s : Timers) (t : Entry) (xs : List Entry)
    → IsList s xs
    → s.memory t.address ≡ some (node t none none)
    → has t.address xs ≡ false
    → length xs < f
    → Gives (Updated s (t ∷ xs) (insert t xs)) (add_timer f (some t.address) s)
add_timer-insert f s t [] is own out fuel =
    rw (add_timer-first f t.address s is.head, insert-nil t)
      (gives (
        record { chain = (own, tt); distinct = (refl, tt); head = refl; tail = refl },
        λ a o. refl,
      ))
add_timer-insert f s t (x ∷ xs) is own out fuel =
    rw
      (
        add_timer-branch f t.address x.address s (node t none none) (node x none (first xs none))
            is.head own is.chain.0,
        insert-branch t x xs,
      )
      (elim (Bool-cases (ltb t.expire x.expire)) [
        | inl before ↦ rw before (in_front s t x xs is own out)
        | inr behind ↦ rw behind (behind_head f s none none t x xs is own out (omega arith))
      ])
