-- ===== src/TimerList/Adjust.antt =====
-- adjust_timer of socket/timer/sigalrm_list_timer.h moves a timer that expires later than before.
use unix_programming.Base.{
  ℕ, ◌<◌, ◌≡◌, ◌≢◌, refl, ap, sym, ◌∙◌, inl, inr, Bool-cases, true, false, none, some, List, [],
  ◌∷◌, ◌++◌, arith, ltb, if◌then◌else◌, Gives, gives, Gives-map, Gives-inv, ◌>>=◌, length,
}
use unix_programming.TimerList.{
  Ptr, Node, Timers, load, store, is_ptr, insert_after, adjust_head, adjust_inner, adjust_timer,
}
use unix_programming.TimerList.Chain.{
  Entry, node, first, last, has, Chain, Distinct, Chain-frame, set_prev-store, set_next-store,
  write_same, write_other, ne_of_out, out_of_rest, ne_of_member, IsList, Updated,
}
use unix_programming.TimerList.Loop.{
  insert, insert-branch, insert-nil, has-insert, Distinct-insert, insert_loop-Inserted,
}
use unix_programming.TimerList.Insert.{behind_head}
use unix_programming.TimerList.Unlink.{
  back, has-append, last-append, Chain-split, Chain-append, Chain-past, out_left, out_right,
  Distinct-past, Distinct-right, apart,
}
use unix_programming.TimerList.Bypass.{Bypassed, bypass-Bypassed}

module _ (f : ℕ) (s : Timers) (t : ℕ) (nt : Node) (own : load s t ≡ some nt) where
  stays_last : nt.next ≡ none → adjust_timer f (some t) s ≡ some s
  unfolding adjust_timer
  stays_last e = ground arith

  adjust_timer-branch :
      (y : ℕ) (ny : Node)
      → nt.next ≡ some y
      → load s y ≡ some ny
      → adjust_timer f (some t) s ≡ (
          if ltb nt.expire ny.expire
          then some s
          else if is_ptr t s.head
          then adjust_head f t s
          else adjust_inner f t s)
  unfolding adjust_timer
  adjust_timer-branch y ny e at_y = ground arith

is_head : (t : ℕ) (p : Ptr) → p ≡ some t → is_ptr t p ≡ true
is_head t p e = ground arith

is_other : (t q : ℕ) (p : Ptr) → p ≡ some q → q ≢ t → is_ptr t p ≡ false
is_other t q p e ne = ground arith

-- the timer is the head
from_head :
    (f : ℕ) (s : Timers) (t y : Entry) (ys : List Entry)
    → IsList s (t ∷ y ∷ ys)
    → length ys < f
    → Gives (Updated s (t ∷ y ∷ ys) (y ∷ insert t ys)) (adjust_head f t.address s)
unfolding adjust_head store
from_head f s t y ys is fuel =
    let ty = ne_of_out t.address y ys is.distinct.0 in
    let out = out_of_rest t.address y ys is.distinct.0 in
    let s1 = record s { head = some y.address } in
    let ny = node y none (first ys none) in
    let nt = node t none none in
    let s2 = store s1 y.address ny in
    let s3 = store s2 t.address nt in
    let e1 =
      set_prev-store y.address none s1 (node y (some t.address) (first ys none)) is.chain.1.0 in
    let own2 = write_other s.memory y.address (some ny) t.address ty ∙ is.chain.0 in
    let e2 = set_next-store t.address none s2 (node t none (some y.address)) own2 in
    let h3 = s3.memory in
    let at_y =
      write_other s2.memory t.address (some nt) y.address (λ e. ty (sym e))
      ∙ write_same s.memory y.address (some ny) in
    let rest =
      Chain-frame s.memory h3 (some y.address) ys none
        (λ a m.
          write_other s2.memory t.address (some nt) a (ne_of_member a t.address ys m out)
          ∙ write_other s.memory y.address (some ny) a
              (ne_of_member a y.address ys m is.distinct.1.0))
        is.chain.1.1 in
    let list3 : IsList s3 (y ∷ ys) = record {
      chain = (at_y, rest);
      distinct = is.distinct.1;
      head = refl;
      tail = is.tail;
    } in
    rw (is.chain.0, ◌>>=◌)
      (rw (e1, ◌>>=◌)
        (rw (e2, ◌>>=◌)
          (Gives-map
            (behind_head f s3 none none t y ys list3 (write_same s2.memory t.address (some nt))
              is.distinct.0 fuel)
            λ s' (list, same). (
              list,
              λ a o.
                  same a o
                  ∙ write_other s2.memory t.address (some nt) a (ne_of_out a t (y ∷ ys) o)
                  ∙ write_other s.memory y.address (some ny) a
                      (ne_of_out a y ys (out_of_rest a t (y ∷ ys) o)),
            ))))

-- other entries behind `pre`, of which none is new
pub Distinct-replace :
    (pre xs ys : List Entry)
    → ((a : ℕ) → has a ys ≡ true → has a xs ≡ true)
    → Distinct ys
    → Distinct (pre ++ xs)
    → Distinct (pre ++ ys)
Distinct-replace [] xs ys sub d e = d
Distinct-replace (x ∷ pre) xs ys sub d e =
    let in_pre = out_left x.address pre xs e.0 in
    let in_ys : has x.address ys ≡ false = elim (Bool-cases (has x.address ys)) [
      | inl member ↦ (let m = sub x.address member in let o = out_right x.address pre xs e.0 in cc)
      | inr out ↦ out
    ] in
    (
      has-append x.address pre ys ∙ ground (arith, in_pre, in_ys),
      Distinct-replace pre xs ys sub d e.1,
    )

-- a member in the middle is not among the others
out_of_middle :
    (a : ℕ) (pre : List Entry) (t : Entry) (post : List Entry)
    → has a (pre ++ t ∷ post) ≡ false
    → has a (pre ++ post) ≡ false
out_of_middle a pre t post o =
    let left = out_left a pre (t ∷ post) o in
    let right = out_right a pre (t ∷ post) o in has-append a pre post ∙ ground arith

-- the timer has a neighbour on either side
module _ (f : ℕ) (s : Timers) (x : Entry) (pre : List Entry) (t y : Entry) (ys : List Entry) where
  abbrev front : List Entry
  front = x ∷ pre

  settled :
      (s1 s' : Timers)
      → IsList s (front ++ t ∷ y ∷ ys)
      → Bypassed s t front (y ∷ ys) s1
      → Chain s1.memory none front (some y.address)
      → Chain s'.memory (back none front) (y ∷ insert t ys) none
      → ((a : ℕ) → has a (t ∷ y ∷ ys) ≡ false → s'.memory a ≡ s1.memory a)
      → s'.head ≡ s1.head
      → (s1.tail ≡ some (last y.address ys) → s'.tail ≡ some (last y.address (insert t ys)))
      → Updated s (front ++ t ∷ y ∷ ys) (front ++ y ∷ insert t ys) s'
  settled s1 s' is done before behind same head tail =
      let (d', out_t) = Distinct-past front t (y ∷ ys) is.distinct in
      let out_post = out_right t.address front (y ∷ ys) out_t in
      let kept : (a : ℕ) → has a front ≡ true → s'.memory a ≡ s1.memory a =
        (λ a m. same a (apart front (t ∷ y ∷ ys) a is.distinct m)) in
      let members : (a : ℕ) → has a (y ∷ insert t ys) ≡ true → has a (t ∷ y ∷ ys) ≡ true =
        (λ a m. let e = has-insert a t ys in ground arith) in
      let in_middle = Distinct-right front (t ∷ y ∷ ys) is.distinct in
      let own : Distinct (y ∷ insert t ys) = (
        has-insert y.address t ys ∙ ground (arith, in_middle.0, in_middle.1.0),
        Distinct-insert t ys (out_of_rest t.address y ys out_post) in_middle.1.1,
      ) in
      (
        record {
          chain =
              Chain-append s'.memory none front (y ∷ insert t ys) none
                (Chain-frame s1.memory s'.memory none front (some y.address) kept before) behind;
          distinct = Distinct-replace front (t ∷ y ∷ ys) (y ∷ insert t ys) members own is.distinct;
          head = head ∙ done.head ∙ is.head;
          tail =
              tail (done.tail ∙ is.tail ∙ ap some (last-append x.address pre t (y ∷ ys)))
              ∙ ap some (sym (last-append x.address pre y (insert t ys)));
        },
        λ a o.
            same a (out_right a front (t ∷ y ∷ ys) o)
            ∙ done.same a (out_of_middle a front t (y ∷ ys) o),
      )

  from_middle :
      IsList s (front ++ t ∷ y ∷ ys)
      → length ys < f
      → Gives
          (Updated s (front ++ t ∷ y ∷ ys) (front ++ y ∷ insert t ys))
          (adjust_inner f t.address s)
  unfolding adjust_inner insert_after
  from_middle is fuel =
      let (s1, run, done) = Gives-inv (bypass-Bypassed s t x y pre ys is.chain is.distinct) in
      let (d', out_t) = Distinct-past front t (y ∷ ys) is.distinct in
      let parts = Chain-split s.memory none front (t ∷ y ∷ ys) none is.chain in
      let own : load s1 t.address ≡ some (node t (back none front) (some y.address)) =
        done.own ∙ parts.1.0 in
      let chain1 =
        Chain-past s.memory s1.memory t (y ∷ ys) none front is.chain is.distinct (λ a m e. cc)
          done.past in
      let parts1 = Chain-split s1.memory none front (y ∷ ys) none chain1 in
      let d_post = Distinct-right front (y ∷ ys) d' in
      rw (run, ◌>>=◌)
        (rw (own, ◌>>=◌)
          (rw (parts1.1.0, ◌>>=◌)
            (Gives-map
              (insert_loop-Inserted t f s1 (back none front) (back none front) (some y.address) y ys
                own parts1.1 d_post (out_right t.address front (y ∷ ys) out_t) fuel)
              λ s' r. settled s1 s' is done parts1.0 r.chain r.same r.head r.tail)))

-- adjust_timer, with enough fuel, on a timer of the list whose time has been put off: the timer
-- moves behind those that expire no later, and only nodes of the list are written to.
pub adjust_timer-insert :
    (f : ℕ) (s : Timers) (pre : List Entry) (t : Entry) (post : List Entry)
    → IsList s (pre ++ t ∷ post)
    → length post < f
    → Gives (Updated s (pre ++ t ∷ post) (pre ++ insert t post)) (adjust_timer f (some t.address) s)
adjust_timer-insert f s pre t [] is fuel =
    let parts = Chain-split s.memory none pre (t ∷ []) none is.chain in
    rw (stays_last f s t.address (node t (back none pre) none) parts.1.0 refl, insert-nil t)
      (gives (is, λ a o. refl))
adjust_timer-insert f s pre t (y ∷ ys) is fuel =
    let parts = Chain-split s.memory none pre (t ∷ y ∷ ys) none is.chain in
    rw
      (
        adjust_timer-branch f s t.address (node t (back none pre) (some y.address)) parts.1.0
            y.address (node y (some t.address) (first ys none)) refl parts.1.1.0,
        insert-branch t y ys,
      )
      (elim (Bool-cases (ltb t.expire y.expire)) [
        | inl stays ↦ rw stays (gives (is, λ a o. refl))
        | inr moves ↦ rw moves (moved pre is)
      ])
  where
    moved :
        (pre : List Entry)
        → IsList s (pre ++ t ∷ y ∷ ys)
        → Gives (Updated s (pre ++ t ∷ y ∷ ys) (pre ++ y ∷ insert t ys)) (
            if is_ptr t.address s.head
            then adjust_head f t.address s
            else adjust_inner f t.address s)
    moved [] is = rw (is_head t.address s.head is.head) (from_head f s t y ys is (omega arith))
    moved (x ∷ pre) is =
        let (d', out) = Distinct-past (x ∷ pre) t (y ∷ ys) is.distinct in
        let ne : x.address ≢ t.address = (λ e. ne_of_out t.address x (pre ++ y ∷ ys) out (sym e)) in
        rw (is_other t.address x.address s.head is.head ne)
          (from_middle f s x pre t y ys is (omega arith))
