-- ===== src/TimerList/Delete.antt =====
-- del_timer of socket/timer/sigalrm_list_timer.h takes a timer out and frees it.
use unix_programming.Base.{
  ℕ, ◌≡◌, ◌≢◌, refl, ap, sym, ◌∙◌, false, none, some, List, [], ◌∷◌, ◌++◌, arith, Gives, gives,
  Gives-inv, ◌>>=◌,
}
use unix_programming.TimerList.{
  write, Timers, load, store, release, delete_head, delete_tail, delete_inner, del_timer,
}
use unix_programming.TimerList.Chain.{
  Entry, node, first, last, has, Chain-frame, set_next-store, set_prev-store, write_same,
  write_other, ne_of_out, out_of_rest, ne_of_member, IsList,
}
use unix_programming.TimerList.Unlink.{
  back, back-last, has-append, last-member, last-append, Chain-split, PointsPast, out_left,
  out_right, Chain-past, Distinct-past,
}
use unix_programming.TimerList.Bypass.{last_node, release-write, PointsPast-write, bypass-Bypassed}

-- the timer `t` is out of the list and freed
pub record Deleted (s : Timers) (t : Entry) (pre post : List Entry) (s' : Timers) : Type 0 where
  pub list : IsList s' (pre ++ post)
  pub freed : s'.memory t.address ≡ none
  pub same : (a : ℕ) → has a (pre ++ t ∷ post) ≡ false → s'.memory a ≡ s.memory a

module _ (s : Timers) (t : ℕ) where
  only :
      s.head ≡ some t
      → s.tail ≡ some t
      → del_timer (some t) s ≡ (release t s >>= λ s. some (record s { head = none; tail = none }))
  unfolding del_timer
  only eh et = ground arith

  at_head :
      (q : ℕ) → s.head ≡ some t → s.tail ≡ some q → q ≢ t → del_timer (some t) s ≡ delete_head t s
  unfolding del_timer
  at_head q eh et ne = ground arith

  at_tail :
      (p : ℕ) → s.head ≡ some p → p ≢ t → s.tail ≡ some t → del_timer (some t) s ≡ delete_tail t s
  unfolding del_timer
  at_tail p eh ne et = ground arith

  inside :
      (p q : ℕ)
      → s.head ≡ some p
      → p ≢ t
      → s.tail ≡ some q
      → q ≢ t
      → del_timer (some t) s ≡ delete_inner t s
  unfolding del_timer
  inside p q eh np et nq = ground arith

module _ (s : Timers) (t : Entry) where
  delete_only : IsList s (t ∷ []) → Gives (Deleted s t [] []) (del_timer (some t.address) s)
  delete_only is =
      rw
        (
          only s t.address is.head is.tail,
          release-write s t.address (node t none none) is.chain.0,
          ◌>>=◌,
        )
        (gives (record {
          list = record { chain = tt; distinct = tt; head = refl; tail = tt };
          freed = ground arith;
          same = λ a o. let ne = ne_of_out a t [] o in ground arith;
        }))

  delete_first :
      (y : Entry) (post : List Entry)
      → IsList s (t ∷ y ∷ post)
      → Gives (Deleted s t [] (y ∷ post)) (del_timer (some t.address) s)
  unfolding delete_head store
  delete_first y post is =
      let ty = ne_of_out t.address y post is.distinct.0 in
      let last_ne =
        ne_of_member (last y.address post) t.address (y ∷ post) (last-member y post)
          is.distinct.0 in
      let s1 = record s { head = some y.address } in
      let ny = node y none (first post none) in
      let s2 = store s1 y.address ny in
      let e1 =
        set_prev-store y.address none s1 (node y (some t.address) (first post none)) is.chain.1.0 in
      let own : load s2 t.address ≡ some (node t none (some y.address)) =
        ground (arith, is.chain.0) in
      let h2 = write s2.memory t.address none in
      let rest =
        Chain-frame s.memory h2 (some y.address) post none
          (λ a m.
            let at = ne_of_member a t.address post m (out_of_rest t.address y post is.distinct.0) in
            let ay = ne_of_member a y.address post m is.distinct.1.0 in ground arith)
          is.chain.1.1 in
      rw (at_head s t.address (last y.address post) is.head is.tail last_ne) (
        rw (is.chain.0, ◌>>=◌)
          (rw (e1, ◌>>=◌)
            (rw (release-write s2 t.address (node t none (some y.address)) own) (
              gives (record {
                list = record {
                  chain = (ground arith, rest);
                  distinct = is.distinct.1;
                  head = refl;
                  tail = is.tail;
                };
                freed = ground arith;
                same = λ a o.
                    let at = ne_of_out a t (y ∷ post) o in
                    let ay = ne_of_out a y post (out_of_rest a t (y ∷ post) o) in ground arith;
              })))))

  delete_last :
      (x : Entry) (pre : List Entry)
      → IsList s ((x ∷ pre) ++ t ∷ [])
      → Gives (Deleted s t (x ∷ pre) []) (del_timer (some t.address) s)
  unfolding delete_tail store
  delete_last x pre is =
      let p = last x.address pre in
      let parts = Chain-split s.memory none (x ∷ pre) (t ∷ []) none is.chain in
      let (np, at_p) = last_node s.memory none (some t.address) x pre parts.0 in
      let prev_t : back none (x ∷ pre) ≡ some p = back-last x.address pre in
      let own : s.memory t.address ≡ some (node t (some p) none) = rw (← prev_t) parts.1.0 in
      let in_p = last-member x pre in
      let (d', out_t) = Distinct-past (x ∷ pre) t [] is.distinct in
      let out_pre = out_left t.address (x ∷ pre) [] out_t in
      let pt = ne_of_member p t.address (x ∷ pre) in_p out_pre in
      let np' = record np { next = none } in
      let s1 = record s { tail = some p } in
      let s2 = store s1 p np' in
      let e1 = set_next-store p none s1 np at_p in
      let own2 : load s2 t.address ≡ some (node t (some p) none) =
        write_other s.memory p (some np') t.address (λ e. pt (sym e)) ∙ own in
      let past : PointsPast s.memory s2.memory none (x ∷ pre) [] = record {
        same =
            λ a m nb nf. write_other s.memory p (some np') a (λ e. nb (prev_t ∙ ap some (sym e)));
        to_next = λ q n m e f.
            let qp : q ≡ p = (let two = sym e ∙ prev_t in cc) in
            let same_n : np ≡ n = (let two = sym at_p ∙ ap s.memory (sym qp) ∙ f in cc) in
            rw (qp, ← same_n) (write_same s.memory p (some np'));
        to_prev = λ y n e f. cc;
      } in
      let gone = PointsPast-write s.memory s2.memory none (x ∷ pre) [] t.address out_t past in
      let chain =
        Chain-past s.memory (write s2.memory t.address none) t [] none (x ∷ pre) is.chain
          is.distinct (λ a m e. cc) gone in
      let x_ne : x.address ≢ t.address = (λ e. ne_of_out t.address x pre out_pre (sym e)) in
      rw
        (at_tail s t.address x.address is.head x_ne
          (is.tail ∙ ap some (last-append x.address pre t [])))
        (rw (own, ◌>>=◌)
          (rw (e1, ◌>>=◌)
            (rw (release-write s2 t.address (node t (some p) none) own2) (
              gives (record {
                list = record {
                  chain = chain;
                  distinct = d';
                  head = is.head;
                  tail = ap some (last_of x.address pre);
                };
                freed = write_same s2.memory t.address none;
                same = λ a o.
                    let at = ne_of_out a t [] (out_right a (x ∷ pre) (t ∷ []) o) in
                    let pa = ne_of_member p a (x ∷ pre) in_p (out_left a (x ∷ pre) (t ∷ []) o) in
                    write_other s2.memory t.address none a at
                    ∙ write_other s.memory p (some np') a (λ e. pa (sym e));
              })))))
    where
      last_of : (a : ℕ) (xs : List Entry) → last a xs ≡ last a (xs ++ [])
      last_of a [] = refl
      last_of a (x ∷ xs) = last_of x.address xs

  delete_middle :
      (x y : Entry) (pre post : List Entry)
      → IsList s ((x ∷ pre) ++ t ∷ y ∷ post)
      → Gives (Deleted s t (x ∷ pre) (y ∷ post)) (del_timer (some t.address) s)
  unfolding delete_inner
  delete_middle x y pre post is =
      let (d', out_t) = Distinct-past (x ∷ pre) t (y ∷ post) is.distinct in
      let out_pre = out_left t.address (x ∷ pre) (y ∷ post) out_t in
      let out_post = out_right t.address (x ∷ pre) (y ∷ post) out_t in
      let x_ne : x.address ≢ t.address = (λ e. ne_of_out t.address x pre out_pre (sym e)) in
      let q = last y.address post in
      let q_ne = ne_of_member q t.address (y ∷ post) (last-member y post) out_post in
      let tail_q : s.tail ≡ some q = is.tail ∙ ap some (last-append x.address pre t (y ∷ post)) in
      let parts = Chain-split s.memory none (x ∷ pre) (t ∷ y ∷ post) none is.chain in
      let (s1, run, done) = Gives-inv (bypass-Bypassed s t x y pre post is.chain is.distinct) in
      let own : load s1 t.address ≡ some (node t (back none (x ∷ pre)) (some y.address)) =
        done.own ∙ parts.1.0 in
      let gone =
        PointsPast-write s.memory s1.memory none (x ∷ pre) (y ∷ post) t.address out_t done.past in
      let chain =
        Chain-past s.memory (write s1.memory t.address none) t (y ∷ post) none (x ∷ pre) is.chain
          is.distinct (λ a m e. cc) gone in
      rw (inside s t.address x.address q is.head x_ne tail_q q_ne) (
        rw (run, ◌>>=◌)
          (rw (release-write s1 t.address (node t (back none (x ∷ pre)) (some y.address)) own) (
            gives (record {
              list = record {
                chain = chain;
                distinct = d';
                head = done.head ∙ is.head;
                tail = done.tail ∙ tail_q ∙ ap some (sym (last-append x.address pre y post));
              };
              freed = write_same s1.memory t.address none;
              same = λ a o.
                  let at = ne_of_out a t (y ∷ post) (out_right a (x ∷ pre) (t ∷ y ∷ post) o) in
                  write_other s1.memory t.address none a at ∙ done.same a (out_past_both a o);
            }))))
    where
      out_past_both :
          (a : ℕ)
          → has a ((x ∷ pre) ++ t ∷ y ∷ post) ≡ false
          → has a ((x ∷ pre) ++ y ∷ post) ≡ false
      out_past_both a o =
          has-append a (x ∷ pre) (y ∷ post)
          ∙ ground
              (arith, out_left a (x ∷ pre) (t ∷ y ∷ post) o, out_right a (x ∷ pre) (t ∷ y ∷ post) o)

  -- del_timer on a timer of the list, wherever it stands: the other timers stay linked in their
  -- order, the timer's memory is freed, and no other memory is written to.
  pub del_timer-Deleted :
      (pre post : List Entry)
      → IsList s (pre ++ t ∷ post)
      → Gives (Deleted s t pre post) (del_timer (some t.address) s)
  del_timer-Deleted [] [] is = delete_only is
  del_timer-Deleted [] (y ∷ post) is = delete_first y post is
  del_timer-Deleted (x ∷ pre) [] is = delete_last x pre is
  del_timer-Deleted (x ∷ pre) (y ∷ post) is = delete_middle x y pre post is
