-- ===== src/TimerList/Tick.antt =====
-- tick of socket/timer/sigalrm_list_timer.h over the list.
use unix_programming.Base.{
  ℕ, zero, suc, ◌<◌, ◌≡◌, refl, ap, sym, ◌∙◌, inl, inr, Bool-cases, true, false, none, some, List,
  [], ◌∷◌, map, arith, ◌==◌, ltb, if◌then◌else◌, Gives, gives, Gives-inv, ◌>>=◌, length,
}
use unix_programming.TimerList.{write, Timers, store, drop_head, tick}
use unix_programming.TimerList.Chain.{
  Entry, node, first, has, Distinct, Chain-frame, set_prev-store, write_same, write_other,
  ne_of_out, out_of_rest, ne_of_member, IsList,
}
use unix_programming.TimerList.Bypass.{release-write}

-- the head is out of the list and freed
record Dropped (s : Timers) (x : Entry) (xs : List Entry) (s' : Timers) : Type 0 where
  list : IsList s' xs
  freed : s'.memory x.address ≡ none
  same : (a : ℕ) → has a (x ∷ xs) ≡ false → s'.memory a ≡ s.memory a

drop_head-Dropped :
    (s : Timers) (x : Entry) (xs : List Entry)
    → IsList s (x ∷ xs)
    → Gives (Dropped s x xs) (drop_head x.address (node x none (first xs none)) s)
unfolding drop_head store
drop_head-Dropped s x [] is =
    let s1 = record s { head = none } in
    rw (release-write s1 x.address (node x none none) is.chain.0) (
      gives (record {
        list = record { chain = tt; distinct = tt; head = refl; tail = tt };
        freed = write_same s.memory x.address none;
        same = λ a o. write_other s.memory x.address none a (ne_of_out a x [] o);
      }))
drop_head-Dropped s x (y ∷ ys) is =
    let xy = ne_of_out x.address y ys is.distinct.0 in
    let out = out_of_rest x.address y ys is.distinct.0 in
    let ny = node y none (first ys none) in
    let s2 = store (record s { head = some y.address }) y.address ny in
    let e1 =
      set_prev-store y.address none (record s { head = some y.address })
        (node y (some x.address) (first ys none)) is.chain.1.0 in
    let own = write_other s.memory y.address (some ny) x.address xy ∙ is.chain.0 in
    let rest =
      Chain-frame s.memory (write s2.memory x.address none) (some y.address) ys none
        (λ a m.
          write_other s2.memory x.address none a (ne_of_member a x.address ys m out)
          ∙ write_other s.memory y.address (some ny) a
              (ne_of_member a y.address ys m is.distinct.1.0))
        is.chain.1.1 in
    let own_y =
      write_other s2.memory x.address none y.address (λ e. xy (sym e))
      ∙ write_same s.memory y.address (some ny) in
    rw (e1, ◌>>=◌)
      (rw (release-write s2 x.address (node x none (some y.address)) own) (
        gives (record {
          list = record {
            chain = (own_y, rest);
            distinct = is.distinct.1;
            head = refl;
            tail = is.tail;
          };
          freed = write_same s2.memory x.address none;
          same = λ a o.
              write_other s2.memory x.address none a (ne_of_out a x (y ∷ ys) o)
              ∙ write_other s.memory y.address (some ny) a
                  (ne_of_out a y ys (out_of_rest a x (y ∷ ys) o));
        })))

-- the timers up to the first that has not expired, and the others
unfoldable pub expired : ℕ → List Entry → List Entry
expired cur [] = []
expired cur (x ∷ xs) = if ltb cur x.expire then [] else x ∷ expired cur xs

unfoldable pub remaining : ℕ → List Entry → List Entry
remaining cur [] = []
remaining cur (x ∷ xs) = if ltb cur x.expire then x ∷ xs else remaining cur xs

-- what tick leaves and returns
pub record Ticked (s : Timers) (cur : ℕ) (xs : List Entry) (r : Timers × List ℕ) : Type 0 where
  pub list : IsList r.0 (remaining cur xs)
  pub called : r.1 ≡ map (λ x. x.user_data) (expired cur xs)
  pub freed : (a : ℕ) → has a (expired cur xs) ≡ true → r.0.memory a ≡ none
  pub same : (a : ℕ) → has a xs ≡ false → r.0.memory a ≡ s.memory a

member_of_rest :
    (a : ℕ) (x : Entry) (xs : List Entry)
    → has a (x ∷ xs) ≡ true
    → (a == x.address) ≡ false
    → has a xs ≡ true
member_of_rest a x xs m other = ground arith

Ticked-nil : (s : Timers) (cur : ℕ) → IsList s [] → Ticked s cur [] (s, [])
unfolding expired remaining
Ticked-nil s cur is = record {
  list = is;
  called = refl;
  freed = λ a m. absurd (ground arith);
  same = λ a o. refl;
}

Ticked-stop :
    (s : Timers) (cur : ℕ) (x : Entry) (xs : List Entry)
    → ltb cur x.expire ≡ true
    → IsList s (x ∷ xs)
    → Ticked s cur (x ∷ xs) (s, [])
unfolding expired remaining
Ticked-stop s cur x xs e is = record {
  list = rw e is;
  called = rw e;
  freed = rw e (λ a m. cc);
  same = λ a o. refl;
}

expired-member : (cur a : ℕ) (xs : List Entry) → has a (expired cur xs) ≡ true → has a xs ≡ true
unfolding expired
expired-member cur a [] m = m
expired-member cur a (x ∷ xs) m = ground (arith, expired-member cur a xs)

Ticked-cons :
    (s s1 : Timers) (cur : ℕ) (x : Entry) (xs : List Entry)
    → ltb cur x.expire ≡ false
    → Distinct (x ∷ xs)
    → Dropped s x xs s1
    → (r : Timers × List ℕ) → Ticked s1 cur xs r
    → Ticked s cur (x ∷ xs) (r.0, x.user_data ∷ r.1)
unfolding expired remaining
Ticked-cons s s1 cur x xs e d gone r t = record {
  list = rw e t.list;
  called = rw e (ap (◌∷◌ x.user_data) t.called);
  freed = rw e (λ a m. elim (Bool-cases (a == x.address)) [
    | inl here ↦ let at : a ≡ x.address = ground arith in rw at (t.same x.address d.0 ∙ gone.freed)
    | inr later ↦ t.freed a (member_of_rest a x (expired cur xs) m later)
  ]);
  same = λ a o. t.same a (out_of_rest a x xs o) ∙ gone.same a o;
}

module _ (cur : ℕ) where
  pub tick_loop :
      (f : ℕ) (s : Timers) (xs : List Entry)
      → IsList s xs
      → length xs < f
      → Gives (Ticked s cur xs) (tick f cur (first xs none) s)
  unfolding tick
  tick_loop zero s xs is h = absurd (omega arith)
  tick_loop (suc f) s [] is h = gives (Ticked-nil s cur is)
  tick_loop (suc f) s (x ∷ xs) is h =
      rw (is.chain.0, ◌>>=◌)
        (elim (Bool-cases (ltb cur x.expire)) [
          | inl later ↦ rw later (gives (Ticked-stop s cur x xs later is))
          | inr due ↦
              let (s1, run, gone) = Gives-inv (drop_head-Dropped s x xs is) in
              let (r, run_rest, rest) = Gives-inv (tick_loop f s1 xs gone.list (omega arith)) in
              let next = gone.list.head in
              rw due (
                rw (run, ◌>>=◌)
                  (rw (next) (
                    rw (run_rest, ◌>>=◌)
                      (gives (Ticked-cons s s1 cur x xs due is.distinct gone r rest)))))
        ])
