-- ===== src/InactiveLinks/Serves.antt =====
-- The connections of socket/timer/handling_inactive_link.cpp and their timers.
use unix_programming.Base.{
  ℕ, ◌+◌, ◌<◌, ◌≤◌, ◌≡◌, refl, ap, subst, ◌∙◌, true, false, none, some, List, [], ◌∷◌, ◌++◌, map,
  arith, ◌==◌, ltb, Gives, gives, Gives-inv, ◌>>=◌, length, All,
}
use unix_programming.TimerList.{store}
use unix_programming.TimerList.Chain.{Entry, node, has, write_same, IsList}
use unix_programming.TimerList.Loop.{insert}
use unix_programming.TimerList.Insert.{add_timer-insert}
use unix_programming.TimerList.Order.{IsSorted, insert-IsSorted, tick-Fired}
use unix_programming.InactiveLinks.{User, Server, update, on_accept, timer_handler}
use unix_programming.InactiveLinks.Entries.{
  All-insert, All-left, All-right, All-map, has_user, IsList-store,
}

-- a timer is the one that its connection has
abbrev pub Known : (ℕ → User) → Entry → Type 0
Known users x =
    ((users x.user_data).timer ≡ some x.address) × ((users x.user_data).sockfd ≡ x.user_data)

-- At the time `now`, the timers are `xs`: a sorted list, none later than 3 * TIMESLOT from now, each
-- known to its connection.
pub record Serves (now : ℕ) (s : Server) (xs : List Entry) : Type 0 where
  pub list : IsList s.timers xs
  pub sorted : IsSorted xs
  pub within : All (λ x. x.expire ≤ now + 15) xs
  pub known : All (Known s.users) xs

-- the users of the others, when one is set
Known-elsewhere :
    (users : ℕ → User) (fd : ℕ) (u : User) (xs : List Entry)
    → has_user fd xs ≡ false
    → All (Known users) xs
    → All (Known (update users fd u)) xs
Known-elsewhere users fd u [] out h = tt
Known-elsewhere users fd u (x ∷ xs) out h =
    let other : (x.user_data == fd) ≡ false = ground arith in
    (rw other h.0, Known-elsewhere users fd u xs (ground arith) h.1)

-- An accepted connection that has no timer yet gets one, which expires 3 * TIMESLOT after `now`; the
-- others keep theirs.
pub on_accept-Serves :
    (f fd fresh old now : ℕ) (s : Server) (xs : List Entry)
    → Serves old s xs
    → old ≤ now
    → fd < 65535
    → has_user fd xs ≡ false
    → has fresh xs ≡ false
    → length xs < f
    → let t : Entry = record { address = fresh; expire = now + 15; user_data = fd } in
      Gives (λ s'. Serves now s' (insert t xs)) (on_accept f fd fresh now s)
unfolding on_accept store
on_accept-Serves f fd fresh old now s xs h later room new out fuel =
    let t : Entry = record { address = fresh; expire = now + 15; user_data = fd } in
    let start = store s.timers fresh (node t none none) in
    let small : ltb fd 65535 ≡ true = ground arith in
    let (timers, run, both) = Gives-inv (
      add_timer-insert f start t xs (IsList-store s.timers fresh (node t none none) xs out h.list)
        (write_same s.timers.memory fresh (some (node t none none))) out fuel) in
    let own : (fd == fd) ≡ true = ground arith in
    rw small (
      rw (run, ◌>>=◌)
        (gives (record {
          list = both.0;
          sorted = insert-IsSorted t xs h.sorted;
          within =
              All-insert (λ x. x.expire ≤ now + 15) t xs (omega arith)
                (All-map (λ x. x.expire ≤ old + 15) (λ x. x.expire ≤ now + 15) (λ x e. omega arith)
                  xs h.within);
          known =
              All-insert (Known (update s.users fd (record { sockfd = fd; timer = some fresh }))) t
                xs (rw own (refl, refl)) (Known-elsewhere s.users fd _ xs new h.known);
        })))

-- timer_handler, with enough fuel, closes exactly the connections whose timers have expired, in the
-- order of expiry; the others stay.
pub timer_handler-Fired :
    (f old now : ℕ) (s : Server) (xs : List Entry)
    → Serves old s xs
    → old ≤ now
    → length xs < f
    → Gives
        (λ s'.
          (ds : List Entry) × (rs : List Entry) × (xs ≡ ds ++ rs)
          × All (λ x. x.expire ≤ now) ds
          × All (λ x. now < x.expire) rs
          × (s'.closed ≡ s.closed ++ map (λ x. x.user_data) ds)
          × Serves now s' rs)
        (timer_handler f now s)
unfolding timer_handler
timer_handler-Fired f old now s xs h later fuel =
    let (r, run, (ds, rs, fired)) = Gives-inv (tick-Fired now f s.timers xs h.list h.sorted fuel) in
    let known : All (Known s.users) (ds ++ rs) = subst (All (Known s.users)) fired.whole h.known in
    let within : All (λ x. x.expire ≤ old + 15) (ds ++ rs) =
      subst (All (λ x. x.expire ≤ old + 15)) fired.whole h.within in
    rw (run, ◌>>=◌)
      (gives (
        ds,
        rs,
        fired.whole,
        fired.due,
        fired.later,
        ap (λ ns. s.closed ++ map (λ i. (s.users i).sockfd) ns) fired.called
            ∙ ap (◌++◌ s.closed) (closed_fds ds (All-left (Known s.users) ds rs known)),
        record {
          list = fired.list;
          sorted = fired.sorted;
          within =
              All-map (λ x. x.expire ≤ old + 15) (λ x. x.expire ≤ now + 15) (λ x e. omega arith) rs
                (All-right (λ x. x.expire ≤ old + 15) ds rs within);
          known = All-right (Known s.users) ds rs known;
        },
      ))
  where
    closed_fds :
        (ds : List Entry)
        → All (Known s.users) ds
        → map (λ i. (s.users i).sockfd) (map (λ x. x.user_data) ds) ≡ map (λ x. x.user_data) ds
    closed_fds [] k = refl
    closed_fds (x ∷ ds) k = rw (k.0.1, closed_fds ds k.1) refl
