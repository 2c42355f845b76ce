-- ===== src/SharedChat/Reap.antt =====
-- How the main process of socket/ipc/shm.c takes connections out of its table.
use unix_programming.Base.{
  ℕ, zero, suc, ◌+◌, ◌<◌, ◌≡◌, ◌≢◌, refl, ap, sym, ◌∙◌, inl, inr, Bool-cases, true, false, none,
  some, List, [], ◌∷◌, arith, ltb, ◌==◌, get_elem?, set, length, get_elem?-set_same,
  get_elem?-set_other, length-set, ◌>>=◌, Gives, gives, Gives-inv, OnSome, OnSome-at, subst,
}
use unix_programming.SharedChat.{
  Client, Chat, Action, unwatch, close_fd, point, user_limit, process_limit, remove_user, reap_one,
  reap,
}
use unix_programming.SharedChat.Table.{Stands, IsTable, point_same, point_other}

-- the table without the client at `d`, where the last one, at `n`, is moved
abbrev removed : (s : Chat) (pid d n : ℕ) (l : Client) → Chat
removed s pid d n l = record s {
  users = set s.users d l;
  user_count = n;
  sub_process = point (point s.sub_process pid none) l.pid (some d);
}

removed-IsTable :
    (s : Chat) (c l : Client) (d n : ℕ)
    → IsTable s
    → s.user_count ≡ suc n
    → d < suc n
    → Stands s d c
    → Stands s n l
    → IsTable (removed s c.pid d n l)
removed-IsTable s c l d n h count less gone last = record {
  size = length-set s.users d l ∙ h.size;
  limit = (let z = h.limit in omega arith);
  entries = λ i below. elim (Bool-cases (i == d)) [
    | inl same ↦
        let e : i ≡ d = ground arith in
        let inside : d < length s.users = (let z = h.size in let y = h.limit in omega arith) in
        (
          l,
          record {
            at = ap (λ k. get_elem? (set s.users d l) k) e ∙ get_elem?-set_same s.users d l inside;
            small = last.small;
            back = point_same (point s.sub_process c.pid none) l.pid (some d) ∙ ap some (sym e);
          },
        )
    | inr other ↦
        let (u, own) = h.entries i (omega arith) in
        let ne : i ≢ d = ground arith in
        let away : i ≢ n = omega arith in
        let not_last : u.pid ≢ l.pid =
          λ e. away (index (sym own.back ∙ ap s.sub_process e ∙ last.back)) in
        let not_gone : u.pid ≢ c.pid =
          λ e. ne (index (sym own.back ∙ ap s.sub_process e ∙ gone.back)) in
        (
          u,
          record {
            at = get_elem?-set_other s.users i d l ne ∙ own.at;
            small = own.small;
            back =
                point_other (point s.sub_process c.pid none) l.pid u.pid (some d) not_last
                ∙ point_other s.sub_process c.pid u.pid none not_gone
                ∙ own.back;
          },
        )
  ];
}
  where
    index : {i j : ℕ} → some i ≡ some j → i ≡ j
    index e = cc

-- What a child's end leaves: the table is kept, with one connection less. The child's pipe is
-- closed, its place is the last connection's, and the connections before the last one that are not
-- the child's keep their places.
pub record Reaped (s : Chat) (d : ℕ) (c : Client) (r : Chat × List Action) : Type 0 where
  pub table : IsTable r.0
  pub count : s.user_count ≡ suc r.0.user_count
  pub acts : r.1 ≡ unwatch c.pipefd ∷ close_fd c.pipefd ∷ []
  pub moved : get_elem? r.0.users d ≡ get_elem? s.users r.0.user_count
  pub others : (i : ℕ) → i ≢ d → get_elem? r.0.users i ≡ get_elem? s.users i
  pub same_stop : (r.0.stop ≡ s.stop) × (r.0.terminate ≡ s.terminate)

-- A child of the table that has ended is taken out of it.
pub reap_one-Reaped :
    (s : Chat) (d : ℕ) (c : Client)
    → IsTable s
    → d < s.user_count
    → Stands s d c
    → Gives (Reaped s d c) (reap_one c.pid s)
unfolding reap_one remove_user
reap_one-Reaped s d c h less at =
    let (n, count) = pred s.user_count less in
    let (l, last) = h.entries n (omega arith) in
    let inside : d < length s.users = (let z = h.size in let y = h.limit in omega arith) in
    let small : ltb c.pid process_limit ≡ true = (let z = at.small in ground arith) in
    let small_last : ltb l.pid process_limit ≡ true = (let z = last.small in ground arith) in
    let low : ltb user_limit d ≡ false = (let y = h.limit in ground arith) in
    simp (small, at.back, low, at.at, count, last.at, small_last)
      (gives (record {
        table = removed-IsTable s c l d n h count (omega arith) at last;
        count = count;
        acts = refl;
        moved = get_elem?-set_same s.users d l inside ∙ sym last.at;
        others = λ i ne. get_elem?-set_other s.users i d l ne;
        same_stop = (refl, refl);
      }))
  where
    pred : (k : ℕ) → d < k → (n : ℕ) × (k ≡ suc n)
    pred zero p = absurd (omega arith)
    pred (suc n) p = (n, refl)

-- waitpid gives pids of children in the table, one after the other
abbrev pub Waited : List ℕ → Chat → Type 0
Waited [] s = Unit
Waited (pid ∷ pids) s =
    ((d : ℕ) × (c : Client) × (d < s.user_count) × Stands s d c × (c.pid ≡ pid))
    × OnSome (λ r. Waited pids r.0) (reap_one pid s)

-- The loop over waitpid takes each child that has ended out of the table, and no other.
pub reap-IsTable :
    (pids : List ℕ) (s : Chat)
    → IsTable s
    → Waited pids s
    → Gives (λ r. IsTable r.0 × (s.user_count ≡ length pids + r.0.user_count)) (reap pids s)
unfolding reap
reap-IsTable [] s h w = gives (h, omega arith)
reap-IsTable (pid ∷ pids) s h ((d, c, less, at, same), w) =
    let one : Gives (Reaped s d c) (reap_one pid s) =
      subst (λ p. Gives (Reaped s d c) (reap_one p s)) same (reap_one-Reaped s d c h less at) in
    let ((s1, acts), run1, out) = Gives-inv one in
    let w1 = OnSome-at (λ (r : Chat × List Action). Waited pids r.0) (reap_one pid s) w run1 in
    let ((s2, more), run2, (kept, left)) = Gives-inv (reap-IsTable pids s1 out.table w1) in
    let n1 = out.count in rw (run1, ◌>>=◌) (rw (run2, ◌>>=◌) (gives (kept, omega arith)))
