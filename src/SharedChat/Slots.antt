-- ===== src/SharedChat/Slots.antt =====
-- Which buffers of the shared memory the children of socket/ipc/shm.c read into.
use unix_programming.Base.{
  ℕ, suc, ◌<◌, ◌≡◌, ◌≢◌, inl, inr, Bool-cases, ap, sym, subst, ◌∙◌, true, some, List, arith, ltb,
  ◌==◌, get_elem?, length, get_elem?-set_same, ◌>>=◌, Gives, gives, Gives-inv,
}
use unix_programming.SharedChat.{
  Client, Chat, Action, user_limit, process_limit, child, on_accept, reap_one,
}
use unix_programming.SharedChat.Table.{
  Stands, IsTable, Fresh, joined, joined-IsTable, Stands-joined,
}
use unix_programming.SharedChat.Reap.{Reaped, reap_one-Reaped}

-- two connections of the table whose children read into the same buffer
pub record Shared (s : Chat) : Type 0 where
  pub one : ℕ
  pub other : ℕ
  pub first : Client
  pub second : Client
  pub apart : one ≢ other
  pub one_stands : Stands s one first
  pub other_stands : Stands s other second
  pub same_slot : first.slot ≡ second.slot

-- a connection as it comes in
abbrev pub arrival : (connfd pipefd child_end pid : ℕ) → Chat → Client
arrival connfd pipefd child_end pid s = record {
  connfd = connfd;
  pid = pid;
  pipefd = pipefd;
  child_end = child_end;
  slot = s.user_count;
}

inner : {a b : Client} → some a ≡ some b → a ≡ b
inner e = cc

accept-Shared :
    (connfd pipefd child_end pid : ℕ) (s : Chat) (d : ℕ) (l : Client)
    → IsTable s
    → s.user_count < user_limit
    → pid < process_limit
    → Fresh s pid
    → d < s.user_count
    → Stands s d l
    → l.slot ≡ s.user_count
    → Gives (λ r. IsTable r.0 × Shared r.0) (on_accept connfd pipefd child_end (child pid) s)
unfolding on_accept
accept-Shared connfd pipefd child_end pid s d l h room small fresh less at slot =
    let c = arrival connfd pipefd child_end pid s in
    let free : ltb s.user_count user_limit ≡ true = ground arith in
    let fits : ltb pid process_limit ≡ true = ground arith in
    let after = joined-IsTable s c h room small fresh in
    let (e, own) = after.entries s.user_count (omega arith) in
    let inside : s.user_count < length s.users = (let z = h.size in omega arith) in
    let same : e ≡ c = inner (sym own.at ∙ get_elem?-set_same s.users s.user_count c inside) in
    simp (free, fits)
      (gives (
        after,
        record {
          one = d;
          other = s.user_count;
          first = l;
          second = c;
          apart = omega arith;
          one_stands = Stands-joined s c l d (omega arith) (fresh d l less at) at;
          other_stands = subst (Stands (joined s c) s.user_count) same own;
          same_slot = slot;
        },
      ))

Reaped-Fresh :
    (s t : Chat) (acts : List Action) (d n : ℕ) (c l : Client) (pid : ℕ)
    → IsTable s
    → s.user_count ≡ suc n
    → d < n
    → Stands s n l
    → Reaped s d c (t, acts)
    → get_elem? s.users t.user_count ≡ some l
    → Fresh s pid
    → Fresh t pid
Reaped-Fresh s t acts d n c l pid h count less last out place fresh i a below stands e =
    let counts = out.count in
    elim (Bool-cases (i == d)) [
      | inl same ↦
          let here : i ≡ d = ground arith in
          let moved : l ≡ a =
            inner (sym place ∙ sym out.moved ∙ ap (get_elem? t.users) (sym here) ∙ stands.at) in
          fresh n l (omega arith) last (ap (λ (x : Client). x.pid) moved ∙ e)
      | inr other ↦
          let (u, own) = h.entries i (omega arith) in
          let ne : i ≢ d = ground arith in
          let kept : u ≡ a = inner (sym own.at ∙ sym (out.others i ne) ∙ stands.at) in
          fresh i u (omega arith) own (ap (λ (x : Client). x.pid) kept ∙ e)
    ]

-- Where every child reads into the buffer of its place in the table, a child that is not the last
-- ends, and then a connection comes in: the new child and the one that was moved to the free place
-- read into the same buffer, and both are in the table.
pub reap-Shared :
    (s : Chat) (d n : ℕ) (c l : Client) (connfd pipefd child_end pid : ℕ)
    → IsTable s
    → s.user_count ≡ suc n
    → d < n
    → Stands s d c
    → Stands s n l
    → l.slot ≡ n
    → pid < process_limit
    → Fresh s pid
    → Gives
        (λ r. IsTable r.0 × Shared r.0)
        (do (t, acts) ← reap_one c.pid s; on_accept connfd pipefd child_end (child pid) t)
reap-Shared s d n c l connfd pipefd child_end pid h count less gone last slot small fresh =
    let ((t, acts), run, out) = Gives-inv (reap_one-Reaped s d c h (omega arith) gone) in
    let left : t.user_count ≡ n = (let z = out.count in omega arith) in
    let (u, own) = out.table.entries d (omega arith) in
    let place : get_elem? s.users t.user_count ≡ some l = ap (get_elem? s.users) left ∙ last.at in
    let same : u ≡ l = inner (sym own.at ∙ out.moved ∙ place) in
    let at : Stands t d l = subst (Stands t d) same own in
    rw (run, ◌>>=◌)
      (accept-Shared connfd pipefd child_end pid t d l out.table (let z = h.limit in omega arith)
        small (Reaped-Fresh s t acts d n c l pid h count less last out place fresh) (omega arith) at
        (slot ∙ sym left))
