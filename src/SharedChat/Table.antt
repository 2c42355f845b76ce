-- ===== src/SharedChat/Table.antt =====
-- The table of connections of socket/ipc/shm.c and its index by process.
use unix_programming.Base.{
  ℕ, ◌+◌, ◌≤◌, ◌<◌, ◌≡◌, ◌≢◌, ap, sym, ◌∙◌, inl, inr, Bool-cases, true, Option, some, arith, ltb,
  ◌==◌, get_elem?, set, length, get_elem?-set_same, get_elem?-set_other, length-set, get_elem?-some,
  Gives, gives,
}
use unix_programming.SharedChat.{
  Client, Chat, point, user_limit, process_limit, Fork, no_child, child, on_accept,
}

-- the client at an index, which the index by process leads back to
pub record Stands (s : Chat) (i : ℕ) (c : Client) : Type 0 where
  pub at : get_elem? s.users i ≡ some c
  pub small : c.pid < process_limit
  pub back : s.sub_process c.pid ≡ some i

-- every connection of the table stands, there are at most user_limit of them, and the array has
-- room for one more
pub record IsTable (s : Chat) : Type 0 where
  pub size : length s.users ≡ user_limit + 1
  pub limit : s.user_count ≤ user_limit
  pub entries : (i : ℕ) → i < s.user_count → (c : Client) × Stands s i c

pub point_same : (f : ℕ → Option ℕ) (p : ℕ) (v : Option ℕ) → point f p v p ≡ v
point_same f p v = ground arith

pub point_other : (f : ℕ → Option ℕ) (p q : ℕ) (v : Option ℕ) → q ≢ p → point f p v q ≡ f q
point_other f p q v h = ground arith

-- no connection of the table has this pid
abbrev pub Fresh : Chat → ℕ → Type 0
Fresh s pid = (i : ℕ) (c : Client) → i < s.user_count → Stands s i c → c.pid ≢ pid

-- what fork may give: a pid that no connection has, below the size of sub_process
abbrev pub Forked : Chat → Fork → Type 0
Forked s no_child = Unit
Forked s (child pid) = (pid < process_limit) × Fresh s pid

-- the table with one more client
abbrev pub joined : (s : Chat) (c : Client) → Chat
joined s c = record s {
  users = set s.users s.user_count c;
  sub_process = point s.sub_process c.pid (some s.user_count);
  user_count = s.user_count + 1;
}

pub Stands-joined :
    (s : Chat) (c d : Client) (i : ℕ)
    → i ≢ s.user_count
    → d.pid ≢ c.pid
    → Stands s i d
    → Stands (joined s c) i d
Stands-joined s c d i ne np h = record {
  at = get_elem?-set_other s.users i s.user_count c ne ∙ h.at;
  small = h.small;
  back = point_other s.sub_process c.pid d.pid (some s.user_count) np ∙ h.back;
}

pub joined-IsTable :
    (s : Chat) (c : Client)
    → IsTable s
    → s.user_count < user_limit
    → c.pid < process_limit
    → Fresh s c.pid
    → IsTable (joined s c)
joined-IsTable s c h room small fresh = record {
  size = length-set s.users s.user_count c ∙ h.size;
  limit = omega arith;
  entries = λ i less. elim (Bool-cases (i == s.user_count)) [
    | inl new ↦
        let e : i ≡ s.user_count = ground arith in
        let inside : i < length s.users = (let z = h.size in omega arith) in
        (
          c,
          record {
            at =
                ap (λ k. get_elem? (set s.users k c) i) (sym e)
                ∙ get_elem?-set_same s.users i c inside;
            small = small;
            back = point_same s.sub_process c.pid (some s.user_count) ∙ ap some (sym e);
          },
        )
    | inr old ↦
        let below : i < s.user_count = ground arith in
        let (d, own) = h.entries i below in
        (d, Stands-joined s c d i (ground arith) (fresh i d below own) own)
  ];
}

-- writing behind the last connection of the table
behind-IsTable :
    (s : Chat) (c : Client) → IsTable s → IsTable (record s { users = set s.users s.user_count c })
behind-IsTable s c h = record {
  size = length-set s.users s.user_count c ∙ h.size;
  limit = h.limit;
  entries = λ i less.
      let (d, own) = h.entries i less in
      (
        d,
        record {
          at = get_elem?-set_other s.users i s.user_count c (omega arith) ∙ own.at;
          small = own.small;
          back = own.back;
        },
      );
}

-- A connection keeps the table. Below the limit the new client is entered behind the others, with
-- the index that its child is told; if there is no child, or no room, the table keeps its clients.
pub on_accept-IsTable :
    (connfd pipefd child_end : ℕ) (fork : Fork) (s : Chat)
    → IsTable s
    → Forked s fork
    → Gives (λ r. IsTable r.0) (on_accept connfd pipefd child_end fork s)
unfolding on_accept
on_accept-IsTable connfd pipefd child_end no_child s h k =
    elim (Bool-cases (ltb s.user_count user_limit)) [
      | inl room ↦
          let below : s.user_count < length s.users = (let z = h.size in ground arith) in
          let (old, at) = get_elem?-some s.users s.user_count below in
          let c : Client = record old { connfd = connfd; pipefd = pipefd; child_end = child_end } in
          rw (room, at) (gives (behind-IsTable s c h))
      | inr full ↦ rw full (gives h)
    ]
on_accept-IsTable connfd pipefd child_end (child pid) s h k =
    elim (Bool-cases (ltb s.user_count user_limit)) [
      | inl room ↦
          let c : Client = record {
            connfd = connfd;
            pid = pid;
            pipefd = pipefd;
            child_end = child_end;
            slot = s.user_count;
          } in
          let small : ltb pid process_limit ≡ true = (let z = k.0 in ground arith) in
          rw (room, small) (gives (joined-IsTable s c h (ground arith) k.0 k.1))
      | inr full ↦ rw full (gives h)
    ]
