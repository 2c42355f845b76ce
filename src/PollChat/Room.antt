-- ===== src/PollChat/Room.antt =====
-- The table of users of socket/io_multiplexing/io_chatroom_server.c, and what the handlers of an
-- entry do to it.
use unix_programming.Base.{
  ℕ, suc, ◌+◌, ◌-◌, ◌≤◌, ◌<◌, ◌≡◌, ◌≢◌, ap, sym, ◌∙◌, true, false, Option, none, some, List, ◌++◌,
  arith, ltb, ◌==◌, if◌then◌else◌, length, get_or, set, replicate, get_or-set, Bool-cases, inl, inr,
  subst,
}
use unix_programming.Base.Text.{until_nul}
use unix_programming.Base.Text.Laws.{before_nul, until_nul-before_nul}
use unix_programming.PollChat.{
  user_limit, buffer_size, fd_limit, PollFd, User, Chat, Step, quiet, put_user, filled,
}

abbrev pub nobody : PollFd
nobody = record {
  fd = none;
  events = record { pollin = false; pollout = false; others = false };
  revents = quiet;
}

abbrev pub entry : List PollFd → ℕ → PollFd
entry fds i = get_or fds i nobody

-- a client's descriptor
pub record IsUser (listenfd : ℕ) (x : Option ℕ) : Type 0 where
  pub fd : ℕ
  pub at : x ≡ some fd
  pub small : fd < fd_limit
  pub client : fd ≢ listenfd

-- a buffer that holds a C string
pub record IsText (buf : List ℕ) : Type 0 where
  pub text : List ℕ
  pub ends : until_nul buf ≡ some text

-- Entry 0 is the listening socket and the next user_counter entries are clients, all different;
-- there are at most USER_LIMIT of them; and each buffer holds a C string.
pub record IsRoom (listenfd : ℕ) (s : Chat) : Type 0 where
  pub size : length s.fds ≡ user_limit + 1
  pub limit : s.user_counter ≤ user_limit
  pub listens : (entry s.fds 0).fd ≡ some listenfd
  pub entries : (i : ℕ) → 0 < i → i ≤ s.user_counter → IsUser listenfd (entry s.fds i).fd
  pub apart :
      (i j : ℕ)
      → 0 < i
      → i ≤ s.user_counter
      → 0 < j
      → j ≤ s.user_counter
      → (entry s.fds i).fd ≡ (entry s.fds j).fd
      → i ≡ j
  pub texts : (x : ℕ) → IsText (s.users x).buf

-- What a turn at entry i leaves: the table, and one entry less to look at.
pub record Turned (listenfd i : ℕ) (s : Chat) (r : Step) : Type 0 where
  pub room : IsRoom listenfd r.chat
  pub less : r.chat.user_counter + i + 1 ≡ s.user_counter + r.next
  pub onward : 0 < r.next

abbrev pub set_user : (ℕ → User) → ℕ → User → ℕ → User
set_user users fd u x = if x == fd then u else users x

pub put_user-some :
    (users : ℕ → User) (fd : ℕ) (u : User)
    → fd < fd_limit
    → put_user users fd u ≡ some (λ x. if x == fd then u else users x)
unfolding put_user
put_user-some users fd u h = let e : ltb fd fd_limit ≡ true = ground arith in rw e

pub set_user-texts :
    (users : ℕ → User) (fd : ℕ) (u : User)
    → ((x : ℕ) → IsText (users x).buf)
    → IsText u.buf
    → (x : ℕ) → IsText (set_user users fd u x).buf
set_user-texts users fd u h t x = elim (Bool-cases (x == fd)) [
  | inl e ↦ rw e t
  | inr e ↦ rw e (h x)
]

-- the same descriptors, and buffers that hold C strings
pub same-IsRoom :
    (listenfd : ℕ) (s : Chat) (fds : List PollFd) (users : ℕ → User)
    → IsRoom listenfd s
    → length fds ≡ length s.fds
    → ((i : ℕ) → (entry fds i).fd ≡ (entry s.fds i).fd)
    → ((x : ℕ) → IsText (users x).buf)
    → IsRoom listenfd (record s { fds = fds; users = users })
same-IsRoom listenfd s fds users h len same texts = record {
  size = len ∙ h.size;
  limit = h.limit;
  listens = same 0 ∙ h.listens;
  entries = λ i p q. subst (IsUser listenfd) (sym (same i)) (h.entries i p q);
  apart = λ i j p q r t e. h.apart i j p q r t (sym (same i) ∙ e ∙ same j);
  texts = texts;
}

-- a write to an entry that keeps its descriptor
pub set-same :
    (fds : List PollFd) (i j : ℕ) (e : PollFd)
    → i < length fds
    → e.fd ≡ (entry fds i).fd
    → (entry (set fds i e) j).fd ≡ (entry fds j).fd
set-same fds i j e h same = ap (λ (x : PollFd). x.fd) (get_or-set fds i j e nobody h) ∙ pick
  where
    pick : (if i == j then e else entry fds j).fd ≡ (entry fds j).fd
    pick = elim (Bool-cases (i == j)) [
      | inl here ↦ let z : i ≡ j = ground arith in rw here (same ∙ ap (λ k. (entry fds k).fd) z)
      | inr other ↦ rw other
    ]

pub filled-IsText : (bs : List ℕ) → length bs < buffer_size → IsText (filled bs)
unfolding filled
filled-IsText bs h =
    let m = buffer_size - length bs - 1 in
    let e : buffer_size - length bs ≡ suc m = omega arith in
    record {
      text = before_nul bs;
      ends = ap (λ n. until_nul (bs ++ replicate n 0)) e ∙ until_nul-before_nul bs (replicate m 0);
    }
