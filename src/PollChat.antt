-- ===== src/PollChat.antt =====
-- The chat server over poll, socket/io_multiplexing/io_chatroom_server.c. What poll, accept and recv
-- give is an argument; what the server does to sockets is a list of actions. none as a result is
-- an access outside of an array.
pub mod Room
pub mod Turns
pub mod Told
pub mod Visit
pub mod Arrival
pub mod Round
mod Tests
use unix_programming.Base.{
  ℕ, zero, suc, ◌+◌, ◌-◌, Bool, true, false, Option, none, some, List, [], ◌∷◌, ◌++◌, ◌&&◌, ltb,
  ◌==◌, if◌then◌else◌, length, get_elem?, set, take, replicate, ◌>>=◌,
}
use unix_programming.Base.Text.{until_nul}

abbrev pub user_limit : ℕ
user_limit = 5

abbrev pub buffer_size : ℕ
buffer_size = 64

abbrev pub fd_limit : ℕ
fd_limit = 65535

-- the bits of `events`: POLLIN, POLLOUT, and POLLRDHUP with POLLERR, which are set together
pub record Watch : Type 0 where
  pub pollin : Bool
  pub pollout : Bool
  pub others : Bool

-- the bits of `revents` that are looked at: POLLIN, POLLERR, POLLRDHUP, POLLOUT
pub record Ready : Type 0 where
  pub readable : Bool
  pub error : Bool
  pub hung_up : Bool
  pub writable : Bool

-- struct pollfd; fd is none for -1
pub record PollFd : Type 0 where
  pub fd : Option ℕ
  pub events : Watch
  pub revents : Ready

-- client_data: buf, and write_buf, which points to the buf of the user with a descriptor
pub record User : Type 0 where
  pub write_buf : Option ℕ
  pub buf : List ℕ

-- fds, an array of USER_LIMIT + 1; user_counter; users, which is indexed by descriptor
pub record Chat : Type 0 where
  pub fds : List PollFd
  pub user_counter : ℕ
  pub users : ℕ → User

pub data Action : Type 0 where
  refuse : ℕ → Action
  nonblocking : ℕ → Action
  close_fd : ℕ → Action
  send_text : ℕ → List ℕ → Action

-- how one recv ends: bytes; 0, the client has closed; -1 with EAGAIN; another -1
pub data Received : Type 0 where
  bytes : List ℕ → Received
  closed again broken : Received

-- What the system gives in one round: revents, accept (none for -1) and recv, by descriptor.
pub record Calls : Type 0 where
  pub ready : ℕ → Ready
  pub accepts : Option ℕ
  pub recvs : ℕ → Received

abbrev pub quiet : Ready
quiet = record { readable = false; error = false; hung_up = false; writable = false }

-- the chat, what was done, and the index that the loop goes on with
pub record Step : Type 0 where
  pub chat : Chat
  pub acts : List Action
  pub next : ℕ

abbrev pub has_fd : ℕ → PollFd → Bool
has_fd fd e = elim e.fd [ none ↦ false | some x ↦ x == fd ]

-- users[fd] = u, where `users` has FD_LIMIT entries
unfoldable pub put_user : (ℕ → User) → ℕ → User → Option (ℕ → User)
put_user users fd u = if ltb fd fd_limit then some (λ x. if x == fd then u else users x) else none

unfoldable pub on_connection : Calls → (i : ℕ) → Chat → Option Step
on_connection k i s = elim k.accepts [
  | none ↦ some (record { chat = s; acts = []; next = i + 1 })
  | some connfd ↦
      if ltb s.user_counter user_limit
      then (do
        users ← put_user s.users connfd (s.users connfd)
        some (record {
          chat = record s {
            fds = set s.fds (s.user_counter + 1) (record {
              fd = some connfd;
              events = record { pollin = true; pollout = false; others = true };
              revents = quiet;
            });
            user_counter = s.user_counter + 1;
            users = users;
          };
          acts = nonblocking connfd ∷ [];
          next = i + 1;
        }))
      else some (record { chat = s; acts = refuse connfd ∷ []; next = i + 1 })
]

-- n - 1, which is none for 0
unfoldable pub less_one : ℕ → Option ℕ
less_one zero = none
less_one (suc n) = some n

-- The user at an index is taken out: the last entry takes its place and is looked at next. (With no
-- user, user_counter would become -1: the model stops there with none.)
unfoldable pub remove : (i : ℕ) → Chat → Option Step
remove i s = do
  gone ← get_elem? s.fds i
  last ← get_elem? s.fds s.user_counter
  fd ← gone.fd
  last_fd ← last.fd
  count ← less_one s.user_counter
  users ← put_user s.users fd (s.users last_fd)
  some (record {
    chat = record { fds = set s.fds i last; user_counter = count; users = users };
    acts = close_fd fd ∷ [];
    next = i;
  })

-- the loop over j that tells the other users, for `left` of them
unfoldable pub tell_others : (connfd left j : ℕ) → Chat → Option Chat
tell_others connfd zero j s = some s
tell_others connfd (suc left) j s = do
  e ← get_elem? s.fds j
  let skip = tell_others connfd left (j + 1) s
  let tell : Option Chat = (do
    fd ← e.fd
    users ← put_user s.users fd (record (s.users fd) { write_buf = some connfd })
    tell_others connfd left (j + 1) (record s {
      fds = set s.fds j (record e {
        events = record { pollin = e.events.pollin; pollout = true; others = true };
      });
      users = users;
    }))
  if has_fd connfd e then skip else tell

-- the buffer with a text in front of zeros
unfoldable pub filled : List ℕ → List ℕ
filled bs = bs ++ replicate (buffer_size - length bs) 0

unfoldable pub on_data : Calls → (i connfd : ℕ) → Chat → Option Step
on_data k i connfd s = do
  users ← put_user s.users connfd (record (s.users connfd) { buf = filled [] })
  let cleared = record s { users = users }
  let go_on : Step = record { chat = cleared; acts = []; next = i + 1 }
  elim (k.recvs connfd) [
    | bytes bs ↦
        let got = take (buffer_size - 1) bs in
        let passed_on : Option Step = (do
          users ← put_user s.users connfd (record (s.users connfd) { buf = filled got })
          t ← tell_others connfd s.user_counter 1 (record s { users = users })
          some (record { chat = t; acts = []; next = i + 1 })) in
        if length got == 0 then some go_on else passed_on
    | closed ↦ some go_on
    | again ↦ some go_on
    | broken ↦ remove i cleared
  ]

unfoldable pub on_writable : (i connfd : ℕ) → PollFd → Chat → Option Step
on_writable i connfd e s = elim (s.users connfd).write_buf [
  | none ↦ some (record { chat = s; acts = []; next = i + 1 })
  | some p ↦ do
    text ← until_nul (s.users p).buf
    users ← put_user s.users connfd (record (s.users connfd) { write_buf = none })
    some (record {
      chat = record s {
        fds = set s.fds i (record e {
          events = record { pollin = true; pollout = e.events.pollout; others = true };
        });
        users = users;
      };
      acts = send_text connfd text ∷ [];
      next = i + 1;
    })
]

-- one turn of the `for` over the entries
unfoldable pub visit : Calls → (listenfd i : ℕ) → Chat → Option Step
visit k listenfd i s = do
  e ← get_elem? s.fds i
  let go_on : Option Step = some (record { chat = s; acts = []; next = i + 1 })
  let read : Option Step = e.fd >>= λ fd. on_data k i fd s
  let write : Option Step = e.fd >>= λ fd. on_writable i fd e s
  if has_fd listenfd e && e.revents.readable
      then on_connection k i s
      else if e.revents.error
      then go_on
      else if e.revents.hung_up
      then remove i s
      else if e.revents.readable
      then read
      else if e.revents.writable
      then write
      else go_on

-- The `for` from the index i on. A turn goes to the next entry or takes one out, and one turn may
-- add one, so fuel above their number by two is enough.
unfoldable pub visits : (fuel : ℕ) → Calls → (listenfd i : ℕ) → Chat → Option (Chat × List Action)
visits zero k listenfd i s = none
visits (suc fuel) k listenfd i s =
    let turn : Option (Chat × List Action) = (do
      r ← visit k listenfd i s
      (t, more) ← visits fuel k listenfd r.next r.chat
      some (t, r.acts ++ more)) in
    if ltb i (s.user_counter + 1) then turn else some (s, [])

-- poll fills in the revents of the first n entries
unfoldable pub polled : (ℕ → Ready) → ℕ → List PollFd → List PollFd
polled ready zero es = es
polled ready (suc n) [] = []
polled ready (suc n) (e ∷ es) =
    record e { revents = (elim e.fd [ none ↦ quiet | some fd ↦ ready fd ]) } ∷ polled ready n es

unfoldable pub round : Calls → (listenfd : ℕ) → Chat → Option (Chat × List Action)
round k listenfd s =
    visits (s.user_counter + 3) k listenfd 0
      (record s { fds = polled k.ready (s.user_counter + 1) s.fds })

-- The while loop: a round for each poll, none where poll fails. Where the list ends the server
-- waits.
unfoldable pub run : List (Option Calls) → (listenfd : ℕ) → Chat → Option (Chat × List Action)
run [] listenfd s = some (s, [])
run (none ∷ ks) listenfd s = some (s, [])
run (some k ∷ ks) listenfd s = do
  (s, acts) ← round k listenfd s
  (s, more) ← run ks listenfd s
  some (s, acts ++ more)
