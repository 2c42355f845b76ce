-- ===== src/WebServer.antt =====
-- The main loop of the web server, socket/pool/main.cpp, over its connections and the queue of the
-- thread pool. What epoll_wait, accept, recv and writev give is in the events.
pub mod Conn
pub mod Calls
pub mod Process
pub mod Serves
pub mod Events
mod Tests
use unix_programming.Base.{
  ℕ, ◌+◌, Bool, true, false, Option, none, some, List, [], ◌∷◌, ◌++◌, ltb, ◌==◌, ℤ, geb_ℕ,
  if◌then◌else◌, length, Run, ok, fault, and_then, checked_access,
}
use unix_programming.HttpConn.{HttpConn, Files}
use unix_programming.HttpConn.Connection.{Server, Received, init_conn, close_conn, read}
use unix_programming.HttpConn.Send.{Writev, write, process}

abbrev pub max_fd : ℕ
max_fd = 65536

-- users, by descriptor; m_user_count as it was last seen, and the calls of epoll; the descriptors of
-- the connections in the pool's m_workqueue, and those that show_error has closed
pub record Web : Type 0 where
  pub users : ℕ → HttpConn
  pub server : Server
  pub workqueue : List ℕ
  pub refused : List ℕ

-- An entry of `events`, by what its branch looks at; or a thread of the pool takes a request.
pub data Event : Type 0 where
  connection : Option ℕ → Event
  hung_up : ℕ → Event
  readable : ℕ → List Received → Event
  writable : ℕ → List Writev → Event
  other : Event
  work : Event

-- users[fd] after a call on it; `users` has MAX_FD entries
unfoldable pub store : ℕ → HttpConn × Server → Web → Run Web
store fd (c, w) s =
    if ltb fd max_fd
    then ok (record s { users = λ x. if x == fd then c else s.users x; server = w })
    else fault

-- pool->append, whose result main does not look at
unfoldable pub append : (max_requests : ℕ) → ℕ → Web → Web
append max_requests fd s =
    if ltb max_requests (length s.workqueue)
    then s
    else record s { workqueue = s.workqueue ++ fd ∷ [] }

unfoldable pub on_connection : Option ℕ → Web → Run Web
on_connection none s = ok s
on_connection (some connfd) s =
    if geb_ℕ s.server.user_count max_fd
    then ok (record s { refused = connfd ∷ s.refused })
    else store connfd (init_conn connfd (s.users connfd) s.server) s

unfoldable pub on_readable : (max_requests : ℕ) → ℕ → List Received → Web → Run Web
on_readable max_requests fd rs s = checked_access (read (s.users fd) rs) λ r.
    let (more, c) = r in
    if more
    then and_then (store fd (c, s.server) s) (λ t. ok (append max_requests fd t))
    else store fd (close_conn true c s.server) s

unfoldable pub on_writable : ℕ → List Writev → Web → Run Web
on_writable fd rs s = checked_access (write (s.users fd) s.server rs) λ r.
    if r.result then store fd (r.conn, r.server) s else store fd (close_conn true r.conn r.server) s

-- a worker takes the first request off the queue, and runs process() on it
unfoldable pub on_work : Files → Web → Run Web
on_work fs s = elim s.workqueue [
  | [] ↦ ok s
  | fd ∷ fds ↦
      and_then (process fs (s.users fd) s.server) λ r. store fd r (record s { workqueue = fds })
]

unfoldable pub on_branch : (max_requests : ℕ) → Files → Event → Web → Run Web
unfolding on_connection on_readable on_writable on_work
on_branch max_requests fs (connection accepted) s = on_connection accepted s
on_branch max_requests fs (hung_up fd) s = store fd (close_conn true (s.users fd) s.server) s
on_branch max_requests fs (readable fd rs) s = on_readable max_requests fd rs s
on_branch max_requests fs (writable fd rs) s = on_writable fd rs s
on_branch max_requests fs other s = ok s
on_branch max_requests fs work s = on_work fs s

-- One event. Main and the threads change m_user_count with no lock, so nothing is known of what it
-- holds at any time: its value comes with the event.
unfoldable pub on_event : (max_requests : ℕ) → Files → (user_count : ℤ) → Event → Web → Run Web
on_event max_requests fs user_count e s =
    on_branch max_requests fs e (record s { server = record s.server { user_count = user_count } })

unfoldable pub on_events : (max_requests : ℕ) → Files → List (ℤ × Event) → Web → Run Web
on_events max_requests fs [] s = ok s
on_events max_requests fs ((user_count, e) ∷ es) s =
    and_then (on_event max_requests fs user_count e s) (on_events max_requests fs es)
