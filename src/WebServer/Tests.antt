-- ===== src/WebServer/Tests.antt =====
-- A connection that comes, asks for a file and is answered, and the theorem on socket/pool/main.cpp at
-- it.
use unix_programming.Base.{some, ◌≡◌, refl, false, none, [], ◌∷◌, EndsOk, pos}
use unix_programming.Base.Text.{codes}
use unix_programming.HttpConn.{HttpConn, Files, requestline, get, unmapped}
use unix_programming.HttpConn.Connection.{
  init, init_conn, close_conn, read, read_loop, bytes, again,
}
use unix_programming.WebServer.{
  Web, Event, readable, hung_up, store, append, on_readable, on_branch, on_event,
}
use unix_programming.WebServer.Serves.{updated}

abbrev unused : HttpConn
unused = record {
  sockfd = none;
  read_buf = [];
  read_idx = 0;
  checked_idx = 0;
  start_line = 0;
  write_buf = [];
  check_state = requestline;
  method = get;
  real_file = [];
  url = none;
  version = none;
  host = none;
  content_length = pos 0;
  linger = false;
  file_address = unmapped;
  file_size = 0;
  iv = [];
}

abbrev no_files : Files
no_files = record { stat = λ p. none; map = λ p. none }

abbrev at_start : Web
at_start = record {
  users = λ fd. unused;
  server = record { user_count = pos 0; effects = [] };
  workqueue = [];
  refused = [];
}

-- 7 has come
abbrev one : Web
one = updated 7 (init_conn 7 unused at_start.server) at_start

abbrev asks : Event
asks = readable 7 (bytes (codes "GET /a.txt HTTP/1.1") ∷ again ∷ [])

-- what is read puts the connection into the queue
queues : EndsOk (λ s. s.workqueue ≡ 7 ∷ []) (on_event 10000 no_files (pos 1) asks one)
unfolding on_event on_branch on_readable init_conn init read read_loop store append
queues = refl

-- with a full queue, the request is lost, and the connection stays open
loses :
    EndsOk
      (λ s. (s.workqueue ≡ 3 ∷ []) × ((s.users 7).sockfd ≡ some 7))
      (on_event 0 no_files (pos 1) asks (record one { workqueue = 3 ∷ [] }))
unfolding on_event on_branch on_readable init_conn init read read_loop store append
loses = (refl, refl)

hangs_up :
    EndsOk (λ s. s.server.user_count ≡ pos 0) (on_event 10000 no_files (pos 1) (hung_up 7) one)
unfolding on_event on_branch init_conn init close_conn store
hangs_up = refl
