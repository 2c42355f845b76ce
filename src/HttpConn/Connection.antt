-- ===== src/HttpConn/Connection.antt =====
-- Opening, resetting and closing a connection, and reading into its buffer:
-- init, close_conn and read of socket/pool/http_conn.cpp.
use unix_programming.Base.{
  ℕ, ◌+◌, ◌-◌, Bool, true, false, Option, none, some, List, [], ◌∷◌, ◌++◌, leb, ◌==◌, if◌then◌else◌,
  length, take, drop, replicate, pos, ℤ, plus_one, sub,
}
use unix_programming.HttpConn.{read_buffer_size, HttpConn, requestline, get}

-- The private init(): all but the socket, the mapping and the blocks to send.
unfoldable pub init : HttpConn → HttpConn
init c = record c {
  check_state = requestline;
  linger = false;
  method = get;
  url = none;
  version = none;
  content_length = pos 0;
  host = none;
  start_line = 0;
  checked_idx = 0;
  read_idx = 0;
  write_buf = [];
  read_buf = replicate read_buffer_size 0;
  real_file = [];
}

-- What the event table and the sockets are told: the calls of addfd, removefd and modfd.
pub data Effect : Type 0 where
  addfd : ℕ → Effect
  removefd : ℕ → Effect
  modfd_in modfd_out : Option ℕ → Effect

-- The static m_user_count, and the calls made so far, the last one first.
pub record Server : Type 0 where
  pub user_count : ℤ
  pub effects : List Effect

-- init(sockfd, addr) for an accepted connection
unfoldable pub init_conn : ℕ → HttpConn → Server → HttpConn × Server
unfolding init
init_conn sockfd c w = (
  init (record c { sockfd = some sockfd }),
  record { user_count = plus_one w.user_count; effects = addfd sockfd ∷ w.effects },
)

unfoldable pub close_conn : Bool → HttpConn → Server → HttpConn × Server
close_conn real_close c w = elim c.sockfd [
  | none ↦ (c, w)
  | some fd ↦
      if real_close
      then (
        record c { sockfd = none },
        record { user_count = sub w.user_count 1; effects = removefd fd ∷ w.effects },
      )
      else (c, w)
]

-- How one recv ends: bytes; 0, the peer has closed; -1 with EAGAIN or EWOULDBLOCK; another -1.
pub data Received : Type 0 where
  bytes : List ℕ → Received
  closed again broken : Received

-- The loop of read(), over the results of its recv calls. A recv is given the room left and
-- stores at most that many bytes. Where the list ends, the loop has gone no further (none).
unfoldable pub read_loop : HttpConn → List Received → Option (Bool × HttpConn)
read_loop c [] = none
read_loop c (bytes bs ∷ rs) =
    let got = take (read_buffer_size - c.read_idx) bs in
    let rest =
      read_loop
        (record c {
          read_buf = take c.read_idx c.read_buf ++ got ++ drop (c.read_idx + length got) c.read_buf;
          read_idx = c.read_idx + length got;
        })
        rs in
    if length got == 0 then some (false, c) else rest
read_loop c (closed ∷ rs) = some (false, c)
read_loop c (again ∷ rs) = some (true, c)
read_loop c (broken ∷ rs) = some (false, c)

unfoldable pub read : HttpConn → List Received → Option (Bool × HttpConn)
unfolding read_loop
read c rs = if leb read_buffer_size c.read_idx then some (false, c) else read_loop c rs
