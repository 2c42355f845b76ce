-- ===== src/CgiServer.antt =====
-- The handler of the CGI server, cgi_conn of socket/pool/cgi_server.cpp: it reads until a line has
-- come and runs the program that the line names.
pub mod Scan
pub mod Line
pub mod Request
mod Tests
use unix_programming.Base.{
  ℕ, zero, suc, ◌+◌, ◌-◌, Bool, true, false, Option, none, some, List, [], ◌∷◌, ◌++◌, ◌==◌,
  if◌then◌else◌, length, get_elem?, set, take, drop, replicate, ◌>>=◌,
}
use unix_programming.Base.Text.{c_string}

abbrev pub buffer_size : ℕ
buffer_size = 1024

-- m_buf and m_read_idx
pub record CgiConn : Type 0 where
  pub buf : List ℕ
  pub read_idx : ℕ

unfoldable pub new_conn : CgiConn
new_conn = record { buf = replicate buffer_size 0; read_idx = 0 }

-- how one recv ends: bytes; 0, the client has closed; -1 with EAGAIN; another -1
pub data Received : Type 0 where
  bytes : List ℕ → Received
  closed again broken : Received

-- What process() does in the end: it waits for more; it closes the connection by removefd; or it
-- has a child run the program of this name on the socket and closes its own end.
pub data Outcome : Type 0 where
  waits closes : Outcome
  runs : List ℕ → Outcome

-- idx >= 1 && m_buf[idx - 1] == '\r' && m_buf[idx] == '\n'
unfoldable pub ends_line : List ℕ → ℕ → Option Bool
ends_line buf zero = some false
ends_line buf (suc i) = do
  before ← get_elem? buf i
  here ← get_elem? buf (suc i)
  some (if before == 13 then here == 10 else false)

-- the for loop, with `left` bytes up to m_read_idx
unfoldable pub scan : (left idx : ℕ) → List ℕ → Option ℕ
scan zero idx buf = some idx
scan (suc left) idx buf =
    let rest = scan left (suc idx) buf in
    ends_line buf idx >>= λ found. if found then some idx else rest

-- the end of process(): access is given by `exists`, and whether fork makes a child by `forks`
unfoldable pub run_program :
    (exists : List ℕ → Bool) (forks : Bool) → CgiConn → ℕ → Option (CgiConn × Outcome)
run_program exists forks c idx =
    let buf = set c.buf (idx - 1) 0 in
    c_string buf 0 >>= λ file_name. some (
      record c { buf = buf },
      if exists file_name then (if forks then runs file_name else closes) else closes,
    )

-- The while loop, over the results of its recv calls; where the list ends it has gone no further
-- (none). A recv is given the room left but one byte.
unfoldable pub process :
    (exists : List ℕ → Bool) (forks : Bool) → CgiConn → List Received → Option (CgiConn × Outcome)
process exists forks c [] = none
process exists forks c (bytes bs ∷ rs) =
    let got = take (buffer_size - 1 - c.read_idx) bs in
    let c' = record c {
      buf = take c.read_idx c.buf ++ (got ++ drop (c.read_idx + length got) c.buf);
      read_idx = c.read_idx + length got;
    } in
    let rest = process exists forks c' rs in
    if length got == 0
    then some (c, closes)
    else (scan (length got) c.read_idx c'.buf >>= λ idx.
        if idx == c'.read_idx then rest else run_program exists forks c' idx)
process exists forks c (closed ∷ rs) = some (c, closes)
process exists forks c (again ∷ rs) = some (c, waits)
process exists forks c (broken ∷ rs) = some (c, closes)
