-- ===== src/HttpConn/Send.antt =====
-- Sending the answer, and the entry of a worker thread: unmap, write and process of
-- socket/pool/http_conn.cpp.
pub mod Sends
use unix_programming.Base.{
  ℕ, ◌+◌, Bool, true, false, Option, none, some, List, [], ◌∷◌, ◌++◌, ◌==◌, if◌then◌else◌, length,
  take, ℤ, pos, sub, leb_ℕ, Run, and_then, ok,
}
use unix_programming.HttpConn.{HttpConn, HttpCode, no_request, Files, Mapping, unmapped, blocks}
use unix_programming.HttpConn.Connection.{Server, Effect, modfd_in, modfd_out, init, close_conn}
use unix_programming.HttpConn.ReadMachine.{process_read}
use unix_programming.HttpConn.Response.{process_write}

-- How one writev ends: a count of bytes; -1 with EAGAIN; another -1.
pub data Writev : Type 0 where
  wrote : ℕ → Writev
  full broken : Writev

abbrev pub unmap : HttpConn → HttpConn
unmap c = record c { file_address = unmapped }

abbrev pub tell : Effect → Server → Server
tell e w = record w { effects = e ∷ w.effects }

-- what write() returns, with the connection, the server, and the bytes put on the socket
pub record Written : Type 0 where
  pub result : Bool
  pub conn : HttpConn
  pub server : Server
  pub sent : List ℕ

abbrev pub written : Bool → HttpConn → Server → List ℕ → Written
written b c w out = record { result = b; conn = c; server = w; sent = out }

unfoldable pub finish : HttpConn → Server → List ℕ → Written
unfolding init
finish c w out =
    if c.linger
    then written true (init (unmap c)) (tell (modfd_in c.sockfd) w) out
    else written false (unmap c) (tell (modfd_in c.sockfd) w) out

-- The loop over the results of its writev calls; each is handed all of m_iv, and puts the first
-- bytes of that on the socket. Where the list ends, the loop has gone no further (none).
unfoldable pub write_loop :
    HttpConn
    → Server
    → (to_send : ℤ) → (have_send : ℕ) → (out : List ℕ) → List Writev
    → Option Written
unfolding finish
write_loop c w to_send have_send out [] = none
write_loop c w to_send have_send out (wrote temp ∷ rs) =
    let to_send' = sub to_send temp in
    let have_send' = have_send + temp in
    let out' = out ++ take temp (blocks c.iv) in
    let rest = write_loop c w to_send' have_send' out' rs in
    if leb_ℕ to_send' have_send' then some (finish c w out') else rest
write_loop c w to_send have_send out (full ∷ rs) =
    some (written true c (tell (modfd_out c.sockfd) w) out)
write_loop c w to_send have_send out (broken ∷ rs) = some (written false (unmap c) w out)

unfoldable pub write : HttpConn → Server → List Writev → Option Written
unfolding write_loop init
write c w rs =
    if length c.write_buf == 0
    then some (written true (init c) (tell (modfd_in c.sockfd) w) [])
    else write_loop c w (pos (length c.write_buf)) 0 [] rs

unfoldable pub answer : HttpCode × HttpConn → Server → HttpConn × Server
answer (no_request, c) w = (c, tell (modfd_in c.sockfd) w)
answer (code, c) w =
    let (write_ret, c) = process_write code c in
    let (c, w) : HttpConn × Server = if write_ret then (c, w) else close_conn true c w in
    (c, tell (modfd_out c.sockfd) w)

unfoldable pub process : Files → HttpConn → Server → Run (HttpConn × Server)
unfolding answer
process fs c w = and_then (process_read fs c) λ r. ok (answer r w)
