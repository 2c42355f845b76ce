-- ===== src/WebServer/Calls.antt =====
-- read and write of socket/pool/http_conn.cpp keep a connection in order, and on its socket.
use unix_programming.Base.{
  length-append, length-drop, ℕ, ◌+◌, ◌-◌, ◌≤◌, ◌≡◌, refl, List, [], ◌∷◌, ◌++◌, arith, OnSome,
  length, take, drop, length-take, ℤ, pos, leb, leb_ℕ, sub, ◌==◌, Bool-cases, inl, inr,
}
use unix_programming.HttpConn.{HttpConn, read_buffer_size, blocks}
use unix_programming.HttpConn.Connection.{
  Server, Received, bytes, closed, again, broken, init, read_loop, read,
}
use unix_programming.HttpConn.ReadMachine.Ends.{IsConn}
use unix_programming.HttpConn.Send.{Writev, Written, wrote, full, unmap, finish, write_loop, write}
use unix_programming.WebServer.Conn.{init-IsConn}

received-IsConn :
    (c : HttpConn) (got : List ℕ)
    → IsConn c
    → length got ≤ read_buffer_size - c.read_idx
    → IsConn (record c {
      read_buf = take c.read_idx c.read_buf ++ got ++ drop (c.read_idx + length got) c.read_buf;
      read_idx = c.read_idx + length got;
    })
received-IsConn c got v h =
    let before = take c.read_idx c.read_buf in
    let behind = drop (c.read_idx + length got) c.read_buf in
    let n = length-take c.read_idx c.read_buf in
    let m = length-drop (c.read_idx + length got) c.read_buf in
    let size = v.size in
    let read = v.read in
    let checked = v.checked in
    record {
      size = omega (arith, length-append (before ++ got) behind, length-append before got);
      start = v.start;
      checked = omega arith;
      read = omega arith;
    }

read_loop-IsConn :
    (rs : List Received) (c : HttpConn)
    → IsConn c
    → OnSome (λ r. IsConn r.1 × (r.1.sockfd ≡ c.sockfd)) (read_loop c rs)
unfolding read_loop
read_loop-IsConn [] c v = tt
read_loop-IsConn (bytes bs ∷ rs) c v =
    elim (Bool-cases (length (take (read_buffer_size - c.read_idx) bs) == 0)) [
      | inl e ↦ rw e (v, refl)
      | inr e ↦
          let got = take (read_buffer_size - c.read_idx) bs in
          let n = length-take (read_buffer_size - c.read_idx) bs in
          rw e (read_loop-IsConn rs _ (received-IsConn c got v (let z = v.read in omega arith)))
    ]
read_loop-IsConn (closed ∷ rs) c v = (v, refl)
read_loop-IsConn (again ∷ rs) c v = (v, refl)
read_loop-IsConn (broken ∷ rs) c v = (v, refl)

pub read-IsConn :
    (c : HttpConn) (rs : List Received)
    → IsConn c
    → OnSome (λ r. IsConn r.1 × (r.1.sockfd ≡ c.sockfd)) (read c rs)
unfolding read
read-IsConn c rs v = elim (Bool-cases (leb read_buffer_size c.read_idx)) [
  | inl e ↦ rw e (v, refl)
  | inr e ↦ rw e (read_loop-IsConn rs c v)
]

unmap-IsConn : (c : HttpConn) → IsConn c → IsConn (unmap c)
unmap-IsConn c v = record { size = v.size; start = v.start; checked = v.checked; read = v.read }

pub record Kept (c : HttpConn) (r : Written) : Type 0 where
  pub conn : IsConn r.conn
  pub sockfd : r.conn.sockfd ≡ c.sockfd

finish-Kept : (c : HttpConn) (w : Server) (out : List ℕ) → IsConn c → Kept c (finish c w out)
unfolding finish init
finish-Kept c w out v = elim (Bool-cases c.linger) [
  | inl e ↦ rw e (record { conn = init-IsConn (unmap c); sockfd = refl })
  | inr e ↦ rw e (record {
    conn = record { size = v.size; start = v.start; checked = v.checked; read = v.read };
    sockfd = refl;
  })
]

write_loop-Kept :
    (c : HttpConn) (w : Server) (to_send : ℤ) (have_send : ℕ) (out : List ℕ) (rs : List Writev)
    → IsConn c
    → OnSome (Kept c) (write_loop c w to_send have_send out rs)
unfolding write_loop
write_loop-Kept c w n k out [] v = tt
write_loop-Kept c w n k out (wrote t ∷ rs) v =
    let out' = out ++ take t (blocks c.iv) in
    elim (Bool-cases (leb_ℕ (sub n t) (k + t))) [
      | inl e ↦ rw e (finish-Kept c w out' v)
      | inr e ↦ rw e (write_loop-Kept c w (sub n t) (k + t) out' rs v)
    ]
write_loop-Kept c w n k out (full ∷ rs) v = record { conn = v; sockfd = refl }
write_loop-Kept c w n k out (Writev.broken ∷ rs) v = record {
  conn = unmap-IsConn c v;
  sockfd = refl;
}

pub write-Kept :
    (c : HttpConn) (w : Server) (rs : List Writev) → IsConn c → OnSome (Kept c) (write c w rs)
unfolding write init
write-Kept c w rs v = elim (Bool-cases (length c.write_buf == 0)) [
  | inl e ↦ rw e (record { conn = init-IsConn c; sockfd = refl })
  | inr e ↦ rw e (write_loop-Kept c w (pos (length c.write_buf)) 0 [] rs v)
]
