-- ===== src/WebServer/Process.antt =====
-- process of socket/pool/http_conn.cpp leaves a connection in order and at its place.
use unix_programming.Base.{
  ℕ, ◌≡◌, refl, ◌∙◌, Bool, true, List, arith, ok, Ends, Ends-and_then, OnOk-at, length, ℤ, pos,
  ◌==◌, Bool-cases, if◌then◌else◌, inl, inr,
}
use unix_programming.HttpConn.{
  Block, HttpConn, HttpCode, Files, no_request, internal_error, bad_request, no_resource,
  forbidden_request, file_request, get_request, closed_connection,
}
use unix_programming.HttpConn.Connection.{Server, close_conn}
use unix_programming.HttpConn.ReadMachine.{process_read}
use unix_programming.HttpConn.ReadMachine.Ends.{IsConn, process_read-IsConn}
use unix_programming.HttpConn.ReadMachine.Socket.{process_read-OnOk}
use unix_programming.HttpConn.Response.{
  process_write, answer_form, answer_file, add_response, add_status_line, add_headers,
  add_content_length, add_linger, add_blank_line, add_content, status_line, length_line,
  linger_line, ok_200_title, ok_string,
}
use unix_programming.HttpConn.Send.{answer, process}
use unix_programming.WebServer.Conn.{Placed, kept-Placed, close_conn-Placed}

-- the connection in the same state of parsing, on the same socket
pub record Keeps (c d : HttpConn) : Type 0 where
  pub conn : IsConn c → IsConn d
  pub sockfd : d.sockfd ≡ c.sockfd

add_response-Keeps : (text : List ℕ) (c : HttpConn) → Keeps c (add_response text c).1
unfolding add_response
add_response-Keeps text c = ground arith

then-Keeps : (c d e : HttpConn) → Keeps c d → Keeps d e → Keeps c e
then-Keeps c d e h k = record { conn = λ v. k.conn (h.conn v); sockfd = k.sockfd ∙ h.sockfd }

iv-Keeps : (c d : HttpConn) (bs : List Block) → Keeps c d → Keeps c (record d { iv = bs })
iv-Keeps c d bs h = record {
  conn = λ v.
      let u = h.conn v in
      record { size = u.size; start = u.start; checked = u.checked; read = u.read };
  sockfd = h.sockfd;
}

add_headers-Keeps :
    (n : ℤ) (title : List ℕ) (status : ℕ) (c : HttpConn)
    → Keeps c (add_headers n (add_status_line status title c).1).1
unfolding add_headers add_status_line add_content_length add_linger add_blank_line
add_headers-Keeps n title status c =
    let d = (add_response (status_line status title) c).1 in
    let e = (add_response (length_line n) d).1 in
    let f = (add_response (linger_line e.linger) e).1 in
    then-Keeps c d _ (add_response-Keeps _ c) (
      then-Keeps d e _ (add_response-Keeps _ d)
        (then-Keeps e f _ (add_response-Keeps _ e) (add_response-Keeps _ f)))

answer_form-Keeps :
    (status : ℕ) (title form : List ℕ) (c : HttpConn) → Keeps c (answer_form status title form c).1
unfolding answer_form add_content
answer_form-Keeps status title form c =
    let d = (add_headers (pos (length form)) (add_status_line status title c).1).1 in
    let h = then-Keeps c d _ (add_headers-Keeps _ title status c) (add_response-Keeps form d) in
    elim (Bool-cases (add_response form d).0) [ inl e ↦ rw e (iv-Keeps c _ _ h) | inr e ↦ rw e h ]

answer_file-Keeps : (c : HttpConn) → Keeps c (answer_file c).1
unfolding answer_file add_content
answer_file-Keeps c = elim (Bool-cases ((add_status_line 200 ok_200_title c).1.file_size == 0)) [
  | inl e ↦ rw e (
      then-Keeps c _ _ (add_headers-Keeps (pos (length ok_string)) ok_200_title 200 c)
        (add_response-Keeps ok_string _))
  | inr e ↦ rw e (iv-Keeps c _ _ (add_headers-Keeps _ ok_200_title 200 c))
]

process_write-Keeps : (code : HttpCode) (c : HttpConn) → Keeps c (process_write code c).1
unfolding process_write
process_write-Keeps internal_error c = answer_form-Keeps _ _ _ c
process_write-Keeps bad_request c = answer_form-Keeps _ _ _ c
process_write-Keeps no_resource c = answer_form-Keeps _ _ _ c
process_write-Keeps forbidden_request c = answer_form-Keeps _ _ _ c
process_write-Keeps file_request c = answer_file-Keeps c
process_write-Keeps no_request c = record { conn = λ v. v; sockfd = refl }
process_write-Keeps get_request c = record { conn = λ v. v; sockfd = refl }
process_write-Keeps closed_connection c = record { conn = λ v. v; sockfd = refl }

module _ (fd : ℕ) (w : Server) where
  process_write-Placed :
      (code : HttpCode) (d : HttpConn)
      → Placed fd d
      → (let r : Bool × HttpConn = process_write code d in
          let s : HttpConn × Server = if r.0 then (r.1, w) else close_conn true r.1 w in
          Placed fd s.0)
  process_write-Placed code d h =
      let k = process_write-Keeps code d in
      let e = (process_write code d).1 in
      let on = kept-Placed fd d e h (k.conn h.conn) k.sockfd in
      elim (Bool-cases (process_write code d).0) [
        | inl b ↦ rw b on
        | inr b ↦ rw b (close_conn-Placed fd true e w on)
      ]

  answer-Placed : (code : HttpCode) (d : HttpConn) → Placed fd d → Placed fd (answer (code, d) w).0
  unfolding answer
  answer-Placed no_request d h = h
  answer-Placed get_request d h = process_write-Placed get_request d h
  answer-Placed bad_request d h = process_write-Placed bad_request d h
  answer-Placed no_resource d h = process_write-Placed no_resource d h
  answer-Placed forbidden_request d h = process_write-Placed forbidden_request d h
  answer-Placed file_request d h = process_write-Placed file_request d h
  answer-Placed internal_error d h = process_write-Placed internal_error d h
  answer-Placed closed_connection d h = process_write-Placed closed_connection d h

  pub process-Placed :
      (fs : Files) (c : HttpConn) → Placed fd c → Ends (λ r. Placed fd r.0) (process fs c w)
  unfolding process
  process-Placed fs c h =
      Ends-and_then (λ r. IsConn r.1) (λ r. Placed fd r.0) (process_read fs c)
        (λ r. ok (answer r w)) (process_read-IsConn fs c h.conn)
        λ (code, d) run valid.
          let same =
            OnOk-at (λ (r : HttpCode × HttpConn). r.1.sockfd ≡ c.sockfd) (process_read fs c)
              (process_read-OnOk fs c) run in
          answer-Placed code d (kept-Placed fd c d h valid same)
