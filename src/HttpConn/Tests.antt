-- ===== src/HttpConn/Tests.antt =====
-- Requests run through the code of socket/pool/http_conn.cpp, and the theorems at them.
use unix_programming.Base.{
  ℕ, zero, suc, ◌-◌, ◌<◌, ◌≡◌, refl, Bool, true, false, Option, none, some, List, [], ◌∷◌, ◌++◌,
  length, replicate, Run, ok, fault, exhausted, pos, arith, get_or, Gives, Ends,
}
use unix_programming.Base.Text.{codes, c_string, strpbrk, eq_nocase, strspn, prefix_nocase}
use unix_programming.HttpConn.{
  HttpConn, HttpCode, file_request, no_request, header, no_resource, bad_request, Files,
  requestline, get, unmapped, mapped, text_block, file_block, blocks, read_buffer_size,
  write_buffer_size,
}
use unix_programming.HttpConn.Connection.{Server, removefd, modfd_in, modfd_out}
use unix_programming.HttpConn.ParseLine.{parse_line, scanned, line_open}
use unix_programming.HttpConn.ParseLine.Correct.{Found, parse_line-Found, parse_line-resume}
use unix_programming.HttpConn.Request.{parse_request_line, reply}
use unix_programming.HttpConn.Request.Line.{request_line, cut_line, parse_request_line-path}
use unix_programming.HttpConn.ReadMachine.{process_read}
use unix_programming.HttpConn.ReadMachine.Ends.{IsConn, process_read-IsConn}
use unix_programming.HttpConn.Response.{
  process_write, error_404_title, error_404_form, ok_200_title,
}
use unix_programming.HttpConn.Response.Complete.{
  error_404, head, process_write-error, process_write-file,
}
use unix_programming.HttpConn.Response.Bounds.{process_write-Fits}
use unix_programming.HttpConn.Send.{wrote, unmap, tell, written, write, answer}
use unix_programming.HttpConn.Send.Sends.{write-whole, write-cut, write-repeats, answer-empty_file}

-- a connection that has read a text
abbrev pub conn_of : List ℕ → HttpConn
conn_of text = record {
  sockfd = some 5;
  read_buf = text ++ replicate (read_buffer_size - length text) 0;
  read_idx = length text;
  checked_idx = 0;
  start_line = 0;
  write_buf = [];
  check_state = requestline;
  method = get;
  real_file = [];
  url = none;
  version = none;
  host = none;
  content_length = pos 0;
  linger = false;
  file_address = unmapped;
  file_size = 0;
  iv = [];
}

abbrev pub one_file : Files
one_file = record {
  stat = λ p. some (record { size = 3; is_read_by_others = true; is_dir = false });
  map = λ p. some (codes "abc");
}

abbrev crlf : List ℕ
crlf = 13 ∷ 10 ∷ []

abbrev request : List ℕ
request = codes "GET /a.txt HTTP/1.1" ++ crlf ++ codes "Connection: keep-alive" ++ crlf ++ crlf

abbrev outcome : Run (HttpCode × HttpConn) → Option (HttpCode × List ℕ × Bool × ℕ)
outcome (ok (code, c)) = some (code, c.real_file, c.linger, c.checked_idx)
outcome fault = none
outcome exhausted = none

serves_a_file :
    outcome (process_read one_file (conn_of request))
    ≡ some (file_request, codes "./a.txt", true, 47)
unfolding process_read parse_line c_string strpbrk eq_nocase strspn prefix_nocase
serves_a_file = refl

abbrev buffer : List ℕ
buffer = codes "a: b" ++ crlf ++ codes "c"

parse_line-Found_example : Gives (λ r. Found buffer 0 7 r r.status) (parse_line buffer 0 7)
parse_line-Found_example = parse_line-Found buffer 0 7 (omega arith) (omega arith)

abbrev cut : List ℕ
cut = codes "a: b" ++ 13 ∷ []

cut_open : parse_line cut 0 5 ≡ some (scanned line_open cut 4)
unfolding parse_line
cut_open = refl

agree : (k : ℕ) → k < 5 → get_or buffer k 0 ≡ get_or cut k 0
agree zero h = refl
agree (suc zero) h = refl
agree (suc (suc zero)) h = refl
agree (suc (suc (suc zero))) h = refl
agree (suc (suc (suc (suc zero)))) h = refl
agree (suc (suc (suc (suc (suc k))))) h = absurd (omega arith)

parse_line-resume_example : parse_line buffer 4 7 ≡ parse_line buffer 0 7
parse_line-resume_example =
    parse_line-resume cut buffer 0 5 7 (scanned line_open cut 4) (omega arith) (omega arith)
      (omega arith) (omega arith) agree cut_open refl

request-IsConn : IsConn (conn_of request)
request-IsConn = record {
  size = refl;
  start = omega arith;
  checked = omega arith;
  read = omega arith;
}

process_read-IsConn_example : Ends (λ r. IsConn r.1) (process_read one_file (conn_of request))
process_read-IsConn_example = process_read-IsConn one_file (conn_of request) request-IsConn

process_write-error_example :
    let text =
      ([] ++ head 404 error_404_title (pos (length error_404_form)) false) ++ error_404_form in
    process_write no_resource (conn_of request)
    ≡ (true, record (conn_of request) { write_buf = text; iv = text_block text ∷ [] })
process_write-error_example = process_write-error (conn_of request) error_404 (omega arith)

-- a connection with a file of three bytes mapped
abbrev with_file : HttpConn
with_file = record (conn_of request) { file_address = mapped (codes "abc"); file_size = 3 }

process_write-file_example :
    let text = [] ++ head 200 ok_200_title (pos 3) false in
    let iv = text_block text ∷ file_block (mapped (codes "abc")) 3 ∷ [] in
    (process_write file_request with_file ≡ (true, record with_file { write_buf = text; iv = iv }))
    × (blocks iv ≡ text ++ codes "abc")
process_write-file_example =
    process_write-file with_file (codes "abc") refl refl (omega arith) (omega arith) (omega arith)

process_write-Fits_example :
    length (process_write bad_request (conn_of request)).1.write_buf < write_buffer_size
process_write-Fits_example = process_write-Fits bad_request (conn_of request) (omega arith)

-- an answer of four bytes and a file of three
abbrev to_send : HttpConn
to_send = record with_file {
  write_buf = codes "head";
  iv = text_block (codes "head") ∷ file_block (mapped (codes "abc")) 3 ∷ [];
}

abbrev server : Server
server = record { user_count = pos 1; effects = [] }

write-whole_example :
    write to_send server (wrote 7 ∷ [])
    ≡ some (written false (unmap to_send) (tell (modfd_in (some 5)) server) (codes "headabc"))
write-whole_example = write-whole to_send server (omega arith) [] (omega arith)

write-cut_example :
    (write to_send server (wrote 3 ∷ [])
      ≡ some (written false (unmap to_send) (tell (modfd_in (some 5)) server) (codes "hea")))
    × (3 < 7)
write-cut_example = write-cut to_send server (omega arith) 3 [] (omega arith) (omega arith)

write-repeats_example :
    write to_send server (wrote 1 ∷ wrote 2 ∷ [])
    ≡ some (written false (unmap to_send) (tell (modfd_in (some 5)) server) (codes "hhe"))
write-repeats_example =
    write-repeats to_send server (omega arith) 1 2 [] (omega arith) (omega arith)

answer-empty_file_example :
    ((answer (file_request, conn_of request) server).0.sockfd ≡ none)
    × ((answer (file_request, conn_of request) server).1
        ≡ record { user_count = pos 0; effects = modfd_out none ∷ removefd 5 ∷ [] })
answer-empty_file_example = answer-empty_file (conn_of request) server 5 refl refl

-- the line of the request "GET /a HTTP/1.1", behind its end, and one byte
abbrev with_line : HttpConn
with_line = record (conn_of []) { read_buf = request_line (codes "/a") (codes "x") }

parse_request_line-path_example :
    parse_request_line 0 with_line
    ≡ reply no_request (record with_line {
      read_buf = cut_line (codes "/a") (codes "x");
      url = some 4;
      version = some 7;
      method = get;
      check_state = header;
    })
parse_request_line-path_example =
    parse_request_line-path with_line [] (codes "x") (codes "a") (ground arith, (ground arith, tt))
      (refl, (refl, tt)) refl
