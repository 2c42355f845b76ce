-- ===== src/HttpConn/Response.antt =====
-- Filling the answer: add_response and its callers, and process_write of
-- socket/pool/http_conn.cpp.
pub mod Complete
pub mod Bounds
use unix_programming.Base.{
  ℕ, ◌+◌, ◌-◌, Bool, true, false, List, [], ◌∷◌, ◌++◌, leb, ◌==◌, if◌then◌else◌, length, ℤ, pos,
  to_int,
}
use unix_programming.Base.Text.{codes, decimal}
use unix_programming.HttpConn.{
  HttpConn, HttpCode, internal_error, bad_request, no_resource, forbidden_request, file_request,
  text_block, file_block, write_buffer_size,
}

abbrev pub ok_200_title : List ℕ
ok_200_title = codes "OK"

abbrev pub error_400_title : List ℕ
error_400_title = codes "Bad Request"

abbrev pub error_400_form : List ℕ
error_400_form =
    codes "Your request has bad syntax or is inherently impossible to satisfy." ++ 10 ∷ []

abbrev pub error_403_title : List ℕ
error_403_title = codes "Forbidden"

abbrev pub error_403_form : List ℕ
error_403_form = codes "You do not have permission to get file from this server." ++ 10 ∷ []

abbrev pub error_404_title : List ℕ
error_404_title = codes "Not Found"

abbrev pub error_404_form : List ℕ
error_404_form = codes "The requested file was not found on this server." ++ 10 ∷ []

abbrev pub error_500_title : List ℕ
error_500_title = codes "Internal Error"

abbrev pub error_500_form : List ℕ
error_500_form = codes "There was an unusual problem serving the requested file." ++ 10 ∷ []

abbrev pub crlf : List ℕ
crlf = 13 ∷ 10 ∷ []

-- `text` is what vsnprintf makes of the format and the arguments; m_write_idx is the length of
-- `write_buf`. A text that does not fit may change the bytes behind m_write_idx, which are not kept.
unfoldable pub add_response : List ℕ → HttpConn → Bool × HttpConn
add_response text c =
    if leb write_buffer_size (length c.write_buf)
    then (false, c)
    else if leb (write_buffer_size - 1 - length c.write_buf) (length text)
    then (false, c)
    else (true, record c { write_buf = c.write_buf ++ text })

unfoldable pub status_line : ℕ → List ℕ → List ℕ
status_line status title = codes "HTTP/1.1 " ++ decimal (pos status) ++ codes " " ++ title ++ crlf

unfoldable pub length_line : ℤ → List ℕ
length_line n = codes "Content-Length: " ++ decimal n ++ crlf

unfoldable pub linger_line : Bool → List ℕ
linger_line linger =
    codes "Connection: " ++ (if linger then codes "keep-alive" else codes "close") ++ crlf

unfoldable pub add_status_line : ℕ → List ℕ → HttpConn → Bool × HttpConn
add_status_line status title c = add_response (status_line status title) c

unfoldable pub add_content_length : ℤ → HttpConn → Bool × HttpConn
add_content_length n c = add_response (length_line n) c

unfoldable pub add_linger : HttpConn → Bool × HttpConn
add_linger c = add_response (linger_line c.linger) c

unfoldable pub add_blank_line : HttpConn → Bool × HttpConn
add_blank_line c = add_response crlf c

unfoldable pub add_headers : ℤ → HttpConn → Bool × HttpConn
unfolding add_content_length add_linger add_blank_line
add_headers n c = (true, (add_blank_line (add_linger (add_content_length n c).1).1).1)

unfoldable pub add_content : List ℕ → HttpConn → Bool × HttpConn
add_content content c = add_response content c

-- a case of the switch that answers with a form, and the code behind the switch
unfoldable pub answer_form : ℕ → List ℕ → List ℕ → HttpConn → Bool × HttpConn
unfolding add_status_line add_headers add_content
answer_form status title form c =
    let c = (add_headers (pos (length form)) (add_status_line status title c).1).1 in
    let (added, c) = add_content form c in
    if added then (true, record c { iv = text_block c.write_buf ∷ [] }) else (false, c)

abbrev pub ok_string : List ℕ
ok_string = codes "<html><body></body></html>"

-- The case of a file. An empty one has no `break` behind it, and the default case returns false.
unfoldable pub answer_file : HttpConn → Bool × HttpConn
unfolding add_status_line add_headers add_content
answer_file c =
    let c = (add_status_line 200 ok_200_title c).1 in
    if c.file_size == 0
    then (let c = (add_headers (pos (length ok_string)) c).1 in
        (false, (add_content ok_string c).1))
    else (let c = (add_headers (to_int c.file_size) c).1 in
        (
          true,
          record c { iv = text_block c.write_buf ∷ file_block c.file_address c.file_size ∷ [] },
        ))

unfoldable pub process_write : HttpCode → HttpConn → Bool × HttpConn
unfolding answer_form answer_file
process_write internal_error c = answer_form 500 error_500_title error_500_form c
process_write bad_request c = answer_form 400 error_400_title error_400_form c
process_write no_resource c = answer_form 404 error_404_title error_404_form c
process_write forbidden_request c = answer_form 403 error_403_title error_403_form c
process_write file_request c = answer_file c
process_write _ c = (false, c)
