-- ===== src/HttpConn/Response/Bounds.antt =====
-- Filling the answer never runs over m_write_buf in socket/pool/http_conn.cpp, and an empty file.
use unix_programming.Base.{ℕ, ◌<◌, List, arith, length, length-append, ℤ}
use unix_programming.HttpConn.{
  HttpConn, HttpCode, bad_request, no_resource, forbidden_request, internal_error, file_request,
  write_buffer_size,
}
use unix_programming.HttpConn.Response.{
  add_response, add_status_line, add_content_length, add_linger, add_blank_line, add_headers,
  add_content, answer_form, answer_file, process_write,
}

abbrev Fits : HttpConn → Type 0
Fits c = length c.write_buf < write_buffer_size

add_response-Fits : (text : List ℕ) (c : HttpConn) → Fits c → Fits (add_response text c).1
unfolding add_response
add_response-Fits text c h = ground (arith, length-append c.write_buf text)

add_headers-Fits : (n : ℤ) (c : HttpConn) → Fits c → Fits (add_headers n c).1
unfolding add_headers add_content_length add_linger add_blank_line
add_headers-Fits n c h = grind (arith, add_response-Fits)

answer_form-Fits :
    (status : ℕ) (title form : List ℕ) (c : HttpConn)
    → Fits c
    → Fits (answer_form status title form c).1
unfolding answer_form add_status_line add_content
answer_form-Fits status title form c h = grind (arith, add_response-Fits, add_headers-Fits)

answer_file-Fits : (c : HttpConn) → Fits c → Fits (answer_file c).1
unfolding answer_file add_status_line add_content
answer_file-Fits c h = grind (arith, add_response-Fits, add_headers-Fits)

-- Whatever the code, process_write keeps m_write_idx below WRITE_BUFFER_SIZE.
pub process_write-Fits :
    (code : HttpCode) (c : HttpConn)
    → length c.write_buf < write_buffer_size
    → length (process_write code c).1.write_buf < write_buffer_size
unfolding process_write
process_write-Fits internal_error c h = answer_form-Fits _ _ _ c h
process_write-Fits bad_request c h = answer_form-Fits _ _ _ c h
process_write-Fits no_resource c h = answer_form-Fits _ _ _ c h
process_write-Fits forbidden_request c h = answer_form-Fits _ _ _ c h
process_write-Fits file_request c h = answer_file-Fits c h
process_write-Fits _ c h = h
