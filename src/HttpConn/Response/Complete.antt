-- ===== src/HttpConn/Response/Complete.antt =====
-- The answers of socket/pool/http_conn.cpp are complete, and stay inside m_write_buf.
use unix_programming.Base.{
  ℕ, zero, suc, ◌+◌, ◌-◌, ◌*◌, ◌/◌, ◌%◌, ◌^◌, ◌≤◌, ◌<◌, ◌≡◌, refl, ◌∙◌, Bool, true, false, List, [],
  ◌∷◌, ◌++◌, append_assoc, arith, ◌==◌, length, length-append, take-length, append-nil, ap, ℤ, pos,
  to_int,
}
use unix_programming.Base.Text.{decimal, decimal_onto}
use unix_programming.HttpConn.{
  HttpConn, HttpCode, Mapping, internal_error, bad_request, no_resource, forbidden_request,
  file_request, write_buffer_size, mapped, text_block, file_block, blocks,
}
use unix_programming.HttpConn.Response.{
  add_response, add_status_line, add_content_length, add_linger, add_blank_line, add_headers,
  add_content, status_line, length_line, linger_line, crlf, answer_form, answer_file, process_write,
  ok_200_title, error_400_title, error_400_form, error_403_title, error_403_form, error_404_title,
  error_404_form, error_500_title, error_500_form,
}

-- the codes that are answered by a form, with its status, title and text
pub data IsError : HttpCode → ℕ → List ℕ → List ℕ → Type 0 where
  error_400 : IsError bad_request 400 error_400_title error_400_form
  error_403 : IsError forbidden_request 403 error_403_title error_403_form
  error_404 : IsError no_resource 404 error_404_title error_404_form
  error_500 : IsError internal_error 500 error_500_title error_500_form

-- an answer's head: the status line, the two headers and the blank line
abbrev pub head : ℕ → List ℕ → ℤ → Bool → List ℕ
head status title n linger =
    ((status_line status title ++ length_line n) ++ linger_line linger) ++ crlf

add_response-fits :
    (text : List ℕ) (c : HttpConn)
    → length c.write_buf + length text < write_buffer_size - 1
    → add_response text c ≡ (true, record c { write_buf = c.write_buf ++ text })
unfolding add_response
add_response-fits text c h = ground arith

-- the buffer behind the four parts of a head
abbrev head_onto : List ℕ → ℕ → List ℕ → ℤ → Bool → List ℕ
head_onto w status title n linger =
    (((w ++ status_line status title) ++ length_line n) ++ linger_line linger) ++ crlf

head_length : ℕ → List ℕ → ℤ → Bool → ℕ
head_length status title n linger =
    length (status_line status title) + length (length_line n) + length (linger_line linger) + 2

length-head_onto :
    (w : List ℕ) (status : ℕ) (title : List ℕ) (n : ℤ) (linger : Bool)
    → length (head_onto w status title n linger) ≡ length w + head_length status title n linger
unfolding head_length
length-head_onto w status title n linger =
    let a = w ++ status_line status title in
    let b = a ++ length_line n in
    omega (
      arith,
      length-append w (status_line status title),
      length-append a (length_line n),
      length-append b (linger_line linger),
      length-append (b ++ linger_line linger) crlf,
    )

headers-fits :
    (n : ℤ) (c : HttpConn)
    → length c.write_buf + length (length_line n) + length (linger_line c.linger) + 2
      < write_buffer_size - 1
    → (add_headers n c).1
      ≡ record c { write_buf = ((c.write_buf ++ length_line n) ++ linger_line c.linger) ++ crlf }
unfolding add_headers add_content_length add_linger add_blank_line
headers-fits n c h =
    let w2 = c.write_buf ++ length_line n in
    let l2 = length-append c.write_buf (length_line n) in
    let w3 = w2 ++ linger_line c.linger in
    let l3 = length-append w2 (linger_line c.linger) in
    rw (
      add_response-fits (length_line n) c (omega arith),
      add_response-fits (linger_line c.linger) (record c { write_buf = w2 }) (omega (arith, l2)),
      add_response-fits crlf (record c { write_buf = w3 }) (omega (arith, l2, l3)),
    )

module _ (status : ℕ) (title : List ℕ) (n : ℤ) (c : HttpConn)
    (h : length c.write_buf + head_length status title n c.linger < write_buffer_size - 1) where
  abbrev with_status : HttpConn
  with_status = record c { write_buf = c.write_buf ++ status_line status title }

  status-fits : add_status_line status title c ≡ (true, with_status)
  unfolding add_status_line head_length
  status-fits = add_response-fits (status_line status title) c (omega arith)

  rest-fits :
      (add_headers n with_status).1
      ≡ record c { write_buf = head_onto c.write_buf status title n c.linger }
  unfolding head_length
  rest-fits =
      headers-fits n with_status
        (omega (arith, length-append c.write_buf (status_line status title)))

answer_form_complete :
    (status : ℕ) (title form : List ℕ) (c : HttpConn)
    → length c.write_buf + head_length status title (pos (length form)) c.linger + length form
      < write_buffer_size - 1
    → let text = head_onto c.write_buf status title (pos (length form)) c.linger ++ form in
      answer_form status title form c
      ≡ (true, record c { write_buf = text; iv = text_block text ∷ [] })
unfolding answer_form add_content
answer_form_complete status title form c h =
    let w = head_onto c.write_buf status title (pos (length form)) c.linger in
    rw (
      status-fits status title (pos (length form)) c (omega arith),
      rest-fits status title (pos (length form)) c (omega arith),
      add_response-fits form (record c { write_buf = w })
          (omega (arith, length-head_onto c.write_buf status title (pos (length form)) c.linger)),
    )

head_onto-append :
    (w : List ℕ) (status : ℕ) (title : List ℕ) (n : ℤ) (linger : Bool)
    → head_onto w status title n linger ≡ w ++ head status title n linger
head_onto-append w status title n linger = simp append_assoc

error_length :
    {code : HttpCode} {status : ℕ} {title form : List ℕ} (linger : Bool)
    → IsError code status title form
    → head_length status title (pos (length form)) linger + length form < 222
unfolding head_length status_line length_line linger_line decimal
error_length true error_400 = omega arith
error_length false error_400 = omega arith
error_length true error_403 = omega arith
error_length false error_403 = omega arith
error_length true error_404 = omega arith
error_length false error_404 = omega arith
error_length true error_500 = omega arith
error_length false error_500 = omega arith

process_write-form :
    {code : HttpCode} {status : ℕ} {title form : List ℕ} (c : HttpConn)
    → IsError code status title form
    → process_write code c ≡ answer_form status title form c
unfolding process_write
process_write-form c error_400 = refl
process_write-form c error_403 = refl
process_write-form c error_404 = refl
process_write-form c error_500 = refl

-- An error code is answered by its status line, the length of its form, the Connection header that
-- the request asked for, a blank line and the form, behind whatever the write buffer held, and that
-- is the only block to send: with at most 800 bytes there, all of it fits.
pub process_write-error :
    {code : HttpCode} {status : ℕ} {title form : List ℕ} (c : HttpConn)
    → IsError code status title form
    → length c.write_buf ≤ 800
    → let text = (c.write_buf ++ head status title (pos (length form)) c.linger) ++ form in
      process_write code c ≡ (true, record c { write_buf = text; iv = text_block text ∷ [] })
process_write-error {status} {title} {form} c e h =
    rw (← head_onto-append c.write_buf status title (pos (length form)) c.linger) (
      process_write-form c e
      ∙ answer_form_complete status title form c (omega (arith, error_length c.linger e)))

-- the bytes of "%d" for n < 10 ^ k
below_ten_to : ℕ → ℕ
below_ten_to zero = 1
below_ten_to (suc k) = 10 * below_ten_to k

length-decimal_onto :
    (f k n : ℕ) (acc : List ℕ)
    → n < below_ten_to (suc k)
    → length (decimal_onto f n acc) ≤ suc k + length acc
unfolding decimal_onto below_ten_to
length-decimal_onto zero k n acc h = omega arith
length-decimal_onto (suc f) zero n acc h = ground arith
length-decimal_onto (suc f) (suc k) n acc h =
    ground (arith, length-decimal_onto f k (n / 10) ((48 + n % 10) ∷ acc))

file_length :
    (n : ℕ) (linger : Bool) → n < 2 ^ 31 → head_length 200 ok_200_title (pos n) linger < 222
unfolding head_length status_line length_line linger_line decimal below_ten_to
file_length n linger h =
    let digits = length-decimal_onto (suc n) 9 n [] (omega arith) in
    omega (arith, length-append (decimal_onto (suc n) n []) crlf, linger_length linger)
  where
    linger_length : (b : Bool) → length (linger_line b) < 30
    linger_length true = omega arith
    linger_length false = omega arith

file_blocks :
    (text : List ℕ) (address : Mapping) (size : ℕ) (bytes : List ℕ)
    → address ≡ mapped bytes
    → length bytes ≡ size
    → blocks (text_block text ∷ file_block address size ∷ []) ≡ text ++ bytes
file_blocks text address size bytes there all =
    rw (there, ← all, take-length bytes) (ap (◌++◌ text) (append-nil bytes))

-- A file that is not empty, smaller than 2 GiB and mapped with as many bytes as its size is answered by
-- the 200 head with its size as the Content-Length, behind whatever the write buffer held, where at
-- most 800 bytes are there. The blocks to send are that text, and the file's address with its size:
-- the text and then the file's bytes.
pub process_write-file :
    (c : HttpConn) (bytes : List ℕ)
    → c.file_address ≡ mapped bytes
    → length bytes ≡ c.file_size
    → 0 < c.file_size
    → c.file_size < 2 ^ 31
    → length c.write_buf ≤ 800
    → let text = c.write_buf ++ head 200 ok_200_title (pos c.file_size) c.linger in
      let iv = text_block text ∷ file_block c.file_address c.file_size ∷ [] in
      (process_write file_request c ≡ (true, record c { write_buf = text; iv = iv }))
      × (blocks iv ≡ text ++ bytes)
unfolding process_write answer_file
process_write-file c bytes there size some_bytes small h =
    let file_bytes =
      file_blocks (c.write_buf ++ head 200 ok_200_title (pos c.file_size) c.linger) c.file_address
        c.file_size bytes there size in
    let some_file : (c.file_size == 0) ≡ false = ground arith in
    let as_int : to_int c.file_size ≡ pos c.file_size = ground arith in
    let fits = file_length c.file_size c.linger small in
    let whole = head_onto-append c.write_buf 200 ok_200_title (pos c.file_size) c.linger in
    rw (status-fits 200 ok_200_title (pos c.file_size) c (omega arith), some_file, as_int)
      (rw (rest-fits 200 ok_200_title (pos c.file_size) c (omega arith))
        (rw whole (refl, file_bytes)))
