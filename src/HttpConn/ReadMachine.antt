-- ===== src/HttpConn/ReadMachine.antt =====
-- The main state machine of the parser and what it ends in: process_read and do_request of
-- socket/pool/http_conn.cpp.
pub mod Ends
pub mod Socket
use unix_programming.Base.{
  ℕ, zero, suc, ◌+◌, ◌-◌, ◌≤◌, ◌<◌, ◌&&◌, Bool, true, false, Option, none, some, List, [], ◌∷◌,
  ◌++◌, not, if◌then◌else◌, length, take, ◌>>=◌, Run, ok, fault, exhausted, checked_access,
}
use unix_programming.Base.Text.{codes, c_string}
use unix_programming.HttpConn.{
  HttpConn, HttpCode, no_request, get_request, bad_request, no_resource, forbidden_request,
  file_request, internal_error, requestline, header, connect, CheckState, Files, FileStat, Mapping,
  mapped, failed, filename_len,
}
use unix_programming.HttpConn.ParseLine.{
  LineStatus, line_ok, line_bad, line_open, Scanned, parse_line,
}
use unix_programming.HttpConn.Request.{
  Handled, reply, parse_request_line, pares_headers, pares_content,
}

abbrev pub doc_root : List ℕ
doc_root = codes "."

abbrev pub mapping_of : Option (List ℕ) → Mapping
mapping_of none = failed
mapping_of (some bytes) = mapped bytes

unfoldable pub do_request : Files → HttpConn → Handled
do_request fs c = do
  url ← c.url
  name ← c_string c.read_buf url
  let path = doc_root ++ take (filename_len - length doc_root - 1) name
  let c = record c { real_file = path }
  elim (fs.stat path) [
    | none ↦ reply no_resource c
    | some st ↦
        let c = record c { file_size = st.size } in
        if not st.is_read_by_others
        then reply forbidden_request c
        else if st.is_dir
        then reply bad_request c
        else reply file_request (record c { file_address = mapping_of (fs.map path) })
  ]

abbrev pub is_connect : CheckState → Bool
is_connect connect = true
is_connect _ = false

abbrev pub is_ok : LineStatus → Bool
is_ok line_ok = true
is_ok _ = false

-- The loop's condition: whether to go on, the line status, and the state behind parse_line.
unfoldable pub next_line : LineStatus → HttpConn → Option (LineStatus × HttpConn)
next_line status c = if is_connect c.check_state && is_ok status then some (status, c) else (do
  r ← parse_line c.read_buf c.checked_idx c.read_idx
  some (r.status, record c { read_buf = r.buf; checked_idx = r.checked }))

-- What a round does: return a code, or go on with a line status.
pub data Round : Type 0 where
  return : HttpCode → HttpConn → Round
  go_on : LineStatus → HttpConn → Round

abbrev pub returned : HttpCode × HttpConn → Round
returned (code, c) = return code c

unfoldable pub after_request_line : HttpCode × HttpConn → Option Round
after_request_line (bad_request, c) = some (return bad_request c)
after_request_line (_, c) = some (go_on line_ok c)

unfoldable pub after_header : Files → HttpCode × HttpConn → Option Round
unfolding do_request
after_header fs (bad_request, c) = some (return bad_request c)
after_header fs (get_request, c) = do r ← do_request fs c; some (returned r)
after_header fs (_, c) = some (go_on line_ok c)

unfoldable pub after_content : Files → HttpCode × HttpConn → Option Round
unfolding do_request
after_content fs (get_request, c) = do r ← do_request fs c; some (returned r)
after_content fs (_, c) = some (go_on line_open c)

-- the `switch` on the state
unfoldable pub handle_line : Files → CheckState → (text : ℕ) → HttpConn → Option Round
unfolding after_request_line after_header after_content parse_request_line pares_headers
    pares_content
handle_line fs requestline text c = do r ← parse_request_line text c; after_request_line r
handle_line fs header text c = do r ← pares_headers text c; after_header fs r
handle_line fs connect text c = do r ← pares_content text c; after_content fs r

-- the loop's body
unfoldable pub line_round : Files → HttpConn → Option Round
unfolding handle_line
line_round fs c =
    handle_line fs c.check_state c.start_line (record c { start_line = c.checked_idx })

unfoldable pub loop_on :
    Files
    → (LineStatus → HttpConn → Run (HttpCode × HttpConn))
    → LineStatus × HttpConn
    → Run (HttpCode × HttpConn)
unfolding line_round
loop_on fs rec (line_ok, c) =
    checked_access (line_round fs c)
      λ r. elim r [ return code d ↦ ok (code, d) | go_on status d ↦ rec status d ]
loop_on fs rec (_, c) = ok (no_request, c)

pub process_read_loop : Files → (fuel : ℕ) → LineStatus → HttpConn → Run (HttpCode × HttpConn)
process_read_loop fs zero status c = exhausted
process_read_loop fs (suc f) status c =
    checked_access (next_line status c) (loop_on fs (process_read_loop fs f))

-- Each line moves the checked index, and a round on the body ends the scan of it.
abbrev pub read_fuel : HttpConn → ℕ
read_fuel c = c.read_idx + c.read_idx + 3

unfoldable pub process_read : Files → HttpConn → Run (HttpCode × HttpConn)
unfolding process_read_loop loop_on next_line
process_read fs c = process_read_loop fs (read_fuel c) line_ok c
