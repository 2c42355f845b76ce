-- ===== src/HttpConn/Request.antt =====
-- Parsing one line of a request: parse_request_line, pares_headers and pares_content of
-- socket/pool/http_conn.cpp.
pub mod Line
use unix_programming.Base.{
  ℕ, ◌+◌, true, Option, none, some, List, ltb, ◌==◌, if◌then◌else◌, length, drop, set, get_elem?,
  ◌>>=◌, is_zero, add_int, leb_ℕ, offset,
}
use unix_programming.Base.Text.{
  codes, c_string, strpbrk, strspn, strchr, eq_nocase, prefix_nocase, atoi,
}
use unix_programming.HttpConn.{
  HttpConn, HttpCode, no_request, get_request, bad_request, header, connect, get,
}

-- A handler's result; none is undefined behaviour.
abbrev pub Handled : Type 0
Handled = Option (HttpCode × HttpConn)

abbrev pub reply : HttpCode → HttpConn → Handled
reply code c = some (code, c)

-- the end of parse_request_line: `url` is m_url behind the method and its blanks
unfoldable pub check_url : (url : ℕ) → HttpConn → Handled
check_url url c = do
  s ← c_string c.read_buf url
  let is_absolute = prefix_nocase s (codes "http://")
  let start : Option ℕ =
      (if is_absolute
        then elim (strchr b'/' (drop 7 s)) [ none ↦ none | some k ↦ some (url + 7 + k) ]
        else some url)
  let c = record c { url = start }
  elim start [
    | none ↦ reply bad_request c
    | some p ↦ do
      first ← get_elem? c.read_buf p
      if first == b'/'
          then reply no_request (record c { check_state = header })
          else reply bad_request c
  ]

-- the version: `url` is m_url with a 0 behind the method and the blanks skipped
unfoldable pub check_version : (url : ℕ) → HttpConn → Handled
unfolding check_url
check_version url c = do
  s ← c_string c.read_buf url
  elim (strpbrk s) [
    | none ↦ reply bad_request (record c { url = some url; version = none })
    | some k ↦ do
      let buf = set c.read_buf (url + k) 0
      blanks ← c_string buf (url + k + 1)
      let version = url + k + 1 + strspn blanks
      v ← c_string buf version
      let c = record c { read_buf = buf; url = some url; version = some version }
      if eq_nocase v (codes "HTTP/1.1") then check_url url c else reply bad_request c
  ]

unfoldable pub parse_request_line : (text : ℕ) → HttpConn → Handled
unfolding check_version
parse_request_line text c = do
  s ← c_string c.read_buf text
  elim (strpbrk s) [
    | none ↦ reply bad_request (record c { url = none })
    | some k ↦ do
      let buf = set c.read_buf (text + k) 0
      method ← c_string buf text
      let c = record c { read_buf = buf; url = some (text + k + 1) }
      if eq_nocase method (codes "GET")
          then (do
            rest ← c_string buf (text + k + 1)
            check_version (text + k + 1 + strspn rest) (record c { method = get }))
          else reply bad_request c
  ]

abbrev blanks_behind : List ℕ → ℕ → Option ℕ
blanks_behind buf p = do s ← c_string buf p; some (p + strspn s)

unfoldable pub pares_headers : (text : ℕ) → HttpConn → Handled
pares_headers text c = do
  s ← c_string c.read_buf text
  if length s == 0
      then (if is_zero c.content_length
          then reply get_request c
          else reply no_request (record c { check_state = connect }))
      else if prefix_nocase s (codes "Connection:")
      then (do
        p ← blanks_behind c.read_buf (text + 11)
        value ← c_string c.read_buf p
        reply no_request
            (if eq_nocase value (codes "keep-alive") then record c { linger = true } else c))
      else if prefix_nocase s (codes "Content-Length:")
      then (do
        p ← blanks_behind c.read_buf (text + 15)
        value ← c_string c.read_buf p
        n ← atoi value
        reply no_request (record c { content_length = n }))
      else if prefix_nocase s (codes "Host:")
      then (do
        p ← blanks_behind c.read_buf (text + 5)
        reply no_request (record c { host = some p }))
      else reply no_request c

-- a write to m_read_buf; none outside of it
abbrev pub store : List ℕ → ℕ → ℕ → Option (List ℕ)
store buf i v = if ltb i (length buf) then some (set buf i v) else none

unfoldable pub pares_content : (text : ℕ) → HttpConn → Handled
pares_content text c = do
  end ← add_int c.content_length c.checked_idx
  if leb_ℕ end c.read_idx
      then (do
        i ← offset text c.content_length
        buf ← store c.read_buf i 0
        reply get_request (record c { read_buf = buf }))
      else reply no_request c
