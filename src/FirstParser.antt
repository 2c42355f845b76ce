-- ===== src/FirstParser.antt =====
-- The first version of the request parser, socket/http/http_readParse.cpp. A `char *` is the bytes
-- from there to the end of the buffer; none is a string that runs past that end.
pub mod Cut
pub mod Version
pub mod Accepts
mod Tests
use unix_programming.Base.{
  ℕ, ◌+◌, ◌&&◌, ◌==◌, Bool, true, false, Option, none, some, List, [], ◌∷◌, set, ◌>>=◌,
  if◌then◌else◌,
}
use unix_programming.Base.Text.{codes, c_string, strchr}
use unix_programming.HttpConn.ParseLine
use unix_programming.HttpConn.ParseLine.{LineStatus}

pub data CheckState : Type 0 where
  requestline header : CheckState

-- the results that the file's functions give
pub data HttpCode : Type 0 where
  no_request bad_request : HttpCode

-- parse_line: the loop of http_conn::parse_line, on a checked_index of its own that its caller does
-- not see
unfoldable pub parse_line : List ℕ → (checked_index read_index : ℕ) → Option (LineStatus × List ℕ)
parse_line buffer checked_index read_index = do
  r ← ParseLine.parse_line buffer checked_index read_index
  some (r.status, r.buf)

-- strcmp(s, t) == 0
unfoldable pub same_text : List ℕ → List ℕ → Bool
same_text [] [] = true
same_text [] (y ∷ ys) = false
same_text (x ∷ xs) [] = false
same_text (x ∷ xs) (y ∷ ys) = (x == y) && same_text xs ys

-- the line's buffer, the code and checkState behind parse_requestline
pub record Parsed : Type 0 where
  pub code : HttpCode
  pub state : CheckState
  pub temp : List ℕ

abbrev pub parsed : HttpCode → CheckState → List ℕ → Option Parsed
parsed code state temp = some (record { code = code; state = state; temp = temp })

-- the version: `url` is the offset of the string behind the method
unfoldable pub parse_version : (url : ℕ) → List ℕ → CheckState → Option Parsed
parse_version url temp state = do
  s ← c_string temp url
  elim (strchr 32 s) [
    | none ↦ parsed bad_request state temp
    | some k ↦ do
      let temp = set temp (url + k) 0
      version ← c_string temp (url + k + 1)
      if same_text version (codes "HTTP/1.1")
          then parsed no_request header temp
          else parsed bad_request state temp
  ]

unfoldable pub parse_requestline : List ℕ → CheckState → Option Parsed
parse_requestline temp state = do
  s ← c_string temp 0
  elim (strchr 32 s) [
    | none ↦ parsed bad_request state temp
    | some k ↦ do
      let temp = set temp k 0
      method ← c_string temp 0
      if same_text method (codes "GET")
          then parse_version (k + 1) temp state
          else parsed bad_request state temp
  ]
