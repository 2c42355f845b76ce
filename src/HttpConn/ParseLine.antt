-- ===== src/HttpConn/ParseLine.antt =====
-- The line scanner: http_conn::parse_line of socket/pool/http_conn.cpp, and its first version,
-- parse_line of socket/http/http_readParse.cpp, which runs the same loop over its parameters.
pub mod Correct
use unix_programming.Base.{
  ℕ, zero, suc, ◌+◌, ◌-◌, ◌<◌, ◌&&◌, Option, none, some, List, ltb, ◌==◌, if◌then◌else◌, get_elem?,
  set, ◌>>=◌,
}

pub data LineStatus : Type 0 where
  line_ok line_bad line_open : LineStatus

pub record Scanned : Type 0 where
  pub status : LineStatus
  pub buf : List ℕ
  pub checked : ℕ

abbrev pub scanned : LineStatus → List ℕ → ℕ → Scanned
scanned status buf checked = record { status = status; buf = buf; checked = checked }

-- a carriage return at `checked`
unfoldable pub at_cr : List ℕ → (checked read : ℕ) → Option Scanned
at_cr buf checked read = if checked + 1 == read then some (scanned line_open buf checked) else do
  next ← get_elem? buf (checked + 1)
  some (
      if next == 10
      then scanned line_ok (set (set buf checked 0) (checked + 1) 0) (checked + 2)
      else scanned line_bad buf checked)

-- a newline at `checked`
unfoldable pub at_lf : List ℕ → (checked : ℕ) → Option Scanned
at_lf buf checked =
    if ltb 1 checked
    then (do
      before ← get_elem? buf (checked - 1)
      some (
          if before == 13
          then scanned line_ok (set (set buf (checked - 1) 0) checked 0) (checked + 1)
          else scanned line_bad buf checked))
    else some (scanned line_bad buf checked)

-- the `for` loop: its first argument is read - checked
pub parse_line_loop : (left : ℕ) → List ℕ → (checked read : ℕ) → Option Scanned
parse_line_loop zero buf checked read = some (scanned line_open buf checked)
parse_line_loop (suc left) buf checked read = do
  temp ← get_elem? buf checked
  let rest = parse_line_loop left buf (checked + 1) read
  if temp == 13 then at_cr buf checked read else if temp == 10 then at_lf buf checked else rest

unfoldable pub parse_line : List ℕ → (checked read : ℕ) → Option Scanned
unfolding parse_line_loop at_cr at_lf
parse_line buf checked read = parse_line_loop (read - checked) buf checked read
