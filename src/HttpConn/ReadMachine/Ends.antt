-- ===== src/HttpConn/ReadMachine/Ends.antt =====
-- The state machine of socket/pool/http_conn.cpp ends, and keeps its indices in order.
use unix_programming.Base.{
  ℕ, zero, suc, ◌+◌, ◌-◌, ◌*◌, ◌≤◌, ◌<◌, ◌≡◌, refl, ◌∙◌, inl, inr, ◌&&◌, Bool, true, false, Option,
  none, some, arith, Bool-cases, if◌then◌else◌, length, length-set, set, Run, ok, checked_access,
  OnSome, Gives, gives, Gives-inv, ◌⊎◌, Ends,
}
use unix_programming.HttpConn.{
  HttpConn, HttpCode, requestline, header, connect, CheckState, Files, read_buffer_size,
}
use unix_programming.HttpConn.ParseLine.{line_ok, line_bad, line_open, LineStatus, Scanned}
use unix_programming.HttpConn.ParseLine.Correct.{Found, parse_line-Found}
use unix_programming.HttpConn.Request.{
  Handled, check_url, check_version, parse_request_line, pares_headers, pares_content,
}
use unix_programming.HttpConn.ReadMachine.{
  do_request, is_connect, is_ok, next_line, Round, return, go_on, after_request_line, after_header,
  after_content, handle_line, line_round, loop_on, process_read_loop, process_read,
}

-- the indices of a connection, and its buffer
pub record IsConn (c : HttpConn) : Type 0 where
  pub size : length c.read_buf ≡ read_buffer_size
  pub start : c.start_line ≤ c.checked_idx
  pub checked : c.checked_idx ≤ c.read_idx
  pub read : c.read_idx ≤ read_buffer_size

-- what no handler of a line changes
record Same (c d : HttpConn) : Type 0 where
  size : length d.read_buf ≡ length c.read_buf
  start : d.start_line ≡ c.start_line
  checked : d.checked_idx ≡ c.checked_idx
  read : d.read_idx ≡ c.read_idx

abbrev KeepsSame : HttpConn → Handled → Type 0
KeepsSame c = OnSome (λ r. Same c r.1)

check_url-Same : (url : ℕ) (c : HttpConn) → KeepsSame c (check_url url c)
unfolding check_url
check_url-Same url c = ground arith

check_version-Same : (url : ℕ) (c : HttpConn) → KeepsSame c (check_version url c)
unfolding check_version
check_version-Same url c = grind (arith, check_url-Same, length-set)

parse_request_line-Same : (text : ℕ) (c : HttpConn) → KeepsSame c (parse_request_line text c)
unfolding parse_request_line
parse_request_line-Same text c = grind (arith, check_version-Same, length-set)

pares_headers-Same : (text : ℕ) (c : HttpConn) → KeepsSame c (pares_headers text c)
unfolding pares_headers
pares_headers-Same text c = ground arith

pares_content-Same : (text : ℕ) (c : HttpConn) → KeepsSame c (pares_content text c)
unfolding pares_content
pares_content-Same text c = grind (arith, length-set)

do_request-Same : (fs : Files) (c : HttpConn) → KeepsSame c (do_request fs c)
unfolding do_request
do_request-Same fs c = ground arith

-- what a round changes: the start of the line moves up to the checked index
record Moved (c d : HttpConn) : Type 0 where
  size : length d.read_buf ≡ length c.read_buf
  start : d.start_line ≡ c.checked_idx
  checked : d.checked_idx ≡ c.checked_idx
  read : d.read_idx ≡ c.read_idx

-- A round on the body that goes on also ends the scan of it.
abbrev RoundOf : HttpConn → Round → Type 0
RoundOf c (return code d) = Moved c d
RoundOf c (go_on status d) = Moved c d × (is_connect c.check_state ≡ true → is_ok status ≡ false)

handle_line-RoundOf :
    (fs : Files) (state : CheckState) (c : HttpConn)
    → c.check_state ≡ state
    → OnSome
        (RoundOf c)
        (handle_line fs state c.start_line (record c { start_line = c.checked_idx }))
unfolding handle_line after_request_line after_header after_content
handle_line-RoundOf fs requestline c e =
    let d = record c { start_line = c.checked_idx } in
    ground (arith, parse_request_line-Same c.start_line d)
handle_line-RoundOf fs header c e =
    let d = record c { start_line = c.checked_idx } in
    grind (arith, pares_headers-Same c.start_line d, do_request-Same)
handle_line-RoundOf fs connect c e =
    let d = record c { start_line = c.checked_idx } in
    grind (arith, pares_content-Same c.start_line d, do_request-Same)

-- A line that is there moves the checked index, unless the state is the body's.
record Next (status : LineStatus) (c : HttpConn) (n : LineStatus × HttpConn) : Type 0 where
  valid : IsConn n.1
  state : n.1.check_state ≡ c.check_state
  read : n.1.read_idx ≡ c.read_idx
  moves :
      is_ok n.0 ≡ true
      → ((n.1.checked_idx ≡ c.checked_idx) × ((is_connect c.check_state && is_ok status) ≡ true))
        ⊎ (c.checked_idx < n.1.checked_idx)

Found-Next :
    (status : LineStatus) (c : HttpConn) (r : Scanned) (st : LineStatus)
    → IsConn c
    → Found c.read_buf c.checked_idx c.read_idx r st
    → Next status c (st, record c { read_buf = r.buf; checked_idx = r.checked })
Found-Next status c r line_ok v (e, from, below, cr, lf, plain, same, at) = record {
  valid = record {
    size = rw (same, length-set (set c.read_buf e 0), length-set c.read_buf) v.size;
    start = omega arith;
    checked = omega arith;
    read = v.read;
  };
  state = refl;
  read = refl;
  moves = λ ok. inr (omega arith);
}
Found-Next status c r line_bad v (same, from, below, plain, why) = record {
  valid = record {
    size = rw same v.size;
    start = omega arith;
    checked = omega arith;
    read = v.read;
  };
  state = refl;
  read = refl;
  moves = λ ok. cc;
}
Found-Next status c r line_open v (same, from, plain, why) = record {
  valid = record {
    size = rw same v.size;
    start = omega arith;
    checked = omega arith;
    read = v.read;
  };
  state = refl;
  read = refl;
  moves = λ ok. cc;
}

next_line-Next :
    (status : LineStatus) (c : HttpConn) → IsConn c → Gives (Next status c) (next_line status c)
unfolding next_line
next_line-Next status c v = elim (Bool-cases (is_connect c.check_state && is_ok status)) [
  | inl body ↦
      rw body
        (gives (record { valid = v; state = refl; read = refl; moves = λ ok. inl (refl, body) }))
  | inr line ↦
      let (r, run, found) =
        Gives-inv
          (parse_line-Found c.read_buf c.checked_idx c.read_idx (rw v.size v.read) v.checked) in
      rw (line, run) (gives (Found-Next status c r r.status v found))
]

abbrev EndsIsConn : Run (HttpCode × HttpConn) → Type 0
EndsIsConn = Ends (λ r. IsConn r.1)

-- the rounds left
abbrev rounds_left : LineStatus → HttpConn → ℕ
rounds_left status c =
    2 * (c.read_idx - c.checked_idx) + (if is_connect c.check_state && is_ok status then 1 else 0)

Moved-IsConn : (d e : HttpConn) → IsConn d → Moved d e → IsConn e
Moved-IsConn d e v m = record {
  size = m.size ∙ v.size;
  start = omega arith;
  checked = omega arith;
  read = omega arith;
}

rounds_fall :
    (f : ℕ) (status : LineStatus) (c : HttpConn) (st : LineStatus) (d e : HttpConn)
    → IsConn d
    → d.check_state ≡ c.check_state
    → d.read_idx ≡ c.read_idx
    → ((d.checked_idx ≡ c.checked_idx) × ((is_connect c.check_state && is_ok status) ≡ true))
      ⊎ (c.checked_idx < d.checked_idx)
    → Moved d e
    → (is_connect d.check_state ≡ true → is_ok st ≡ false)
    → rounds_left status c < suc f
    → rounds_left st e < f
rounds_fall f status c st d e v state read (inl (same, body)) m stops h =
    let first : is_connect d.check_state ≡ true = ground arith in
    let stopped = stops first in
    let last : (is_connect e.check_state && is_ok st) ≡ false = ground arith in
    let h' = rw body at h in rw last (omega arith)
rounds_fall f status c st d e v state read (inr on) m stops h =
    omega (arith, flag (is_connect e.check_state && is_ok st))
  where
    flag : (b : Bool) → (if b then 1 else 0) ≤ 1
    flag true = omega arith
    flag false = omega arith

loop_on-IsConn :
    (fs : Files) (f : ℕ) (status : LineStatus) (c : HttpConn)
    (rec : LineStatus → HttpConn → Run (HttpCode × HttpConn)) (st : LineStatus) (d : HttpConn)
    → Next status c (st, d)
    → rounds_left status c < suc f
    → ((st : LineStatus) (e : HttpConn)
        → IsConn e
        → rounds_left st e < f
        → Ends (λ r. IsConn r.1) (rec st e))
    → Ends (λ r. IsConn r.1) (loop_on fs rec (st, d))
unfolding loop_on line_round
loop_on-IsConn fs f status c rec line_bad d n h ih = n.valid
loop_on-IsConn fs f status c rec line_open d n h ih = n.valid
loop_on-IsConn fs f status c rec line_ok d n h ih =
    by_round (handle_line fs d.check_state d.start_line (record d { start_line = d.checked_idx }))
      (handle_line-RoundOf fs d.check_state d refl)
  where
    by_round :
        (r : Option Round)
        → OnSome (RoundOf d) r
        → EndsIsConn (
            checked_access r
              λ r. elim r [ return code d ↦ ok (code, d) | go_on status d ↦ rec status d ])
    by_round none k = tt
    by_round (some (return code e)) k = Moved-IsConn d e n.valid k
    by_round (some (go_on st e)) k =
        ih st e (Moved-IsConn d e n.valid k.0)
          (rounds_fall f status c st d e n.valid n.state n.read (n.moves refl) k.0 k.1 h)

process_read_loop-IsConn :
    (fs : Files) (f : ℕ) (status : LineStatus) (c : HttpConn)
    → IsConn c
    → rounds_left status c < f
    → Ends (λ r. IsConn r.1) (process_read_loop fs f status c)
unfolding process_read_loop
process_read_loop-IsConn fs zero status c v h = absurd (omega arith)
process_read_loop-IsConn fs (suc f) status c v h =
    let ((st, d), run, n) = Gives-inv (next_line-Next status c v) in
    rw run (
      loop_on-IsConn fs f status c (process_read_loop fs f) st d n h
        λ st e v' h'. process_read_loop-IsConn fs f st e v' h')

-- On a connection whose indices are in order within the buffer (start_line <= checked_idx <=
-- read_idx <= READ_BUFFER_SIZE), the loop of process_read ends within the model's fuel, whatever
-- the bytes and the files, and it leaves the indices in order, unless it has met undefined
-- behaviour.
pub process_read-IsConn :
    (fs : Files) (c : HttpConn) → IsConn c → Ends (λ r. IsConn r.1) (process_read fs c)
unfolding process_read
process_read-IsConn fs c v =
    process_read_loop-IsConn fs (c.read_idx + c.read_idx + 3) line_ok c v (ground arith)
