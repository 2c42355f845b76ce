-- ===== src/HttpConn/ReadMachine/Socket.antt =====
-- The parser of socket/pool/http_conn.cpp leaves m_sockfd alone.
use unix_programming.Base.{
  ℕ, zero, suc, ◌≡◌, refl, ◌∙◌, Option, none, some, arith, Run, ok, checked_access, OnSome, OnOk,
}
use unix_programming.HttpConn.{HttpConn, HttpCode, requestline, header, connect, CheckState, Files}
use unix_programming.HttpConn.ParseLine.{line_ok, line_bad, line_open, LineStatus}
use unix_programming.HttpConn.Request.{
  Handled, check_url, check_version, parse_request_line, pares_headers, pares_content,
}
use unix_programming.HttpConn.ReadMachine.{
  do_request, next_line, Round, return, go_on, after_request_line, after_header, after_content,
  handle_line, line_round, loop_on, process_read_loop, process_read,
}

abbrev OnSocket : HttpConn → HttpConn → Type 0
OnSocket c d = d.sockfd ≡ c.sockfd

abbrev KeepsSocket : HttpConn → Handled → Type 0
KeepsSocket c = OnSome (λ r. OnSocket c r.1)

check_url-OnSocket : (url : ℕ) (c : HttpConn) → KeepsSocket c (check_url url c)
unfolding check_url
check_url-OnSocket url c = ground arith

check_version-OnSocket : (url : ℕ) (c : HttpConn) → KeepsSocket c (check_version url c)
unfolding check_version
check_version-OnSocket url c = grind (arith, check_url-OnSocket)

parse_request_line-OnSocket : (text : ℕ) (c : HttpConn) → KeepsSocket c (parse_request_line text c)
unfolding parse_request_line
parse_request_line-OnSocket text c = grind (arith, check_version-OnSocket)

pares_headers-OnSocket : (text : ℕ) (c : HttpConn) → KeepsSocket c (pares_headers text c)
unfolding pares_headers
pares_headers-OnSocket text c = ground arith

pares_content-OnSocket : (text : ℕ) (c : HttpConn) → KeepsSocket c (pares_content text c)
unfolding pares_content
pares_content-OnSocket text c = ground arith

do_request-OnSocket : (fs : Files) (c : HttpConn) → KeepsSocket c (do_request fs c)
unfolding do_request
do_request-OnSocket fs c = ground arith

abbrev RoundOn : HttpConn → Round → Type 0
RoundOn c (return code d) = OnSocket c d
RoundOn c (go_on status d) = OnSocket c d

handle_line-RoundOn :
    (fs : Files) (state : CheckState) (text : ℕ) (c : HttpConn)
    → OnSome (RoundOn c) (handle_line fs state text c)
unfolding handle_line after_request_line after_header after_content
handle_line-RoundOn fs requestline text c = ground (arith, parse_request_line-OnSocket text c)
handle_line-RoundOn fs header text c =
    grind (arith, pares_headers-OnSocket text c, do_request-OnSocket)
handle_line-RoundOn fs connect text c =
    grind (arith, pares_content-OnSocket text c, do_request-OnSocket)

abbrev OnFd : Option ℕ → Run (HttpCode × HttpConn) → Type 0
OnFd fd = OnOk (λ r. r.1.sockfd ≡ fd)

next_line-OnSocket :
    (status : LineStatus) (c : HttpConn) → OnSome (λ n. OnSocket c n.1) (next_line status c)
unfolding next_line
next_line-OnSocket status c = ground arith

loop_on-OnFd :
    (fs : Files) (rec : LineStatus → HttpConn → Run (HttpCode × HttpConn)) (st : LineStatus)
    (d : HttpConn) (fd : Option ℕ)
    → d.sockfd ≡ fd
    → ((st : LineStatus) (e : HttpConn) → e.sockfd ≡ fd → OnFd fd (rec st e))
    → OnFd fd (loop_on fs rec (st, d))
unfolding loop_on line_round
loop_on-OnFd fs rec line_bad d fd h ih = h
loop_on-OnFd fs rec line_open d fd h ih = h
loop_on-OnFd fs rec line_ok d fd h ih =
    by_round (handle_line fs d.check_state d.start_line (record d { start_line = d.checked_idx }))
      (handle_line-RoundOn fs d.check_state d.start_line (record d { start_line = d.checked_idx }))
  where
    by_round :
        (r : Option Round)
        → OnSome (RoundOn d) r
        → OnFd fd (
            checked_access r
              λ r. elim r [ return code d ↦ ok (code, d) | go_on status d ↦ rec status d ])
    by_round none k = tt
    by_round (some (return code e)) k = k ∙ h
    by_round (some (go_on st e)) k = ih st e (k ∙ h)

process_read_loop-OnFd :
    (fs : Files) (f : ℕ) (status : LineStatus) (c : HttpConn) (fd : Option ℕ)
    → c.sockfd ≡ fd
    → OnFd fd (process_read_loop fs f status c)
unfolding process_read_loop
process_read_loop-OnFd fs zero status c fd h = tt
process_read_loop-OnFd fs (suc f) status c fd h =
    by_line (next_line status c) (next_line-OnSocket status c)
      λ st e q. process_read_loop-OnFd fs f st e fd q
  where
    by_line :
        (n : Option (LineStatus × HttpConn))
        → OnSome (λ n. OnSocket c n.1) n
        → ((st : LineStatus) (e : HttpConn) → e.sockfd ≡ fd → OnFd fd (process_read_loop fs f st e))
        → OnFd fd (checked_access n (loop_on fs (process_read_loop fs f)))
    by_line none k ih = tt
    by_line (some (st, d)) k ih = loop_on-OnFd fs (process_read_loop fs f) st d fd (k ∙ h) ih

pub process_read-OnOk :
    (fs : Files) (c : HttpConn) → OnOk (λ r. r.1.sockfd ≡ c.sockfd) (process_read fs c)
unfolding process_read
process_read-OnOk fs c = process_read_loop-OnFd fs _ line_ok c c.sockfd refl
