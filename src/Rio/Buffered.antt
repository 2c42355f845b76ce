-- ===== src/Rio/Buffered.antt =====
-- The buffered half of socket/csapp/rio.c: rio_t, rio_readinitb, rio_read, rio_readlineb,
-- rio_readnb.
pub mod Refill
pub mod Bytes
pub mod Line
use unix_programming.Base.{
  ℕ, zero, suc, ◌+◌, ◌-◌, ◌≤◌, ◌<◌, ◌≡◌, Option, none, some, List, [], ◌∷◌, ◌++◌, ltb, ◌==◌,
  if◌then◌else◌, length, take, drop,
}
use unix_programming.Rio.Calls.{Outcome, got, eof, intr, fail, ReadCall}
use unix_programming.Rio.{Status, count, failed, Filled, is_pos, or_zero}

abbrev pub rio_bufsize : ℕ
rio_bufsize = 8192

-- `cnt` is none for the -1 that a failed read leaves in rio_cnt; `ptr` is the offset of rio_bufptr
-- in rio_buf. The descriptor is the state that the calls carry.
pub record RioBuffer : Type 0 where
  pub cnt : Option ℕ
  pub ptr : ℕ
  pub buf : List ℕ

-- The content of rio_buf is what the memory held.
unfoldable pub rio_readinitb : List ℕ → RioBuffer
rio_readinitb memory = record { cnt = some 0; ptr = 0; buf = memory }

-- How the refill loop of rio_read ends: with a return value, or (none) with bytes to copy.
pub record Refilled (S : Type 0) : Type 0 where
  pub stopped : Option Status
  pub rp : RioBuffer
  pub after : S

pub record Got (S : Type 0) : Type 0 where
  pub status : Status
  pub bytes : List ℕ
  pub rp : RioBuffer
  pub after : S

unfoldable pub refill_round :
    {S : Type 0}
    → (RioBuffer → S → Option (Refilled S))
    → RioBuffer
    → Outcome
    → S
    → Option (Refilled S)
refill_round rec rp (got c cs) s =
    rec
      (record {
        cnt = some (length (c ∷ cs));
        ptr = 0;
        buf = (c ∷ cs) ++ drop (length (c ∷ cs)) rp.buf;
      })
      s
refill_round rec rp eof s =
    some (record { stopped = some (count 0); rp = record rp { cnt = some 0 }; after = s })
refill_round rec rp intr s = rec (record rp { cnt = none }) s
refill_round rec rp fail s =
    some (record { stopped = some failed; rp = record rp { cnt = none }; after = s })

-- the `cnt` of rio_read: the smaller of the bytes at hand and those asked for
unfoldable pub copied : ℕ → ℕ → ℕ
copied rio_cnt n = if ltb rio_cnt n then rio_cnt else n

-- the rest of rio_read, behind the loop
unfoldable pub copy_out : {S : Type 0} → ℕ → Option Status → RioBuffer → S → Got S
copy_out n (some status) rp s = record { status = status; bytes = []; rp = rp; after = s }
copy_out n none rp s =
    let cnt = copied (or_zero rp.cnt) n in
    record {
      status = count cnt;
      bytes = take cnt (drop rp.ptr rp.buf);
      rp = record rp { cnt = some (or_zero rp.cnt - cnt); ptr = rp.ptr + cnt };
      after = s;
    }

abbrev pub head_or_zero : List ℕ → ℕ
head_or_zero [] = 0
head_or_zero (c ∷ cs) = c

-- the body of the loop of rio_readnb behind its rio_read
unfoldable pub readnb_round :
    {S : Type 0}
    → ℕ
    → (RioBuffer → S → ℕ → List ℕ → Option (Got S))
    → ℕ
    → List ℕ
    → Status
    → Got S
    → Option (Got S)
readnb_round n rec nleft buf (count nread) g =
    if nread == 0
    then some (record g { status = count (n - nleft); bytes = buf })
    else rec g.rp g.after (nleft - nread) (buf ++ g.bytes)
readnb_round n rec nleft buf failed g = some (record g { status = failed; bytes = buf })

-- `*bufp = 0; return n - 1`
abbrev pub end_line : {S : Type 0} → ℕ → List ℕ → RioBuffer → S → Option (Got S)
end_line n buf rp s =
    some (record { status = count (n - 1); bytes = buf ++ 0 ∷ []; rp = rp; after = s })

-- INT_MAX
abbrev pub int_max : ℕ
int_max = 2147483647

-- The body of the loop of rio_readlineb behind its rio_read; 10 is the newline. Where a byte was
-- read, `++n` comes next in both cases; n is an int, and none is its overflow.
unfoldable pub readlineb_round :
    {S : Type 0}
    → (RioBuffer → S → ℕ → List ℕ → Option (Got S))
    → ℕ
    → List ℕ
    → Status
    → Got S
    → Option (Got S)
readlineb_round rec n buf (count rc) g =
    let c = head_or_zero g.bytes in
    if rc == 1
    then (if ltb n int_max
        then (if c == 10
            then end_line (n + 1) (buf ++ c ∷ []) g.rp g.after
            else rec g.rp g.after (n + 1) (buf ++ c ∷ []))
        else none)
    else if rc == 0
    then (if n == 1
        then some (record g { status = count 0; bytes = buf })
        else end_line n buf g.rp g.after)
    else some (record g { status = failed; bytes = buf })
readlineb_round rec n buf failed g = some (record g { status = failed; bytes = buf })

module _ {S : Type 0} (call : ReadCall S) where
  pub refill : (fuel : ℕ) → RioBuffer → S → Option (Refilled S)
  refill zero rp s = none
  refill (suc f) rp s =
      let r = call.read s rio_bufsize in
      let round = refill_round (refill f) rp r.0 r.1 in
      if is_pos rp.cnt then some (record { stopped = none; rp = rp; after = s }) else round

  unfoldable pub rio_read : (fuel : ℕ) → RioBuffer → S → ℕ → Option (Got S)
  unfolding refill refill_round copy_out copied
  rio_read fuel rp s n = elim (refill fuel rp s) [
    | none ↦ none
    | some r ↦ some (copy_out n r.stopped r.rp r.after)
  ]

  -- `fuel` is that of each rio_read, the next argument that of the loop
  pub readnb_loop : (n fuel f : ℕ) → RioBuffer → S → (nleft : ℕ) → List ℕ → Option (Got S)
  readnb_loop n fuel zero rp s nleft buf = none
  readnb_loop n fuel (suc f) rp s nleft buf =
      let round : Option (Got S) = elim (rio_read fuel rp s nleft) [
        | none ↦ none
        | some g ↦ readnb_round n (readnb_loop n fuel f) nleft buf g.status g
      ] in
      if ltb 0 nleft
      then round
      else some (record { status = count (n - nleft); bytes = buf; rp = rp; after = s })

  unfoldable pub rio_readnb : (fuel : ℕ) → RioBuffer → S → ℕ → Option (Got S)
  unfolding readnb_loop readnb_round rio_read
  rio_readnb fuel rp s n = readnb_loop n fuel (n + 1) rp s n []

  pub readlineb_loop : (maxlen fuel f : ℕ) → RioBuffer → S → (n : ℕ) → List ℕ → Option (Got S)
  readlineb_loop maxlen fuel zero rp s n buf = none
  readlineb_loop maxlen fuel (suc f) rp s n buf =
      let round : Option (Got S) = elim (rio_read fuel rp s 1) [
        | none ↦ none
        | some g ↦ readlineb_round (readlineb_loop maxlen fuel f) n buf g.status g
      ] in
      if ltb n maxlen then round else end_line n buf rp s

  unfoldable pub rio_readlineb : (fuel : ℕ) → RioBuffer → S → ℕ → Option (Got S)
  unfolding readlineb_loop readlineb_round rio_read
  rio_readlineb fuel rp s maxlen = readlineb_loop maxlen fuel (maxlen + 1) rp s 1 []
