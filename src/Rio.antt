-- ===== src/Rio.antt =====
-- The robust I/O package, socket/csapp/rio.c. The buffer that a function fills is the list of the
-- bytes written to it so far; `none` is the model's fuel running out, which the theorems exclude.
pub mod Calls
pub mod Readn
pub mod Writen
pub mod Buffered
mod Tests
use unix_programming.Base.{
  ℕ, zero, suc, ◌+◌, ◌-◌, ◌≤◌, ◌<◌, ◌≡◌, Bool, true, false, Option, none, some, List, [], ◌∷◌, ◌++◌,
  ltb, ◌==◌, if◌then◌else◌, length, take, drop, replicate,
}
use unix_programming.Rio.Calls.{Outcome, got, eof, intr, fail, ReadCall, WriteCall, Written}

-- what a function returns: the count, or -1
pub data Status : Type 0 where
  count : ℕ → Status
  failed : Status

pub record Filled (S : Type 0) : Type 0 where
  pub status : Status
  pub buf : List ℕ
  pub after : S

-- the body of the loop of rio_readn behind its `read`; `rec` is the next round
unfoldable pub readn_round :
    {S : Type 0} (n : ℕ)
    → (S → ℕ → List ℕ → Option (Filled S))
    → ℕ
    → List ℕ
    → Outcome
    → S
    → Option (Filled S)
readn_round n rec nleft buf (got c cs) s = rec s (nleft - length (c ∷ cs)) (buf ++ (c ∷ cs))
readn_round n rec nleft buf eof s =
    some (record { status = count (n - nleft); buf = buf; after = s })
readn_round n rec nleft buf intr s = rec s (nleft - 0) buf
readn_round n rec nleft buf fail s = some (record { status = failed; buf = buf; after = s })

module _ {S : Type 0} (call : ReadCall S) where
  pub readn_loop : (n fuel : ℕ) → S → (nleft : ℕ) → List ℕ → Option (Filled S)
  readn_loop n zero s nleft buf = none
  readn_loop n (suc f) s nleft buf =
      let r = call.read s nleft in
      let round = readn_round n (readn_loop n f) nleft buf r.0 r.1 in
      if ltb 0 nleft
      then round
      else some (record { status = count (n - nleft); buf = buf; after = s })

  unfoldable pub rio_readn : (fuel : ℕ) → S → (n : ℕ) → Option (Filled S)
  unfolding readn_loop readn_round
  rio_readn fuel s n = readn_loop n fuel s n []

pub record Emptied (S : Type 0) : Type 0 where
  pub status : Status
  pub after : S

abbrev pub is_pos : Option ℕ → Bool
is_pos none = false
is_pos (some k) = ltb 0 k

abbrev pub or_zero : Option ℕ → ℕ
or_zero none = 0
or_zero (some k) = k

-- the body of the loop of rio_writen behind its `write`
unfoldable pub writen_round :
    {S : Type 0}
    → (S → ℕ → List ℕ → Option (Emptied S))
    → ℕ
    → List ℕ
    → Option ℕ
    → Bool
    → S
    → Option (Emptied S)
writen_round rec nleft bufp nwritten is_eintr s =
    if is_pos nwritten
    then rec s (nleft - or_zero nwritten) (drop (or_zero nwritten) bufp)
    else if is_eintr
    then rec s (nleft - 0) (drop 0 bufp)
    else some (record { status = failed; after = s })

module _ {S : Type 0} (call : WriteCall S) where
  pub writen_loop : (n fuel : ℕ) → S → (nleft : ℕ) → List ℕ → Option (Emptied S)
  writen_loop n zero s nleft bufp = none
  writen_loop n (suc f) s nleft bufp =
      let w = call.write s (take nleft bufp) in
      let round = writen_round (writen_loop n f) nleft bufp w.count w.is_eintr w.after in
      if ltb 0 nleft then round else some (record { status = count n; after = s })

  unfoldable pub rio_writen : (fuel : ℕ) → S → List ℕ → ℕ → Option (Emptied S)
  unfolding writen_loop writen_round
  rio_writen fuel s usrbuf n = writen_loop n fuel s n usrbuf
