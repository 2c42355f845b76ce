-- ===== src/Rio/Calls.antt =====
-- read(2) and write(2), which csapp/rio.c calls: parameters of the model, with what their manual
-- pages promise. `S` is the state of the descriptor and of all behind it.
use unix_programming.Base.{
  ℕ, ◌≤◌, ◌<◌, ◌≡◌, Bool, true, false, Option, none, some, List, [], ◌∷◌, ◌++◌, length, take,
}

-- How a `read` ends: some bytes; 0 at the end of the file; -1 with EINTR; -1 with another errno.
pub data Outcome : Type 0 where
  got : ℕ → List ℕ → Outcome
  eof intr fail : Outcome

-- What `read` may do to the bytes still to come (`pending`) and to the number of signals still to
-- arrive (`signals`).
abbrev pub IsRead : ℕ → Outcome → List ℕ → List ℕ → ℕ → ℕ → Type 0
IsRead n (got c cs) before after sig sig' =
    (before ≡ (c ∷ cs) ++ after) × (length (c ∷ cs) ≤ n) × (sig' ≤ sig)
IsRead n eof before after sig sig' = (before ≡ []) × (after ≡ []) × (sig' ≤ sig)
IsRead n intr before after sig sig' = (before ≡ after) × (sig' < sig)
IsRead n fail before after sig sig' = (before ≡ after) × (sig' ≤ sig)

pub record ReadCall (S : Type 0) : Type 0 where
  pub read : S → ℕ → Outcome × S
  pub pending : S → List ℕ
  pub signals : S → ℕ
  pub read-IsRead :
      (s : S) (n : ℕ)
      → 0 < n
      → IsRead n (read s n).0 (pending s) (pending (read s n).1) (signals s) (signals (read s n).1)

-- `write` returns a count or -1 (`none`); the flag says whether errno is EINTR afterwards. A
-- count leaves errno alone, so the flag may be left over from an earlier call.
abbrev pub IsWrite : List ℕ → Option ℕ → Bool → List ℕ → List ℕ → ℕ → ℕ → Type 0
IsWrite buf (some k) e before after sig sig' =
    (k ≤ length buf)
    × (after ≡ before ++ take k buf)
    × (sig' ≤ sig)
    × (k ≡ 0 → e ≡ true → sig' < sig)
IsWrite buf none true before after sig sig' = (after ≡ before) × (sig' < sig)
IsWrite buf none false before after sig sig' = (after ≡ before) × (sig' ≤ sig)

pub record Written (S : Type 0) : Type 0 where
  pub count : Option ℕ
  pub is_eintr : Bool
  pub after : S

pub record WriteCall (S : Type 0) : Type 0 where
  pub write : S → List ℕ → Written S
  pub sent : S → List ℕ
  pub signals : S → ℕ
  pub write-IsWrite :
      (s : S) (buf : List ℕ)
      → IsWrite buf
          (write s buf).count
          (write s buf).is_eintr
          (sent s)
          (sent (write s buf).after)
          (signals s)
          (signals (write s buf).after)
