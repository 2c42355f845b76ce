-- ===== src/Rio/Readn.antt =====
-- rio_readn of socket/csapp/rio.c, against the stream behind the descriptor.
use unix_programming.Base.{
  ℕ, zero, suc, ◌+◌, ◌-◌, ◌≤◌, ◌<◌, ◌≡◌, refl, sym, ◌∙◌, inl, inr, Option, List, [], ◌∷◌, ◌++◌,
  append_assoc, append-nil, arith, Bool-cases, ltb, length, length-append, Gives, gives, Gives-map,
}
use unix_programming.Rio.Calls.{Outcome, got, eof, intr, fail, IsRead, ReadCall}
use unix_programming.Rio.{Status, count, failed, Filled, readn_round, readn_loop, rio_readn}

module _ {S : Type 0} (call : ReadCall S) where
  -- The count is that of the bytes in the buffer, and is short only at the end of the stream;
  -- -1 comes from a `read` that failed.
  abbrev pub IsDone : ℕ → Status → List ℕ → S → Type 0
  IsDone n (count k) buf t = (k ≡ length buf) × (k ≤ n) × (k < n → call.pending t ≡ [])
  IsDone n failed buf t = (length buf < n) × ((u : S) × (m : ℕ) × (call.read u m ≡ (fail, t)))

  pub record Took (n : ℕ) (s : S) (buf : List ℕ) (r : Filled S) : Type 0 where
    pub new : List ℕ
    pub filled : r.buf ≡ buf ++ new
    pub moved : call.pending s ≡ new ++ call.pending r.after
    pub done : IsDone n r.status r.buf r.after

  Took-got :
      {n : ℕ} {s s' : S} {buf : List ℕ} {r : Filled S} (bs : List ℕ)
      → call.pending s ≡ bs ++ call.pending s'
      → Took n s' (buf ++ bs) r
      → Took n s buf r
  Took-got {buf} {r} bs e t = record {
    new = bs ++ t.new;
    filled = t.filled ∙ append_assoc buf bs t.new;
    moved = simp (e, t.moved, append_assoc);
    done = t.done;
  }

  round-Took :
      (n nleft m : ℕ) (rec : S → ℕ → List ℕ → Option (Filled S)) (s : S) (buf : List ℕ)
      (o : Outcome) (s' : S)
      → call.read s nleft ≡ (o, s')
      → IsRead nleft o (call.pending s) (call.pending s') (call.signals s) (call.signals s')
      → length buf + nleft ≡ n
      → 0 < nleft
      → nleft + call.signals s < suc m
      → ((t : S) (k : ℕ) (b : List ℕ)
          → k + call.signals t < m
          → length b + k ≡ n
          → Gives (Took n t b) (rec t k b))
      → Gives (Took n s buf) (readn_round n rec nleft buf o s')
  unfolding readn_round
  round-Took n nleft m rec s buf (got c cs) s' r i e pos h ih =
      Gives-map
        (ih s' (nleft - length (c ∷ cs)) (buf ++ (c ∷ cs)) (omega arith)
          (omega (arith, length-append buf (c ∷ cs))))
        λ a t. Took-got (c ∷ cs) i.0 t
  round-Took n nleft m rec s buf eof s' r i e pos h ih = gives (record {
    new = [];
    filled = sym (append-nil buf);
    moved = i.0 ∙ sym i.1;
    done = (omega arith, omega arith, λ short. i.1);
  })
  round-Took n nleft m rec s buf intr s' r i e pos h ih =
      Gives-map (ih s' (nleft - 0) buf (omega arith) (omega arith))
        λ a t. record { new = t.new; filled = t.filled; moved = i.0 ∙ t.moved; done = t.done }
  round-Took n nleft m rec s buf fail s' r i e pos h ih = gives (record {
    new = [];
    filled = sym (append-nil buf);
    moved = i.0;
    done = (omega arith, (s, nleft, r));
  })

  readn_loop-Took :
      (n f : ℕ) (s : S) (nleft : ℕ) (buf : List ℕ)
      → nleft + call.signals s < f
      → length buf + nleft ≡ n
      → Gives (Took n s buf) (readn_loop call n f s nleft buf)
  unfolding readn_loop
  readn_loop-Took n zero s nleft buf h e = absurd (omega arith)
  readn_loop-Took n (suc f) s nleft buf h e = elim (Bool-cases (ltb 0 nleft)) [
    | inl more ↦ rw more (
        round-Took n nleft f (readn_loop call n f) s buf (call.read s nleft).0 (call.read s nleft).1
          refl (call.read-IsRead s nleft (ground arith)) e (ground arith) h (readn_loop-Took n f))
    | inr stop ↦ rw stop (
        gives (record {
          new = [];
          filled = sym (append-nil buf);
          moved = refl;
          done = (ground arith, ground arith, λ short. absurd (ground arith));
        }))
  ]

  -- The bytes that rio_readn stores are the next ones of the stream, and what is left of the stream
  -- follows them. The count that it returns is their number, at most n, and less than n only if the
  -- stream has ended; it returns -1 only where a read failed with an errno other than EINTR, and
  -- then it has stored fewer than n. Fuel above n and the number of signals is enough.
  pub rio_readn-stream :
      (fuel : ℕ) (s : S) (n : ℕ)
      → n + call.signals s < fuel
      → Gives
          (λ r. (call.pending s ≡ r.buf ++ call.pending r.after) × IsDone n r.status r.buf r.after)
          (rio_readn call fuel s n)
  unfolding rio_readn
  rio_readn-stream fuel s n h =
      Gives-map (readn_loop-Took n fuel s n [] h (omega arith)) λ r t. (rw t.filled t.moved, t.done)
