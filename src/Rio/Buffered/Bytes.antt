-- ===== src/Rio/Buffered/Bytes.antt =====
-- rio_readnb of socket/csapp/rio.c against the stream.
use unix_programming.Base.{
  ℕ, zero, suc, ◌+◌, ◌-◌, ◌≤◌, ◌<◌, ◌≡◌, refl, sym, ◌∙◌, inl, inr, Option, List, [], ◌++◌,
  append_assoc, append-nil, arith, Bool-cases, ltb, ◌==◌, length, length-append, nil_of_length,
  Gives, gives, Gives-map, Gives-inv,
}
use unix_programming.Rio.Calls.{fail, ReadCall}
use unix_programming.Rio.{Status, count, failed}
use unix_programming.Rio.Buffered.{RioBuffer, Got, readnb_round, readnb_loop, rio_readnb}
use unix_programming.Rio.Buffered.Refill.{IsRio, stream, IsGot, rio_read-stream}

module _ {S : Type 0} (call : ReadCall S) where
  abbrev pub IsFilled : ℕ → List ℕ → RioBuffer → S → Status → Type 0
  IsFilled n buf rp s (count k) = (k ≡ length buf) × (k ≤ n) × (k < n → stream call rp s ≡ [])
  IsFilled n buf rp s failed = (length buf < n) × ((u : S) × (m : ℕ) × (call.read u m ≡ (fail, s)))

  record Fills (n : ℕ) (rp : RioBuffer) (s : S) (buf : List ℕ) (g : Got S) : Type 0 where
    new : List ℕ
    filled : g.bytes ≡ buf ++ new
    moved : stream call rp s ≡ new ++ stream call g.rp g.after
    valid : IsRio g.rp
    result : IsFilled n g.bytes g.rp g.after g.status

  round-Fills :
      (n nleft m : ℕ) (rec : RioBuffer → S → ℕ → List ℕ → Option (Got S)) (rp : RioBuffer) (s : S)
      (buf : List ℕ) (st : Status) (g : Got S)
      → IsRio g.rp
      → call.signals g.after ≤ call.signals s
      → IsGot call nleft rp s g st
      → length buf + nleft ≡ n
      → 0 < nleft
      → nleft < suc m
      → ((rp : RioBuffer) (t : S) (k : ℕ) (b : List ℕ)
          → IsRio rp
          → call.signals t ≤ call.signals s
          → k < m
          → length b + k ≡ n
          → Gives (Fills n rp t b) (rec rp t k b))
      → Gives (Fills n rp s buf) (readnb_round n rec nleft buf st g)
  unfolding readnb_round
  round-Fills n nleft m rec rp s buf (count nread) g v less is e pos h ih =
      elim (Bool-cases (nread == 0)) [
        | inl stop ↦ rw stop (
            gives (record {
              new = [];
              filled = sym (append-nil buf);
              moved = rw (nil_of_length g.bytes (ground arith)) at is.0;
              valid = v;
              result = (omega arith, omega arith, λ short. is.3 (ground arith) pos);
            }))
        | inr more ↦ rw more (
            Gives-map
              (ih g.rp g.after (nleft - nread) (buf ++ g.bytes) v less (ground arith)
                (omega (arith, length-append buf g.bytes)))
              λ r f. record {
                new = g.bytes ++ f.new;
                filled = f.filled ∙ append_assoc buf g.bytes f.new;
                moved = simp (is.0, f.moved, append_assoc);
                valid = f.valid;
                result = f.result;
              })
      ]
  round-Fills n nleft m rec rp s buf failed g v less is e pos h ih = gives (record {
    new = [];
    filled = sym (append-nil buf);
    moved = is.1;
    valid = v;
    result = (omega arith, is.2);
  })

  readnb_loop-Fills :
      (n fuel f : ℕ) (rp : RioBuffer) (s : S) (nleft : ℕ) (buf : List ℕ)
      → IsRio rp
      → suc (call.signals s) < fuel
      → nleft < f
      → length buf + nleft ≡ n
      → Gives (Fills n rp s buf) (readnb_loop call n fuel f rp s nleft buf)
  unfolding readnb_loop
  readnb_loop-Fills n fuel zero rp s nleft buf v enough h e = absurd (omega arith)
  readnb_loop-Fills n fuel (suc f) rp s nleft buf v enough h e = elim (Bool-cases (ltb 0 nleft)) [
    | inl more ↦
        let (g, read, is) = Gives-inv (rio_read-stream call fuel nleft rp s v enough) in
        rw (more, read, readnb_loop)
          (round-Fills n nleft f (readnb_loop call n fuel f) rp s buf g.status g is.valid is.signals
            is.result e (ground arith) h
            λ rp t k b v' less. readnb_loop-Fills n fuel f rp t k b v' (omega arith))
    | inr stop ↦ rw stop (
        gives (record {
          new = [];
          filled = sym (append-nil buf);
          moved = refl;
          valid = v;
          result = (ground arith, ground arith, λ short. absurd (ground arith));
        }))
  ]

  -- On a well-formed rio_t, rio_readnb stores the next bytes of the stream (those unread in the
  -- buffer, then those behind the descriptor), and the stream goes on behind them. A count is their
  -- number, at most n, and less than n only where the stream has ended; -1 comes from a read that
  -- failed with an errno other than EINTR. Fuel above the number of signals by two is enough.
  pub rio_readnb-stream :
      (fuel n : ℕ) (rp : RioBuffer) (s : S)
      → IsRio rp
      → suc (call.signals s) < fuel
      → Gives
          (λ g.
            (stream call rp s ≡ g.bytes ++ stream call g.rp g.after)
            × IsRio g.rp
            × IsFilled n g.bytes g.rp g.after g.status)
          (rio_readnb call fuel rp s n)
  unfolding rio_readnb
  rio_readnb-stream fuel n rp s v h =
      Gives-map (readnb_loop-Fills n fuel (n + 1) rp s n [] v h (omega arith) (omega arith))
        λ g f. (rw f.filled f.moved, f.valid, f.result)
