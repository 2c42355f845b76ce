-- ===== src/Rio/Tests.antt =====
-- A scripted descriptor for the calls of socket/csapp/rio.c, tests, and the theorems at it.
use unix_programming.Base.{
  ℕ, zero, suc, ◌-◌, ◌≤◌, ◌<◌, ◌≡◌, refl, sym, ap, true, false, Option, none, some, List, [], ◌∷◌,
  ◌++◌, arith, length, take, drop, replicate, length-take, length-replicate, take-append-drop,
  take-length, min, Gives,
}
use unix_programming.Rio.Calls.{
  Outcome, got, eof, intr, IsRead, ReadCall, WriteCall, IsWrite, Written,
}
use unix_programming.Rio.{Status, count, rio_readn, rio_writen}
use unix_programming.Rio.Readn.{IsDone, rio_readn-stream}
use unix_programming.Rio.Writen.{IsSent, rio_writen-stream}
use unix_programming.Rio.Buffered.{
  RioBuffer, Got, rio_bufsize, rio_readinitb, rio_readnb, rio_readlineb,
}
use unix_programming.Rio.Buffered.Refill.{IsRio, stream}
use unix_programming.Rio.Buffered.Bytes.{IsFilled, rio_readnb-stream}
use unix_programming.Rio.Buffered.Line.{IsLine, rio_readlineb-IsLine}

-- the plan of the next calls (0: a signal, k: at most k bytes at once), and the bytes to come
record Script : Type 0 where
  plan : List ℕ
  bytes : List ℕ

abbrev script : List ℕ → List ℕ → Script
script plan bytes = record { plan = plan; bytes = bytes }

deliver : List ℕ → List ℕ → ℕ → Outcome × Script
deliver plan [] k = (eof, script plan [])
deliver plan (b ∷ bs) k = (got b (take (k - 1) bs), script plan (drop (k - 1) bs))

run : List ℕ → List ℕ → ℕ → Outcome × Script
unfolding deliver
run [] bs n = deliver [] bs n
run (zero ∷ plan) bs n = (intr, script plan bs)
run (suc k ∷ plan) bs n = deliver plan bs (min (suc k) n)

deliver-IsRead :
    (plan bs : List ℕ) (n k sig : ℕ)
    → 0 < k
    → k ≤ n
    → length plan ≤ sig
    → IsRead n
        (deliver plan bs k).0
        bs
        (deliver plan bs k).1.bytes
        sig
        (length (deliver plan bs k).1.plan)
unfolding deliver
deliver-IsRead plan [] n k sig p le less = (refl, refl, less)
deliver-IsRead plan (b ∷ bs) n k sig p le less =
    (ap (◌∷◌ b) (sym (take-append-drop (k - 1) bs)), omega (arith, length-take (k - 1) bs), less)

run-IsRead :
    (plan bs : List ℕ) (n : ℕ)
    → 0 < n
    → IsRead n
        (run plan bs n).0
        bs
        (run plan bs n).1.bytes
        (length plan)
        (length (run plan bs n).1.plan)
unfolding run
run-IsRead [] bs n h = deliver-IsRead [] bs n n 0 h (omega arith) (omega arith)
run-IsRead (zero ∷ plan) bs n h = (refl, omega arith)
run-IsRead (suc k ∷ plan) bs n h =
    deliver-IsRead plan bs n (min (suc k) n) (suc (length plan)) (omega arith) (omega arith)
      (omega arith)

abbrev scripted : ReadCall Script
scripted = record {
  read = λ s n. run s.plan s.bytes n;
  pending = λ s. s.bytes;
  signals = λ s. length s.plan;
  read-IsRead = λ s n h. run-IsRead s.plan s.bytes n h;
}

-- "hello", newline, "x", with a signal and short reads on the way
abbrev input : Script
input = script (0 ∷ 2 ∷ 0 ∷ 3 ∷ []) (104 ∷ 101 ∷ 108 ∷ 108 ∷ 111 ∷ 10 ∷ 120 ∷ [])

rio_readn-stream_example :
    Gives
      (λ r.
        (scripted.pending input ≡ r.buf ++ scripted.pending r.after)
        × IsDone scripted 6 r.status r.buf r.after)
      (rio_readn scripted 11 input 6)
rio_readn-stream_example = rio_readn-stream scripted 11 input 6 (omega arith)

-- writes at most as many bytes at once as the plan says; 0 is a call broken off by a signal
put : List ℕ → List ℕ → List ℕ → Written Script
put [] done buf = record {
  count = some (length buf);
  is_eintr = false;
  after = script [] (done ++ buf);
}
put (zero ∷ plan) done buf = record { count = none; is_eintr = true; after = script plan done }
put (suc k ∷ plan) done buf = record {
  count = some (min (suc k) (length buf));
  is_eintr = true;
  after = script plan (done ++ take (min (suc k) (length buf)) buf);
}

put-IsWrite :
    (plan done buf : List ℕ)
    → IsWrite buf
        (put plan done buf).count
        (put plan done buf).is_eintr
        done
        (put plan done buf).after.bytes
        (length plan)
        (length (put plan done buf).after.plan)
unfolding put
put-IsWrite [] done buf =
    (omega arith, ap (◌++◌ done) (sym (take-length buf)), omega arith, λ e f. cc)
put-IsWrite (zero ∷ plan) done buf = (refl, omega arith)
put-IsWrite (suc k ∷ plan) done buf = (omega arith, refl, omega arith, λ e f. omega arith)

abbrev sink : WriteCall Script
sink = record {
  write = λ s buf. put s.plan s.bytes buf;
  sent = λ s. s.bytes;
  signals = λ s. length s.plan;
  write-IsWrite = λ s buf. put-IsWrite s.plan s.bytes buf;
}

rio_writen-stream_example :
    Gives
      (λ r.
        (k : ℕ) × (sink.sent r.after ≡ 7 ∷ [] ++ take k (1 ∷ 2 ∷ 3 ∷ [])) × IsSent 3 3 k r.status)
      (rio_writen sink 6 (script (0 ∷ 2 ∷ []) (7 ∷ [])) (1 ∷ 2 ∷ 3 ∷ []) 3)
rio_writen-stream_example =
    rio_writen-stream sink 6 (script (0 ∷ 2 ∷ []) (7 ∷ [])) (1 ∷ 2 ∷ 3 ∷ []) 3 (omega arith)
      (omega arith)

fresh : RioBuffer
unfolding rio_readinitb
fresh = rio_readinitb (replicate rio_bufsize 0)

fresh-IsRio : IsRio fresh
unfolding fresh
fresh-IsRio = record { size = length-replicate {A = ℕ} rio_bufsize 0; room = omega arith }

rio_readnb-stream_example :
    Gives
      (λ g.
        (stream scripted fresh input ≡ g.bytes ++ stream scripted g.rp g.after)
        × IsRio g.rp
        × IsFilled scripted 6 g.bytes g.rp g.after g.status)
      (rio_readnb scripted 6 fresh input 6)
rio_readnb-stream_example = rio_readnb-stream scripted 6 6 fresh input fresh-IsRio (omega arith)

rio_readlineb-IsLine_example :
    Gives
      (λ g.
        (ln : List ℕ) × (stream scripted fresh input ≡ ln ++ stream scripted g.rp g.after)
        × IsRio g.rp
        × IsLine scripted (10 - 1) fresh input ln g g.status)
      (rio_readlineb scripted 6 fresh input 10)
rio_readlineb-IsLine_example =
    rio_readlineb-IsLine scripted 6 10 fresh input fresh-IsRio (omega arith) (omega arith)

abbrev summary : Option (Got Script) → Option (Status × List ℕ)
summary none = none
summary (some g) = some (g.status, g.bytes)

-- the first line of the input, through a small buffer
reads_a_line :
    summary (rio_readlineb scripted 6 (rio_readinitb (0 ∷ 0 ∷ [])) input 10)
    ≡ some (count 6, 104 ∷ 101 ∷ 108 ∷ 108 ∷ 111 ∷ 10 ∷ 0 ∷ [])
unfolding rio_readlineb rio_readinitb run
reads_a_line = refl
