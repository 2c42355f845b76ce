-- ===== src/Rio/Buffered/Refill.antt =====
-- rio_read against the stream: the unread bytes of the buffer, then those behind the descriptor.
use unix_programming.Base.{
  ℕ, zero, suc, ◌+◌, ◌-◌, ◌≤◌, ◌<◌, ◌≡◌, refl, sym, ap, ◌∙◌, inl, inr, false, Option, none, some,
  List, [], ◌∷◌, ◌++◌, append_assoc, arith, Bool-cases, if◌then◌else◌, length, length-append, take,
  drop, take-append, take-add, drop-drop, length-take, length-drop, Gives, gives, Gives-map,
  Gives-inv,
}
use unix_programming.Rio.Calls.{Outcome, got, eof, intr, fail, IsRead, ReadCall}
use unix_programming.Rio.{Status, count, failed, is_pos, or_zero}
use unix_programming.Rio.Buffered.{
  RioBuffer, Refilled, Got, rio_bufsize, refill_round, refill, copied, copy_out, rio_read,
}

pub record IsRio (rp : RioBuffer) : Type 0 where
  pub size : length rp.buf ≡ rio_bufsize
  pub room : rp.ptr + or_zero rp.cnt ≤ rio_bufsize

abbrev pub unread : RioBuffer → List ℕ
unread rp = take (or_zero rp.cnt) (drop rp.ptr rp.buf)

unread-nil : (rp : RioBuffer) → is_pos rp.cnt ≡ false → unread rp ≡ []
unread-nil rp h = let e : or_zero rp.cnt ≡ 0 = ground arith in rw e

module _ {S : Type 0} (call : ReadCall S) where
  abbrev pub stream : RioBuffer → S → List ℕ
  stream rp s = unread rp ++ call.pending s

  abbrev IsStopped : RioBuffer → S → Refilled S → Option Status → Type 0
  IsStopped rp s r none = (0 < or_zero r.rp.cnt) × (stream r.rp r.after ≡ stream rp s)
  IsStopped rp s r (some (count k)) = (k ≡ 0) × (stream rp s ≡ []) × (stream r.rp r.after ≡ [])
  IsStopped rp s r (some failed) =
      (stream r.rp r.after ≡ stream rp s) × ((u : S) × (m : ℕ) × (call.read u m ≡ (fail, r.after)))

  record Refills (rp : RioBuffer) (s : S) (r : Refilled S) : Type 0 where
    valid : IsRio r.rp
    signals : call.signals r.after ≤ call.signals s
    stopped : IsStopped rp s r r.stopped

  Refills-from :
      {rp rp' : RioBuffer} {s s' : S} {r : Refilled S}
      → stream rp' s' ≡ stream rp s
      → call.signals s' ≤ call.signals s
      → Refills rp' s' r
      → Refills rp s r
  Refills-from {rp} {rp'} {s} {s'} {r} e less f = record {
    valid = f.valid;
    signals = omega (arith, f.signals);
    stopped = from r.stopped f.stopped;
  }
    where
      from : (o : Option Status) → IsStopped rp' s' r o → IsStopped rp s r o
      from none h = (h.0, h.1 ∙ e)
      from (some (count k)) h = (h.0, sym e ∙ h.1, h.2)
      from (some failed) h = (h.0 ∙ e, h.1)

  -- the rounds that the loop may still take
  abbrev rounds : RioBuffer → S → ℕ
  rounds rp s = if is_pos rp.cnt then 0 else suc (call.signals s)

  round-Refills :
      (m : ℕ) (rec : RioBuffer → S → Option (Refilled S)) (rp : RioBuffer) (s : S) (o : Outcome)
      (s' : S)
      → IsRio rp
      → is_pos rp.cnt ≡ false
      → call.read s rio_bufsize ≡ (o, s')
      → IsRead rio_bufsize o (call.pending s) (call.pending s') (call.signals s) (call.signals s')
      → suc (call.signals s) < suc m
      → ((rp : RioBuffer) (s : S) → IsRio rp → rounds rp s < m → Gives (Refills rp s) (rec rp s))
      → Gives (Refills rp s) (refill_round rec rp o s')
  unfolding refill_round
  round-Refills m rec rp s (got c cs) s' v stop e i h ih =
      Gives-map
        (ih _ s'
          (record {
            size = omega (
              arith,
              length-append (c ∷ cs) (drop (length (c ∷ cs)) rp.buf),
              length-drop (length (c ∷ cs)) rp.buf,
            );
            room = omega arith;
          })
          (ground arith))
        λ r f.
          Refills-from
            (rw (take-append cs (drop (length (c ∷ cs)) rp.buf), unread-nil rp stop) (sym i.0)) i.2
            f
  round-Refills m rec rp s eof s' v stop e i h ih = gives (record {
    valid = record { size = v.size; room = ground arith };
    signals = i.2;
    stopped = (refl, rw (unread-nil rp stop) i.0, i.1);
  })
  round-Refills m rec rp s intr s' v stop e i h ih =
      Gives-map
        (ih (record rp { cnt = none }) s' (record { size = v.size; room = omega arith })
          (omega arith))
        λ r f. Refills-from (rw (unread-nil rp stop) (sym i.0)) (omega arith) f
  round-Refills m rec rp s fail s' v stop e i h ih = gives (record {
    valid = record { size = v.size; room = ground arith };
    signals = i.1;
    stopped = (rw (unread-nil rp stop) (sym i.0), (s, rio_bufsize, e));
  })

  refill-Refills :
      (f : ℕ) (rp : RioBuffer) (s : S)
      → IsRio rp
      → rounds rp s < f
      → Gives (Refills rp s) (refill call f rp s)
  unfolding refill
  refill-Refills zero rp s v h = absurd (omega arith)
  refill-Refills (suc f) rp s v h = elim (Bool-cases (is_pos rp.cnt)) [
    | inl ready ↦
        rw ready
          (gives (record { valid = v; signals = omega arith; stopped = (ground arith, refl) }))
    | inr stop ↦ rw stop (
        round-Refills f (refill call f) rp s (call.read s rio_bufsize).0 (call.read s rio_bufsize).1
          v stop refl (call.read-IsRead s rio_bufsize (omega arith)) (rw stop at h)
          (refill-Refills f))
  ]

  -- what rio_read promises of a run from `rp` and `s`
  abbrev pub IsGot : ℕ → RioBuffer → S → Got S → Status → Type 0
  IsGot n rp s g (count k) =
      (stream rp s ≡ g.bytes ++ stream g.rp g.after)
      × (k ≡ length g.bytes)
      × (k ≤ n)
      × (k ≡ 0 → 0 < n → stream g.rp g.after ≡ [])
  IsGot n rp s g failed =
      (g.bytes ≡ [])
      × (stream rp s ≡ stream g.rp g.after)
      × ((u : S) × (m : ℕ) × (call.read u m ≡ (fail, g.after)))

  pub record Reads (n : ℕ) (rp : RioBuffer) (s : S) (g : Got S) : Type 0 where
    pub valid : IsRio g.rp
    pub signals : call.signals g.after ≤ call.signals s
    pub result : IsGot n rp s g g.status

  copied-bounds :
      (c n : ℕ) → 0 < c → (copied c n ≤ n) × (copied c n ≤ c) × (copied c n ≡ 0 → 0 < n → ⊥)
  unfolding copied
  copied-bounds c n h = ground arith

  copy-Reads :
      (n : ℕ) (rp rp' : RioBuffer) (s s' : S) (o : Option Status)
      → IsRio rp'
      → call.signals s' ≤ call.signals s
      → IsStopped rp s (record { stopped = o; rp = rp'; after = s' }) o
      → Reads n rp s (copy_out n o rp' s')
  unfolding copy_out
  copy-Reads n rp rp' s s' none v less h =
      let k = copied (or_zero rp'.cnt) n in
      let within : (k ≤ n) × (k ≤ or_zero rp'.cnt) × (k ≡ 0 → 0 < n → ⊥) =
        copied-bounds (or_zero rp'.cnt) n h.0 in
      let rest = drop rp'.ptr rp'.buf in
      record {
        valid = record { size = v.size; room = omega arith };
        signals = less;
        result = (
          sym h.1
              ∙ rw (← drop-drop k rp'.ptr rp'.buf, ← append_assoc (take k rest))
                  (ap (λ xs. xs ++ call.pending s')
                    (sym (take-add k (or_zero rp'.cnt - k) (or_zero rp'.cnt) rest (omega arith)))),
          omega (arith, length-take k rest, length-drop rp'.ptr rp'.buf),
          within.0,
          λ e p. absurd (within.2 e p),
        );
      }
  copy-Reads n rp rp' s s' (some (count k)) v less h = record {
    valid = v;
    signals = less;
    result = (h.1 ∙ sym h.2, h.0, omega arith, λ e p. h.2);
  }
  copy-Reads n rp rp' s s' (some failed) v less h = record {
    valid = v;
    signals = less;
    result = (refl, sym h.0, h.1);
  }

  -- On a well-formed rio_t, rio_read keeps the promise that read makes, over the stream of the
  -- bytes that are unread in the buffer followed by those behind the descriptor: a count is at most
  -- n and the count of the next bytes of the stream, it is 0 for a positive n only where the stream
  -- has ended, and -1 leaves the stream as it was and comes from a read that failed with an errno
  -- other than EINTR. The rio_t stays well-formed. Fuel above the number of signals by two is enough.
  pub rio_read-stream :
      (fuel n : ℕ) (rp : RioBuffer) (s : S)
      → IsRio rp
      → suc (call.signals s) < fuel
      → Gives (Reads n rp s) (rio_read call fuel rp s n)
  unfolding rio_read
  rio_read-stream fuel n rp s v h =
      let (r, e, f) = Gives-inv (refill-Refills fuel rp s v (ground arith)) in
      rw (e, rio_read)
        (gives (copy-Reads n rp r.rp s r.after r.stopped f.valid f.signals f.stopped))
