-- ===== src/Rio/Writen.antt =====
-- rio_writen of socket/csapp/rio.c, against the stream behind the descriptor.
use unix_programming.Base.{
  ℕ, zero, suc, ◌+◌, ◌-◌, ◌≤◌, ◌<◌, ◌≡◌, refl, sym, ap, ◌∙◌, inl, inr, Bool, true, false, Option,
  none, some, List, ◌++◌, append_assoc, append-nil, arith, Bool-cases, ltb, length, take, drop,
  take-take, take-add, length-take, length-drop, Gives, gives, Gives-map,
}
use unix_programming.Rio.Calls.{WriteCall, IsWrite}
use unix_programming.Rio.{Status, count, failed, Emptied, writen_round, writen_loop, rio_writen}

-- The count is n with everything sent, and -1 leaves something unsent.
abbrev pub IsSent : (n nleft k : ℕ) → Status → Type 0
IsSent n nleft k (count c) = (c ≡ n) × (k ≡ nleft)
IsSent n nleft k failed = k < nleft

module _ {S : Type 0} (call : WriteCall S) where
  pub record Sent (n : ℕ) (s : S) (nleft : ℕ) (bufp : List ℕ) (r : Emptied S) : Type 0 where
    pub sent : ℕ
    pub stream : call.sent r.after ≡ call.sent s ++ take sent bufp
    pub done : IsSent n nleft sent r.status

  Sent-add :
      {n : ℕ} {s s' : S} {bufp : List ℕ} {r : Emptied S} (nleft k : ℕ)
      → k ≤ nleft
      → call.sent s' ≡ call.sent s ++ take k (take nleft bufp)
      → Sent n s' (nleft - k) (drop k bufp) r
      → Sent n s nleft bufp r
  Sent-add {n} {s} {bufp} {r} nleft k le e t = record {
    sent = k + t.sent;
    stream =
        t.stream
        ∙ rw (e, take-take k nleft bufp le, append_assoc)
            (ap (◌++◌ (call.sent s)) (take-add k t.sent (k + t.sent) bufp refl));
    done = shift r.status t.sent t.done;
  }
    where
      shift : (st : Status) (m : ℕ) → IsSent n (nleft - k) m st → IsSent n nleft (k + m) st
      shift (count c) m d = (d.0, omega arith)
      shift failed m d = omega arith

  round-Sent :
      (n nleft m : ℕ) (rec : S → ℕ → List ℕ → Option (Emptied S)) (s : S) (bufp : List ℕ)
      (c : Option ℕ) (e : Bool) (s' : S)
      → IsWrite
          (take nleft bufp)
          c
          e
          (call.sent s)
          (call.sent s')
          (call.signals s)
          (call.signals s')
      → nleft ≤ length bufp
      → 0 < nleft
      → nleft + call.signals s < suc m
      → ((t : S) (k : ℕ) (b : List ℕ)
          → k + call.signals t < m
          → k ≤ length b
          → Gives (Sent n t k b) (rec t k b))
      → Gives (Sent n s nleft bufp) (writen_round rec nleft bufp c e s')
  unfolding writen_round
  round-Sent n nleft m rec s bufp (some zero) true s' w le pos h ih =
      Gives-map (ih s' (nleft - 0) bufp (omega (arith, w.3 refl refl)) (omega arith))
        λ r t. Sent-add nleft 0 (omega arith) w.1 t
  round-Sent n nleft m rec s bufp (some zero) false s' w le pos h ih =
      gives (record { sent = 0; stream = w.1; done = pos })
  round-Sent n nleft m rec s bufp (some (suc k)) e s' w le pos h ih =
      let fits : suc k ≤ nleft = omega (arith, length-take nleft bufp) in
      let more : ltb 0 (suc k) ≡ true = ground arith in
      rw more (
        Gives-map
          (ih s' (nleft - suc k) (drop (suc k) bufp) (omega arith)
            (omega (arith, length-drop (suc k) bufp)))
          λ r t. Sent-add nleft (suc k) fits w.1 t)
  round-Sent n nleft m rec s bufp none true s' w le pos h ih =
      Gives-map (ih s' (nleft - 0) bufp (omega arith) (omega arith))
        λ r t. Sent-add nleft 0 (omega arith) (w.0 ∙ sym (append-nil (call.sent s))) t
  round-Sent n nleft m rec s bufp none false s' w le pos h ih =
      gives (record { sent = 0; stream = w.0 ∙ sym (append-nil (call.sent s)); done = pos })

  writen_loop-Sent :
      (n f : ℕ) (s : S) (nleft : ℕ) (bufp : List ℕ)
      → nleft + call.signals s < f
      → nleft ≤ length bufp
      → Gives (Sent n s nleft bufp) (writen_loop call n f s nleft bufp)
  unfolding writen_loop
  writen_loop-Sent n zero s nleft bufp h le = absurd (omega arith)
  writen_loop-Sent n (suc f) s nleft bufp h le = elim (Bool-cases (ltb 0 nleft)) [
    | inl more ↦ rw more (
        let w = call.write s (take nleft bufp) in
        round-Sent n nleft f (writen_loop call n f) s bufp w.count w.is_eintr w.after
          (call.write-IsWrite s (take nleft bufp)) le (ground arith) h (writen_loop-Sent n f))
    | inr stop ↦ rw stop (
        gives (record {
          sent = 0;
          stream = sym (append-nil (call.sent s));
          done = (refl, ground arith);
        }))
  ]

  -- On a buffer of at least n bytes, rio_writen either returns n with the first n bytes sent in
  -- order behind what was sent before, or returns -1 with a proper prefix of those sent: it never
  -- returns a short count. Fuel above n and the number of signals is enough.
  pub rio_writen-stream :
      (fuel : ℕ) (s : S) (usrbuf : List ℕ) (n : ℕ)
      → n + call.signals s < fuel
      → n ≤ length usrbuf
      → Gives
          (λ r.
            (k : ℕ) × (call.sent r.after ≡ call.sent s ++ take k usrbuf) × IsSent n n k r.status)
          (rio_writen call fuel s usrbuf n)
  unfolding rio_writen
  rio_writen-stream fuel s usrbuf n h le =
      Gives-map (writen_loop-Sent n fuel s n usrbuf h le) λ r t. (t.sent, t.stream, t.done)
