-- ===== src/Rio/Buffered/Line.antt =====
-- rio_readlineb of socket/csapp/rio.c against the stream.
use unix_programming.Base.{
  ℕ, zero, suc, ◌+◌, ◌-◌, ◌≤◌, ◌<◌, ◌≡◌, ◌≢◌, refl, sym, ap, ◌∙◌, inl, inr, true, false, Option,
  List, [], ◌∷◌, ◌++◌, append_assoc, append-nil, arith, Bool-cases, ltb, ◌==◌, if◌then◌else◌,
  length, All, eqb→eq, nil_of_length, length-append, Gives, gives, Gives-map, Gives-inv,
}
use unix_programming.Rio.Calls.{fail, ReadCall}
use unix_programming.Rio.{Status, count, failed}
use unix_programming.Rio.Buffered.{
  RioBuffer, Got, int_max, readlineb_round, readlineb_loop, rio_readlineb, head_or_zero,
}
use unix_programming.Rio.Buffered.Refill.{IsRio, stream, IsGot, rio_read-stream}

-- The first line of a text, its newline included, cut at `m` bytes.
unfoldable pub line : ℕ → List ℕ → List ℕ
line zero xs = []
line (suc m) [] = []
line (suc m) (x ∷ xs) = if x == 10 then x ∷ [] else x ∷ line m xs

line-nil : (m : ℕ) → line m [] ≡ []
unfolding line
line-nil zero = refl
line-nil (suc m) = refl

-- What the user's buffer holds for a line: nothing where a read was tried and the stream had
-- ended, else the line and a 0.
abbrev pub line_buffer : ℕ → List ℕ → List ℕ
line_buffer zero [] = 0 ∷ []
line_buffer (suc m) [] = []
line_buffer m (x ∷ xs) = (x ∷ xs) ++ 0 ∷ []

line-newline : (m : ℕ) (xs : List ℕ) → line (suc m) (10 ∷ xs) ≡ 10 ∷ []
unfolding line
line-newline m xs = refl

line-cons : (m c : ℕ) (xs : List ℕ) → c ≢ 10 → line (suc m) (c ∷ xs) ≡ c ∷ line m xs
unfolding line
line-cons m c xs h = ground arith

-- the same after `n` bytes `buf`, with `new` taken behind them
abbrev pub buffer_after : ℕ → ℕ → List ℕ → List ℕ → List ℕ
buffer_after zero m buf new = line_buffer m new
buffer_after (suc n) m buf new = (buf ++ new) ++ 0 ∷ []

buffer_after-cons :
    (n m c : ℕ) (buf new : List ℕ)
    → length buf ≡ n
    → buffer_after n m buf (c ∷ new) ≡ ((buf ++ c ∷ []) ++ new) ++ 0 ∷ []
buffer_after-cons zero zero c [] new h = refl
buffer_after-cons zero (suc m) c [] new h = refl
buffer_after-cons zero m c (x ∷ buf) new h = absurd (omega arith)
buffer_after-cons (suc n) m c buf new h =
    ap (λ xs. xs ++ 0 ∷ []) (sym (append_assoc buf (c ∷ []) new))

module _ {S : Type 0} (call : ReadCall S) where
  -- `ln` is what was taken from the stream, `m` what may be
  abbrev pub IsLine : ℕ → RioBuffer → S → List ℕ → Got S → Status → Type 0
  IsLine m rp s ln g (count k) =
      (k ≡ length ln) × (ln ≡ line m (stream call rp s)) × (g.bytes ≡ line_buffer m ln)
  IsLine m rp s ln g failed =
      (g.bytes ≡ ln)
      × (length ln < m)
      × All (λ c. c ≢ 10) ln
      × ((u : S) × (n : ℕ) × (call.read u n ≡ (fail, g.after)))

  -- the outcome of the loop from the counter `suc n`, with the bytes `buf` already taken
  abbrev IsRest : (m n : ℕ) → RioBuffer → S → (buf new : List ℕ) → Got S → Status → Type 0
  IsRest m n rp s buf new g (count k) =
      (k ≡ n + length new)
      × (new ≡ line m (stream call rp s))
      × (g.bytes ≡ buffer_after n m buf new)
  IsRest m n rp s buf new g failed =
      (g.bytes ≡ buf ++ new)
      × (length new < m)
      × All (λ c. c ≢ 10) new
      × ((u : S) × (i : ℕ) × (call.read u i ≡ (fail, g.after)))

  record Rest (m n : ℕ) (rp : RioBuffer) (s : S) (buf : List ℕ) (g : Got S) : Type 0 where
    new : List ℕ
    moved : stream call rp s ≡ new ++ stream call g.rp g.after
    valid : IsRio g.rp
    result : IsRest m n rp s buf new g g.status

  Rest-cons :
      {m n : ℕ} {rp rp' : RioBuffer} {s s' : S} {buf : List ℕ} {g : Got S} (c : ℕ)
      → stream call rp s ≡ c ∷ stream call rp' s'
      → c ≢ 10
      → length buf ≡ n
      → Rest m (suc n) rp' s' (buf ++ c ∷ []) g
      → Rest (suc m) n rp s buf g
  Rest-cons {m} {n} {rp} {rp'} {s} {s'} {buf} {g} c e ne len r = record {
    new = c ∷ r.new;
    moved = e ∙ ap (◌∷◌ c) r.moved;
    valid = r.valid;
    result = from g.status r.result;
  }
    where
      from :
          (st : Status)
          → IsRest m (suc n) rp' s' (buf ++ c ∷ []) r.new g st
          → IsRest (suc m) n rp s buf (c ∷ r.new) g st
      from (count k) h = (
        omega (arith, h.0),
        ap (◌∷◌ c) h.1 ∙ rw (e, line-cons m c (stream call rp' s') ne),
        h.2 ∙ sym (buffer_after-cons n (suc m) c buf r.new len),
      )
      from failed h = (h.0 ∙ append_assoc buf (c ∷ []) r.new, omega (arith, h.1), (ne, h.2), h.3)

  one_byte : (bytes : List ℕ) → length bytes ≡ 1 → bytes ≡ head_or_zero bytes ∷ []
  one_byte [] h = absurd (omega arith)
  one_byte (c ∷ []) h = refl
  one_byte (c ∷ d ∷ cs) h = absurd (omega arith)

  round-Rest :
      (m n i : ℕ) (rec : RioBuffer → S → ℕ → List ℕ → Option (Got S)) (rp : RioBuffer) (s : S)
      (buf : List ℕ) (st : Status) (g : Got S)
      → IsRio g.rp
      → call.signals g.after ≤ call.signals s
      → IsGot call 1 rp s g st
      → length buf ≡ n
      → i ≡ suc n
      → i < int_max
      → ((rp : RioBuffer) (t : S) (b : List ℕ)
          → IsRio rp
          → call.signals t ≤ call.signals s
          → length b ≡ suc n
          → Gives (Rest m (suc n) rp t b) (rec rp t (suc (suc n)) b))
      → Gives (Rest (suc m) n rp s buf) (readlineb_round rec i buf st g)
  unfolding readlineb_round
  round-Rest m n i rec rp s buf (count zero) g v less is len e room ih =
      let ended : stream call rp s ≡ [] =
        is.0 ∙ rw (nil_of_length g.bytes (sym is.1)) (is.3 refl (omega arith)) in
      let moved : stream call rp s ≡ stream call g.rp g.after =
        ended ∙ sym (is.3 refl (omega arith)) in
      let none_left : [] ≡ line (suc m) (stream call rp s) = rw ended (sym (line-nil (suc m))) in
      at_end n len e moved none_left
    where
      at_end :
          (n : ℕ)
          → length buf ≡ n
          → i ≡ suc n
          → stream call rp s ≡ stream call g.rp g.after
          → [] ≡ line (suc m) (stream call rp s)
          → Gives (Rest (suc m) n rp s buf) (readlineb_round rec i buf (count 0) g)
      at_end zero len e moved none_left = rw e (
          gives (record {
            new = [];
            moved = moved;
            valid = v;
            result = (omega arith, none_left, nil_of_length buf len);
          }))
      at_end (suc n) len e moved none_left =
          let later : (i == 1) ≡ false = ground arith in
          rw later (
            gives (record {
              new = [];
              moved = moved;
              valid = v;
              result = (omega arith, none_left, ap (λ xs. xs ++ 0 ∷ []) (sym (append-nil buf)));
            }))
  round-Rest m n i rec rp s buf (count (suc zero)) g v less is len e room ih =
      let c = head_or_zero g.bytes in
      let one : stream call rp s ≡ c ∷ stream call g.rp g.after =
        rw (one_byte g.bytes (sym is.1)) at is.0 in
      let counts : ltb i int_max ≡ true = ground arith in
      elim (Bool-cases (c == 10)) [
        | inl newline ↦
            rw (newline, counts)
              (gives (record {
                new = c ∷ [];
                moved = one;
                valid = v;
                result = (
                  omega arith,
                  rw (one, eqb→eq c 10 newline) (sym (line-newline m (stream call g.rp g.after))),
                  rw (append-nil (buf ++ c ∷ [])) at
                      (sym (buffer_after-cons n (suc m) c buf [] len)),
                );
              }))
        | inr other ↦
            rw (other, counts)
              (let next : i + 1 ≡ suc (suc n) = omega arith in
                rw next (
                  Gives-map
                    (ih g.rp g.after (buf ++ c ∷ []) v less
                      (omega (arith, length-append buf (c ∷ []))))
                    λ r rest. Rest-cons c one (ground arith) len rest))
      ]
  round-Rest m n i rec rp s buf (count (suc (suc k))) g v less is len e room ih =
      absurd (omega arith)
  round-Rest m n i rec rp s buf failed g v less is len e room ih = gives (record {
    new = [];
    moved = is.1;
    valid = v;
    result = (sym (append-nil buf), omega arith, tt, is.2);
  })

  readlineb_loop-Rest :
      (maxlen fuel m n f : ℕ) (rp : RioBuffer) (s : S) (buf : List ℕ)
      → IsRio rp
      → suc (call.signals s) < fuel
      → m < f
      → m + suc n ≡ maxlen
      → maxlen ≤ int_max
      → length buf ≡ n
      → Gives (Rest m n rp s buf) (readlineb_loop call maxlen fuel f rp s (suc n) buf)
  unfolding readlineb_loop line
  readlineb_loop-Rest maxlen fuel m n zero rp s buf v enough h e top len = absurd (omega arith)
  readlineb_loop-Rest maxlen fuel zero n (suc f) rp s buf v enough h e top len =
      let stop : ltb (suc n) maxlen ≡ false = ground arith in
      rw stop (gives (record { new = []; moved = refl; valid = v; result = full n len }))
    where
      full :
          (n : ℕ)
          → length buf ≡ n
          → (suc n - 1 ≡ n + 0)
            × ([] ≡ line 0 (stream call rp s))
            × (buf ++ 0 ∷ [] ≡ buffer_after n 0 buf [])
      full zero len = (omega arith, refl, rw (nil_of_length buf len))
      full (suc n) len = (omega arith, refl, ap (λ xs. xs ++ 0 ∷ []) (sym (append-nil buf)))
  readlineb_loop-Rest maxlen fuel (suc m) n (suc f) rp s buf v enough h e top len =
      let more : ltb (suc n) maxlen ≡ true = ground arith in
      let (g, read, is) = Gives-inv (rio_read-stream call fuel 1 rp s v enough) in
      rw (more, read, readlineb_loop)
        (round-Rest m n (suc n) (readlineb_loop call maxlen fuel f) rp s buf g.status g is.valid
          is.signals is.result len refl (omega arith)
          λ rp t b v' less len'.
            readlineb_loop-Rest maxlen fuel m (suc n) f rp t b v' (omega arith) (omega arith)
              (omega arith) top len')

  -- On a well-formed rio_t, and for a maxlen of at most INT_MAX, rio_readlineb takes the first line of the stream, newline included, cut
  -- at maxlen - 1 bytes, and the stream goes on behind it. It returns the line's length; the user's
  -- buffer then holds the line and a 0, except that nothing is stored where the stream has ended
  -- and a byte was wanted. It returns -1 only where a read failed with an errno other than EINTR,
  -- and then fewer than maxlen - 1 bytes were taken, none of them a newline, and the buffer holds
  -- them with no 0. Fuel above the number of signals by two is enough.
  pub rio_readlineb-IsLine :
      (fuel maxlen : ℕ) (rp : RioBuffer) (s : S)
      → IsRio rp
      → suc (call.signals s) < fuel
      → maxlen ≤ int_max
      → Gives
          (λ g.
            (ln : List ℕ) × (stream call rp s ≡ ln ++ stream call g.rp g.after)
            × IsRio g.rp
            × IsLine (maxlen - 1) rp s ln g g.status)
          (rio_readlineb call fuel rp s maxlen)
  unfolding rio_readlineb line
  rio_readlineb-IsLine fuel zero rp s v h top = gives ([], refl, v, (refl, refl, refl))
  rio_readlineb-IsLine fuel (suc m) rp s v h top =
      let minus : suc m - 1 ≡ m = omega arith in
      rw minus (
        Gives-map
          (readlineb_loop-Rest (suc m) fuel m 0 (suc m + 1) rp s [] v h (omega arith) (omega arith)
            top refl)
          λ g r. (r.new, r.moved, r.valid, from g r.new g.status r.result))
    where
      from :
          (g : Got S) (new : List ℕ) (st : Status)
          → IsRest m 0 rp s [] new g st
          → IsLine m rp s new g st
      from g new (count k) (a, b, c) = (omega arith, b, c)
      from g new failed h = h
