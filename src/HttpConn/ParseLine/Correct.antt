-- ===== src/HttpConn/ParseLine/Correct.antt =====
-- What parse_line finds, that it stays inside the buffer, and that it may be resumed.
use unix_programming.Base.{
  ℕ, zero, suc, ◌+◌, ◌-◌, ◌≤◌, ◌<◌, ◌≡◌, ◌≢◌, refl, sym, ap, ◌⊎◌, inl, inr, false, some, List,
  arith, Bool-cases, ltb, ◌==◌, length, get_or, set, get_elem?-in, Gives, gives, Gives-at, subst,
}
use unix_programming.HttpConn.ParseLine.{
  LineStatus, line_ok, line_bad, line_open, Scanned, at_cr, at_lf, parse_line_loop, parse_line,
}

-- no end of a line from `i` up to `j`
abbrev pub Plain : List ℕ → ℕ → ℕ → Type 0
Plain buf i j = (k : ℕ) → i ≤ k → k < j → (get_or buf k 0 ≢ 13) × (get_or buf k 0 ≢ 10)

-- What a status says of the bytes from `from` up to `read`.
abbrev pub Found : List ℕ → (from read : ℕ) → Scanned → LineStatus → Type 0
Found buf from read r line_ok =
    (e : ℕ) × (from ≤ e + 1)
    × (e + 2 ≤ read)
    × (get_or buf e 0 ≡ 13)
    × (get_or buf (e + 1) 0 ≡ 10)
    × Plain buf from e
    × (r.buf ≡ set (set buf e 0) (e + 1) 0)
    × (r.checked ≡ e + 2)
Found buf from read r line_open =
    (r.buf ≡ buf)
    × (from ≤ r.checked)
    × Plain buf from r.checked
    × ((r.checked ≡ read) ⊎ ((r.checked + 1 ≡ read) × (get_or buf r.checked 0 ≡ 13)))
Found buf from read r line_bad =
    (r.buf ≡ buf)
    × (from ≤ r.checked)
    × (r.checked < read)
    × Plain buf from r.checked
    × (((get_or buf r.checked 0 ≡ 13)
          × (r.checked + 1 < read)
          × (get_or buf (r.checked + 1) 0 ≢ 10))
        ⊎ ((get_or buf r.checked 0 ≡ 10) × ((r.checked ≤ 1) ⊎ (get_or buf (r.checked - 1) 0 ≢ 13))))

at_cr-Found :
    (buf : List ℕ) (from checked read : ℕ)
    → read ≤ length buf
    → from ≤ checked
    → checked < read
    → get_or buf checked 0 ≡ 13
    → Plain buf from checked
    → Gives (λ r. Found buf from read r r.status) (at_cr buf checked read)
unfolding at_cr
at_cr-Found buf from checked read size le lt cr plain = elim (Bool-cases (checked + 1 == read)) [
  | inl last ↦ rw last (gives (refl, le, plain, inr (ground arith, cr)))
  | inr more ↦
      let inside : checked + 1 < read = ground arith in
      rw (more, get_elem?-in buf (checked + 1) 0 (omega arith))
        (elim (Bool-cases (get_or buf (checked + 1) 0 == 10)) [
          | inl lf ↦
              rw lf (gives (checked, omega arith, omega arith, cr, ground arith, plain, refl, refl))
          | inr other ↦ rw other (gives (refl, le, lt, plain, inl (cr, inside, ground arith)))
        ])
]

at_lf-Found :
    (buf : List ℕ) (from checked read : ℕ)
    → read ≤ length buf
    → from ≤ checked
    → checked < read
    → get_or buf checked 0 ≡ 10
    → Plain buf from checked
    → Gives (λ r. Found buf from read r r.status) (at_lf buf checked)
unfolding at_lf
at_lf-Found buf from checked read size le lt lf plain = elim (Bool-cases (ltb 1 checked)) [
  | inl later ↦
      rw (later, get_elem?-in buf (checked - 1) 0 (omega arith))
        (elim (Bool-cases (get_or buf (checked - 1) 0 == 13)) [
          | inl cr ↦
              let back : checked ≡ (checked - 1) + 1 = ground arith in
              rw cr (
                gives (
                  checked - 1,
                  omega arith,
                  omega arith,
                  ground arith,
                  rw (← back) lf,
                  (λ k a b. plain k a (omega arith)),
                  ap (λ i. set (set buf (checked - 1) 0) i 0) back,
                  omega arith,
                ))
          | inr other ↦ rw other (gives (refl, le, lt, plain, inr (lf, inr (ground arith))))
        ])
  | inr first ↦ rw first (gives (refl, le, lt, plain, inr (lf, inl (ground arith))))
]

Plain-suc :
    (buf : List ℕ) (from i : ℕ)
    → Plain buf from i
    → get_or buf i 0 ≢ 13
    → get_or buf i 0 ≢ 10
    → Plain buf from (i + 1)
Plain-suc buf from i plain cr lf k a b = elim (Bool-cases (k == i)) [
  | inl same ↦ let e : k ≡ i = ground arith in rw e (cr, lf)
  | inr other ↦ plain k a (ground arith)
]

parse_line_loop-Found :
    (left : ℕ) (buf : List ℕ) (from checked read : ℕ)
    → read ≤ length buf
    → from ≤ checked
    → checked + left ≡ read
    → Plain buf from checked
    → Gives (λ r. Found buf from read r r.status) (parse_line_loop left buf checked read)
unfolding parse_line_loop
parse_line_loop-Found zero buf from checked read size le e plain =
    gives (refl, le, plain, inl (omega arith))
parse_line_loop-Found (suc left) buf from checked read size le e plain =
    let rest =
      parse_line_loop-Found left buf from (checked + 1) read size (omega arith) (omega arith) in
    rw (get_elem?-in buf checked 0 (omega arith)) (elim (Bool-cases (get_or buf checked 0 == 13)) [
      | inl cr ↦
          rw cr (at_cr-Found buf from checked read size le (omega arith) (ground arith) plain)
      | inr not_cr ↦ rw not_cr (elim (Bool-cases (get_or buf checked 0 == 10)) [
        | inl lf ↦
            rw lf (at_lf-Found buf from checked read size le (omega arith) (ground arith) plain)
        | inr not_lf ↦
            rw not_lf (rest (Plain-suc buf from checked plain (ground arith) (ground arith)))
      ])
    ])

-- For a read index inside the buffer, parse_line never reads outside it, and what it reports is so.
-- On LINE_OK it has found the first CR LF after the checked index (the CR may be the byte before
-- it), with no CR or LF on the way, writes a 0 over both and moves the index behind them. On
-- LINE_OPEN the buffer is unchanged and the scan stopped at the read index, or at a CR that is the
-- last byte, with no CR or LF before. On LINE_BAD the buffer is unchanged and the index stands at
-- the first CR or LF: a CR with another byte than LF behind it, or an LF with no CR before it (or
-- at index 0 or 1).
pub parse_line-Found :
    (buf : List ℕ) (checked read : ℕ)
    → read ≤ length buf
    → checked ≤ read
    → Gives (λ r. Found buf checked read r r.status) (parse_line buf checked read)
unfolding parse_line
parse_line-Found buf checked read size le =
    parse_line_loop-Found (read - checked) buf checked checked read size (omega arith) (omega arith)
      λ k a b. absurd (omega arith)

-- plain bytes are passed over
parse_line_loop-skip :
    (d left : ℕ) (buf : List ℕ) (i j read : ℕ)
    → i + d ≡ j
    → read ≤ length buf
    → j ≤ read
    → left + j ≡ read
    → Plain buf i j
    → parse_line_loop (d + left) buf i read ≡ parse_line_loop left buf j read
unfolding parse_line_loop
parse_line_loop-skip zero left buf i j read e size le h plain =
    let same : i ≡ j = omega arith in
    let same_left : 0 + left ≡ left = omega arith in rw (same, same_left)
parse_line_loop-skip (suc d) left buf i j read e size le h plain =
    let cr : (get_or buf i 0 == 13) ≡ false =
      let ne = (plain i (omega arith) (omega arith)).0 in ground arith in
    let lf : (get_or buf i 0 == 10) ≡ false =
      let ne = (plain i (omega arith) (omega arith)).1 in ground arith in
    let step : suc d + left ≡ suc (d + left) = omega arith in
    rw (step, get_elem?-in buf i 0 (omega arith), cr, lf)
      (parse_line_loop-skip d left buf (i + 1) j read (omega arith) size le h
        λ k a b. plain k (omega arith) b)

-- where a scan that ended in LINE_OPEN stopped
open_at :
    (buf : List ℕ) (checked read : ℕ) (r : Scanned)
    → read ≤ length buf
    → checked ≤ read
    → parse_line buf checked read ≡ some r
    → r.status ≡ line_open
    → (checked ≤ r.checked) × (r.checked ≤ read) × Plain buf checked r.checked
open_at buf checked read r size le run is_open =
    let found = Gives-at (parse_line-Found buf checked read size le) run in
    let opened : Found buf checked read r line_open =
      subst (λ st. Found buf checked read r st) is_open found in
    (opened.1, omega (arith, opened.3), opened.2)

-- A scan that ended in LINE_OPEN may go on when more bytes have come: from where it stopped it
-- gives, on any buffer that agrees with the old one up to the old read index, what a scan of all
-- the bytes from the first index gives. So the result does not depend on how the request was cut
-- into reads.
pub parse_line-resume :
    (buf more : List ℕ) (checked read read' : ℕ) (r : Scanned)
    → read ≤ length buf
    → checked ≤ read
    → read ≤ read'
    → read' ≤ length more
    → ((k : ℕ) → k < read → get_or more k 0 ≡ get_or buf k 0)
    → parse_line buf checked read ≡ some r
    → r.status ≡ line_open
    → parse_line more r.checked read' ≡ parse_line more checked read'
unfolding parse_line
parse_line-resume buf more checked read read' r size le grown size' agree run is_open =
    let (from, to, plain) = open_at buf checked read r size le run is_open in
    let plain' : Plain more checked r.checked = λ k a b. rw (agree k (omega arith)) (plain k a b) in
    let whole : read' - checked ≡ (r.checked - checked) + (read' - r.checked) = omega arith in
    rw whole (
      sym (
        parse_line_loop-skip (r.checked - checked) (read' - r.checked) more checked r.checked read'
          (omega arith) size' (omega arith) (omega arith) plain'))
