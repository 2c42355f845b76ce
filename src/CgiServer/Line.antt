-- ===== src/CgiServer/Line.antt =====
-- What cgi_conn::process of socket/pool/cgi_server.cpp does with the bytes of a line, however they
-- are cut into reads.
use unix_programming.Base.{
  ℕ, ◌+◌, ◌-◌, ◌≤◌, ◌<◌, ◌≡◌, refl, ap, sym, ◌∙◌, true, false, Bool, none, some, List, [], ◌∷◌,
  ◌++◌, arith, ◌==◌, if◌then◌else◌, length, length-append, append_assoc, ◌>>=◌, Option-cases, inl,
  inr, Gives, gives, take, drop, set, length-replicate, length-drop, take-append, drop-append_long,
  take-all,
}
use unix_programming.Base.Text.{c_string}
use unix_programming.Base.Text.Laws.{set-append, before_nul, until_nul-before_nul}
use unix_programming.CgiServer.{
  buffer_size, CgiConn, new_conn, Received, bytes, Outcome, closes, runs, scan, run_program,
  process,
}
use unix_programming.CgiServer.Scan.{
  line_end, last_of, place_or, scan-line_end, line_end-append, line_end-prefix, last_from-last_of,
  line_end-split, line_end-lt,
}

-- the buffer begins with a text, and the read index stands behind it
pub record Holds (text : List ℕ) (c : CgiConn) : Type 0 where
  pub behind : List ℕ
  pub text_first : c.buf ≡ text ++ behind
  pub size : length c.buf ≡ buffer_size
  pub index : c.read_idx ≡ length text

pub new_conn-Holds : Holds [] new_conn
unfolding new_conn
new_conn-Holds = record {
  behind = new_conn.buf;
  text_first = refl;
  size = length-replicate {A = ℕ} buffer_size 0;
  index = refl;
}

-- what process() is to do with a name
abbrev pub answered : (exists : List ℕ → Bool) (forks : Bool) (name : List ℕ) → Outcome
answered exists forks name = if exists name then (if forks then runs name else closes) else closes

-- the state behind one recv
abbrev pub extended : CgiConn → List ℕ → CgiConn
extended c bs = record {
  buf = take c.read_idx c.buf ++ (bs ++ drop (c.read_idx + length bs) c.buf);
  read_idx = c.read_idx + length bs;
}

extended-buf :
    (text bs : List ℕ) (c : CgiConn) (h : Holds text c)
    → (extended c bs).buf ≡ text ++ (bs ++ drop (length bs) h.behind)
extended-buf text bs c h =
    let front : take c.read_idx c.buf ≡ text =
      ap (λ n. take n c.buf) h.index
      ∙ ap (take (length text)) h.text_first
      ∙ take-append text h.behind in
    let n = c.read_idx + length bs in
    let back : drop n c.buf ≡ drop (length bs) h.behind =
      ap (drop n) h.text_first
      ∙ drop-append_long n (length bs) text h.behind (let z = h.index in omega arith) in
    ap (λ a. a ++ (bs ++ drop n c.buf)) front ∙ ap (λ b. text ++ (bs ++ b)) back

pub extended-Holds :
    (text bs : List ℕ) (c : CgiConn)
    → Holds text c
    → length text + length bs ≤ 1023
    → Holds (text ++ bs) (extended c bs)
extended-Holds text bs c h fits =
    let buf = extended-buf text bs c h in
    let old = ap length h.text_first in
    let z = h.size in
    let rest = drop (length bs) h.behind in
    record {
      behind = rest;
      text_first = buf ∙ sym (append_assoc text bs rest);
      size =
          ap length buf
          ∙ omega (
            arith,
            length-append text (bs ++ rest),
            length-append bs rest,
            length-append text h.behind,
            length-drop (length bs) h.behind,
          );
      index = (let i = h.index in omega (arith, length-append text bs));
    }

-- one recv, with the search after it
module _ (exists : List ℕ → Bool) (forks : Bool) (text bs : List ℕ) (c : CgiConn) (h : Holds text c)
    (some_bytes : 0 < length bs) (fits : length text + length bs ≤ 1023) where
  process_round :
      (rs : List Received)
      → process exists forks c (bytes bs ∷ rs) ≡ (
          scan (length bs) c.read_idx (extended c bs).buf >>= λ idx.
          if idx == c.read_idx + length bs
          then process exists forks (extended c bs) rs
          else run_program exists forks (extended c bs) idx)
  unfolding process
  process_round rs =
      let z = h.index in
      let all : take (buffer_size - 1 - c.read_idx) bs ≡ bs =
        take-all (buffer_size - 1 - c.read_idx) bs (omega arith) in
      let more : (length bs == 0) ≡ false = ground arith in rw (all, more)

  scanned :
      scan (length bs) c.read_idx (extended c bs).buf
      ≡ some (length text + place_or (length bs) (line_end (last_of text) bs))
  scanned =
      ap (λ n. scan (length bs) n (extended c bs).buf) h.index
      ∙ ap (scan (length bs) (length text)) (extended-buf text bs c h)
      ∙ scan-line_end text bs (drop (length bs) h.behind)

  search_none : line_end none (text ++ bs) ≡ none → line_end (last_of text) bs ≡ none
  search_none e =
      let before = line_end-prefix none text bs e in
      let both = rw last_from-last_of at (line_end-append none text bs before) in
      elim (Option-cases (line_end (last_of text) bs)) [
        | inl no_line ↦ no_line
        | inr (i, found) ↦ let z = rw found at (sym e ∙ both) in absurd (cc)
      ]

  search_some :
      (k : ℕ)
      → line_end none text ≡ none
      → line_end none (text ++ bs) ≡ some k
      → (i : ℕ) × (line_end (last_of text) bs ≡ some i) × (k ≡ length text + i)
  search_some k before e =
      let both = rw last_from-last_of at (line_end-append none text bs before) in
      elim (Option-cases (line_end (last_of text) bs)) [
        | inl no_line ↦ let z = rw no_line at (sym e ∙ both) in absurd (cc)
        | inr (i, found) ↦ let z = rw found at (sym e ∙ both) in (i, found, (cc))
      ]

  -- no line yet: the loop goes on with what was read
  pub reads_on :
      (rs : List Received)
      → line_end none (text ++ bs) ≡ none
      → process exists forks c (bytes bs ∷ rs) ≡ process exists forks (extended c bs) rs
  reads_on rs e =
      let z = h.index in
      let n = length text + length bs in
      let end : (n == c.read_idx + length bs) ≡ true = ground arith in
      process_round rs ∙ rw (scanned, search_none e, ◌>>=◌, end)

  -- the line is there: the program is run
  pub line_read :
      (rs : List Received) (k : ℕ)
      → line_end none text ≡ none
      → line_end none (text ++ bs) ≡ some k
      → process exists forks c (bytes bs ∷ rs) ≡ run_program exists forks (extended c bs) k
  line_read rs k before e =
      let (i, found, at) = search_some k before e in
      let z = h.index in
      let less = line_end-lt (last_of text) bs i found in
      let inside : (length text + i == c.read_idx + length bs) ≡ false = ground arith in
      process_round rs ∙ rw (scanned, found, ◌>>=◌, inside, at)

-- the 0 over the CR makes the bytes before it a C string
pub run_program-answered :
    (exists : List ℕ → Bool) (forks : Bool) (text : List ℕ) (c : CgiConn) (k : ℕ)
    → Holds text c
    → line_end none text ≡ some k
    → Gives
        (λ r. r.1 ≡ answered exists forks (before_nul (take (k - 1) text)))
        (run_program exists forks c k)
unfolding run_program c_string
run_program-answered exists forks text c k h e =
    let (name, r, split, at) = line_end-split k text e in
    let place : k - 1 ≡ length name = omega arith in
    let rest = 10 ∷ (r ++ h.behind) in
    let whole : c.buf ≡ name ++ (13 ∷ rest) =
      h.text_first ∙ ap (λ t. t ++ h.behind) split ∙ append_assoc name (13 ∷ 10 ∷ r) h.behind in
    let cleared : set c.buf (k - 1) 0 ≡ name ++ (0 ∷ rest) =
      ap (λ b. set b (k - 1) 0) whole ∙ set-append name rest 13 0 (k - 1) place in
    let first : take (k - 1) text ≡ name =
      ap (take (k - 1)) split
      ∙ ap (λ n. take n (name ++ (13 ∷ 10 ∷ r))) place
      ∙ take-append name (13 ∷ 10 ∷ r) in
    rw (cleared, until_nul-before_nul name rest, ◌>>=◌) (gives (rw first))
