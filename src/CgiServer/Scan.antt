-- ===== src/CgiServer/Scan.antt =====
-- The search for the end of a line in cgi_conn::process of socket/pool/cgi_server.cpp.
use unix_programming.Base.{
  ℕ, zero, suc, ◌+◌, ◌<◌, ◌≡◌, refl, ap, ◌∙◌, false, Bool, Option, none, some, List, [], ◌∷◌, ◌++◌,
  arith, ◌==◌, if◌then◌else◌, length, get_elem?, length-append, append_assoc, ◌>>=◌, Bool-cases,
  Option-cases, inl, inr,
}
use unix_programming.CgiServer.{ends_line, scan}

-- a CR LF, of the byte before and the byte
abbrev pub is_crlf : Option ℕ → ℕ → Bool
is_crlf none x = false
is_crlf (some a) x = if a == 13 then x == 10 else false

abbrev pub last_byte : ℕ → List ℕ → ℕ
last_byte d [] = d
last_byte d (x ∷ xs) = last_byte x xs

abbrev pub last_of : List ℕ → Option ℕ
last_of [] = none
last_of (x ∷ xs) = some (last_byte x xs)

-- where the LF of the first CR LF stands in a text that comes behind the byte `prev`
abbrev pub line_end : (prev : Option ℕ) → List ℕ → Option ℕ
line_end prev [] = none
line_end prev (x ∷ xs) =
    if is_crlf prev x then some 0 else (line_end (some x) xs >>= λ i. some (suc i))

-- the place, or the end of the text
abbrev pub place_or : ℕ → Option ℕ → ℕ
place_or n none = n
place_or n (some i) = i

place_or-suc :
    (n : ℕ) (o : Option ℕ) → place_or (suc n) (o >>= λ i. some (suc i)) ≡ suc (place_or n o)
place_or-suc n none = refl
place_or-suc n (some i) = refl

byte_before :
    (y : ℕ) (pre r : List ℕ) → get_elem? (y ∷ (pre ++ r)) (length pre) ≡ some (last_byte y pre)
byte_before y [] r = refl
byte_before y (w ∷ pre) r = byte_before w pre r

byte_here : (pre r : List ℕ) (x : ℕ) → get_elem? (pre ++ (x ∷ r)) (length pre) ≡ some x
byte_here [] r x = refl
byte_here (y ∷ pre) r x = byte_here pre r x

ends_line-is_crlf :
    (pre r : List ℕ) (x : ℕ)
    → ends_line (pre ++ (x ∷ r)) (length pre) ≡ some (is_crlf (last_of pre) x)
unfolding ends_line
ends_line-is_crlf [] r x = refl
ends_line-is_crlf (y ∷ pre) r x =
    rw (byte_before y pre (x ∷ r), ◌>>=◌) (rw (byte_here pre r x, ◌>>=◌))

last_byte-append : (d : ℕ) (pre : List ℕ) (x : ℕ) → last_byte d (pre ++ (x ∷ [])) ≡ x
last_byte-append d [] x = refl
last_byte-append d (y ∷ pre) x = last_byte-append y pre x

last_of-append : (pre : List ℕ) (x : ℕ) → last_of (pre ++ (x ∷ [])) ≡ some x
last_of-append [] x = refl
last_of-append (y ∷ pre) x = ap some (last_byte-append y pre x)

-- The loop finds the end of the line in the bytes that are new, with the byte before them.
pub scan-line_end :
    (pre suf z : List ℕ)
    → scan (length suf) (length pre) (pre ++ (suf ++ z))
      ≡ some (length pre + place_or (length suf) (line_end (last_of pre) suf))
unfolding scan
scan-line_end pre [] z = ap some (omega arith)
scan-line_end pre (x ∷ suf) z =
    let here = ends_line-is_crlf pre (suf ++ z) x in
    elim (Bool-cases (is_crlf (last_of pre) x)) [
      | inl found ↦ rw (here, ◌>>=◌, found) (ap some (omega arith))
      | inr more ↦
          let ih = scan-line_end (pre ++ (x ∷ [])) suf z in
          let longer : length (pre ++ (x ∷ [])) ≡ suc (length pre) =
            omega (arith, length-append pre (x ∷ [])) in
          let at = rw (longer, append_assoc, last_of-append) at ih in
          rw (here, ◌>>=◌, more)
            (at ∙ ap some (omega (arith, place_or-suc (length suf) (line_end (some x) suf))))
    ]

-- the byte before the end of a text that comes behind `p`
abbrev pub last_from : Option ℕ → List ℕ → Option ℕ
last_from p [] = p
last_from p (x ∷ xs) = last_from (some x) xs

pub last_from-last_of : (xs : List ℕ) → last_from none xs ≡ last_of xs
last_from-last_of [] = refl
last_from-last_of (x ∷ xs) = from_some x xs
  where
    from_some : (x : ℕ) (xs : List ℕ) → last_from (some x) xs ≡ some (last_byte x xs)
    from_some x [] = refl
    from_some x (y ∷ ys) = from_some y ys

-- a search that fails in the first part goes on in the second
pub line_end-append :
    (p : Option ℕ) (xs ys : List ℕ)
    → line_end p xs ≡ none
    → line_end p (xs ++ ys) ≡ (line_end (last_from p xs) ys >>= λ i. some (length xs + i))
line_end-append p [] ys h = none_added (line_end p ys)
  where
    none_added : (o : Option ℕ) → o ≡ (o >>= λ i. some (0 + i))
    none_added none = refl
    none_added (some i) = ap some (omega arith)
line_end-append p (x ∷ xs) ys h =
    ground (arith, line_end-append (some x) xs ys, one_more (line_end (last_from (some x) xs) ys))
  where
    one_more :
        (o : Option ℕ)
        → ((o >>= λ i. some (length xs + i)) >>= λ i. some (suc i))
          ≡ (o >>= λ i. some (suc (length xs) + i))
    one_more none = refl
    one_more (some i) = ap some (omega arith)

pub line_end-prefix :
    (p : Option ℕ) (xs ys : List ℕ) → line_end p (xs ++ ys) ≡ none → line_end p xs ≡ none
line_end-prefix p [] ys h = refl
line_end-prefix p (x ∷ xs) ys h = ground (arith, line_end-prefix (some x) xs ys)

-- what stands before the CR LF that is found
split_behind :
    (x j : ℕ) (xs : List ℕ)
    → line_end (some x) xs ≡ some j
    → (name : List ℕ) × (r : List ℕ) × (x ∷ xs ≡ name ++ (13 ∷ 10 ∷ r)) × (length name ≡ j)
split_behind x j [] h = cc
split_behind x j (y ∷ ys) h = elim (Bool-cases (is_crlf (some x) y)) [
  | inl e ↦
      let cr : x ≡ 13 = ground arith in
      let lf : y ≡ 10 = ground arith in ([], ys, rw (cr, lf), ground arith)
  | inr e ↦ elim (Option-cases (line_end (some y) ys)) [
    | inl no_line ↦ ground arith
    | inr (i, found) ↦
        let (name, r, text, at) = split_behind y i ys found in
        (x ∷ name, r, ap (◌∷◌ x) text, ground arith)
  ]
]

pub line_end-split :
    (k : ℕ) (xs : List ℕ)
    → line_end none xs ≡ some k
    → (name : List ℕ) × (r : List ℕ) × (xs ≡ name ++ (13 ∷ 10 ∷ r)) × (suc (length name) ≡ k)
line_end-split k [] h = cc
line_end-split k (x ∷ xs) h = elim (Option-cases (line_end (some x) xs)) [
  | inl no_line ↦ ground arith
  | inr (j, found) ↦
      let (name, r, text, at) = split_behind x j xs found in (name, r, text, ground arith)
]

pub line_end-lt : (p : Option ℕ) (xs : List ℕ) (i : ℕ) → line_end p xs ≡ some i → i < length xs
line_end-lt p [] i h = cc
line_end-lt p (x ∷ xs) zero h = omega arith
line_end-lt p (x ∷ xs) (suc i) h = ground (arith, line_end-lt (some x) xs i)
