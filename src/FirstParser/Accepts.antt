-- ===== src/FirstParser/Accepts.antt =====
-- The request lines that parse_requestline of socket/http/http_readParse.cpp accepts.
use unix_programming.Base.{
  ℕ, ◌+◌, ◌≡◌, refl, ap, sym, subst, ◌∙◌, true, false, Option, none, some, List, [], ◌∷◌, ◌++◌,
  arith, length, set, Bool, inl, inr, ◌⊎◌, if◌then◌else◌, ◌>>=◌, Gives, gives, Gives-map, Gives-inv,
}
use unix_programming.Base.Text.{codes, c_string, strchr}
use unix_programming.Base.Text.Laws.{NoNul, c_string-at}
use unix_programming.FirstParser.{
  CheckState, header, no_request, bad_request, Parsed, parsed, same_text, parse_version,
  parse_requestline,
}
use unix_programming.FirstParser.Cut.{
  NoSpace, strchr-Cut, strchr-append, same_text_eq, same_text_refl, cut, set-spaced, NoNul-split,
  first_string, second_string,
}
use unix_programming.FirstParser.Version.{version_text, Refused, ReadsVersion, parse_version-Reads}

-- the line `GET url HTTP/1.1`
abbrev pub request : (url : List ℕ) → List ℕ
request url = codes "GET" ++ (32 ∷ (url ++ (32 ∷ version_text)))

-- the code, the state and the buffer that it leads to: the spaces have become 0
abbrev pub accepted : (url r : List ℕ) → Parsed
accepted url r = record {
  code = no_request;
  state = header;
  temp = cut (codes "GET" ++ (0 ∷ [])) url version_text r;
}

abbrev pub IsRequest : List ℕ → List ℕ → Type 0
IsRequest line url = NoSpace url × (line ≡ request url)

abbrev AcceptsOnly : (line r : List ℕ) → CheckState → Parsed → Type 0
AcceptsOnly line r state res =
    ((url : List ℕ) × IsRequest line url × (res ≡ accepted url r)) ⊎ Refused state res

parse_requestline-AcceptsOnly :
    (line r : List ℕ) (state : CheckState)
    → NoNul line
    → Gives (AcceptsOnly line r state) (parse_requestline (line ++ (0 ∷ r)) state)
unfolding parse_requestline
parse_requestline-AcceptsOnly line r state h =
    rw (c_string-at (line ++ (0 ∷ r)) [] line r 0 refl refl h, ◌>>=◌) (found (strchr 32 line) refl)
  where
    behind_get :
        (m v : List ℕ)
        → m ≡ codes "GET"
        → line ≡ m ++ (32 ∷ v)
        → (res : Parsed) → ReadsVersion (codes "GET" ++ (0 ∷ [])) v r state res
        → AcceptsOnly line r state res
    behind_get m v get whole res (inl (u, first, e, read)) = inl (
      u,
      (first, whole ∙ ap (λ t. t ++ (32 ∷ v)) get ∙ ap (λ t. codes "GET" ++ (32 ∷ t)) e),
      read,
    )
    behind_get m v get whole res (inr refused) = inr refused

    method_read :
        (m v : List ℕ) (b : Bool)
        → same_text m (codes "GET") ≡ b
        → line ≡ m ++ (32 ∷ v)
        → Gives (AcceptsOnly line r state) (
            if b
            then parse_version (length m + 1) (cut [] m v r) state
            else parsed bad_request state (cut [] m v r))
    method_read m v true same whole =
        let get = same_text_eq m (codes "GET") same in
        rw get (
          Gives-map
            (parse_version-Reads (codes "GET" ++ (0 ∷ [])) v r 4 state refl
              (NoNul-split m v 32 (subst NoNul whole h)).1)
            (behind_get m v get whole))
    method_read m v false same whole = gives (inr (refl, refl))

    found :
        (m : Option ℕ)
        → strchr 32 line ≡ m
        → Gives (AcceptsOnly line r state) (elim m [
          | none ↦ parsed bad_request state (line ++ (0 ∷ r))
          | some k ↦ do
            let temp = set (line ++ (0 ∷ r)) k 0
            method ← c_string temp 0
            if same_text method (codes "GET")
                then parse_version (k + 1) temp state
                else parsed bad_request state temp
        ])
    found none e = gives (inr (refl, refl))
    found (some k) e =
        let c = strchr-Cut line k e in
        let is_cut : set (line ++ (0 ∷ r)) k 0 ≡ cut [] c.before c.behind r =
          ap (λ t. set (t ++ (0 ∷ r)) k 0) c.whole
          ∙ set-spaced [] c.before c.behind r k (omega (arith, c.at)) in
        rw is_cut (
          rw (first_string [] c.before c.behind r (subst NoNul c.whole h) 0 refl, ◌>>=◌)
            (rw c.at
              (method_read c.before c.behind (same_text c.before (codes "GET")) refl c.whole)))

parse_version-request :
    (url r : List ℕ) (state : CheckState)
    → NoSpace url
    → NoNul (url ++ (32 ∷ version_text))
    → parse_version 4 (cut [] (codes "GET") (url ++ (32 ∷ version_text)) r) state
      ≡ some (accepted url r)
unfolding parse_version
parse_version-request url r state first h =
    let pre = codes "GET" ++ (0 ∷ []) in
    let s = url ++ (32 ∷ version_text) in
    rw (c_string-at (pre ++ (s ++ (0 ∷ r))) pre s r 4 refl refl h, ◌>>=◌)
      (rw (strchr-append url version_text first) (
        rw (set-spaced pre url version_text r (4 + length url) (omega arith)) (
          rw (second_string pre url version_text r h (4 + length url + 1) (omega arith), ◌>>=◌)
            (rw (same_text_refl version_text) refl))))

-- A line `GET url HTTP/1.1` is accepted.
pub parse_requestline-request :
    (url r : List ℕ) (state : CheckState)
    → NoSpace url
    → NoNul (request url)
    → parse_requestline (request url ++ (0 ∷ r)) state ≡ some (accepted url r)
unfolding parse_requestline
parse_requestline-request url r state first h =
    let v = url ++ (32 ∷ version_text) in
    let get_first : NoSpace (codes "GET") = (omega arith, (omega arith, (omega arith, tt))) in
    rw (c_string-at (request url ++ (0 ∷ r)) [] (request url) r 0 refl refl h, ◌>>=◌)
      (rw (strchr-append (codes "GET") v get_first) (
        rw (set-spaced [] (codes "GET") v r 3 refl) (
          rw (first_string [] (codes "GET") v r h 0 refl, ◌>>=◌)
            (rw (same_text_refl (codes "GET"))
              (parse_version-request url r state first (NoNul-split (codes "GET") v 32 h).1)))))

not_both :
    (res : Parsed) (url r : List ℕ) → some res ≡ some (accepted url r) → res.code ≡ bad_request → ⊥
not_both res url r e code =
    let c = ap (λ (x : Option Parsed). elim x [ none ↦ bad_request | some p ↦ p.code ]) e in cc

-- What parse_requestline makes of the line in front of a 0: the fields of an accepted request, or
-- bad_request where the line is no request.
abbrev pub Decides : (line r : List ℕ) → CheckState → Parsed → Type 0
Decides line r state res =
    ((url : List ℕ) × IsRequest line url × (res ≡ accepted url r))
    ⊎ (((url : List ℕ) → ¬ (IsRequest line url)) × Refused state res)

-- parse_requestline reads no further than the 0 behind the line. It accepts exactly the lines `GET url
-- HTTP/1.1` with single spaces and no space in the url: the spaces become 0, so that the three
-- words are C strings, and checkState goes on to the header. Any other line is a bad request, and
-- checkState stays.
pub parse_requestline-Decides :
    (line r : List ℕ) (state : CheckState)
    → NoNul line
    → Gives (Decides line r state) (parse_requestline (line ++ (0 ∷ r)) state)
parse_requestline-Decides line r state h =
    let (res, run, read) = Gives-inv (parse_requestline-AcceptsOnly line r state h) in
    rw run (gives (decide res run read))
  where
    decide :
        (res : Parsed)
        → parse_requestline (line ++ (0 ∷ r)) state ≡ some res
        → AcceptsOnly line r state res
        → Decides line r state res
    decide res run (inl is) = inl is
    decide res run (inr (code, same)) = inr (
      (λ url (first, whole).
          let accepts =
            ap (λ t. parse_requestline (t ++ (0 ∷ r)) state) whole
            ∙ parse_requestline-request url r state first (subst NoNul whole h) in
          let equal : some res ≡ some (accepted url r) = sym run ∙ accepts in
          not_both res url r equal code),
      (code, same),
    )
