-- ===== src/FirstParser/Version.antt =====
-- What parse_requestline of socket/http/http_readParse.cpp makes of the url and the version.
use unix_programming.Base.{
  ℕ, ◌+◌, ◌≡◌, refl, ap, subst, ◌∙◌, true, false, Option, none, some, List, ◌∷◌, ◌++◌, arith,
  length, set, Bool, inl, inr, ◌⊎◌, if◌then◌else◌, ◌>>=◌, Gives, gives,
}
use unix_programming.Base.Text.{codes, c_string, strchr}
use unix_programming.Base.Text.Laws.{NoNul, c_string-at}
use unix_programming.FirstParser.{
  CheckState, header, no_request, bad_request, Parsed, parsed, same_text, parse_version,
}
use unix_programming.FirstParser.Cut.{
  NoSpace, strchr-Cut, same_text_eq, cut, set-spaced, second_string,
}

-- refused, with the state as it was
abbrev pub Refused : CheckState → Parsed → Type 0
Refused state res = (res.code ≡ bad_request) × (res.state ≡ state)

abbrev pub version_text : List ℕ
version_text = codes "HTTP/1.1"

-- a line of three words in its places, with the blanks cut out
abbrev pub ReadsVersion : (pre s r : List ℕ) → CheckState → Parsed → Type 0
ReadsVersion pre s r state res =
    ((u : List ℕ) × NoSpace u
      × (s ≡ u ++ (32 ∷ version_text))
      × (res ≡ record { code = no_request; state = header; temp = cut pre u version_text r }))
    ⊎ Refused state res

pub parse_version-Reads :
    (pre s r : List ℕ) (url : ℕ) (state : CheckState)
    → url ≡ length pre
    → NoNul s
    → Gives (ReadsVersion pre s r state) (parse_version url (pre ++ (s ++ (0 ∷ r))) state)
unfolding parse_version
parse_version-Reads pre s r url state at h =
    rw (c_string-at (pre ++ (s ++ (0 ∷ r))) pre s r url refl at h, ◌>>=◌) (found (strchr 32 s) refl)
  where
    versioned :
        (u v : List ℕ) (b : Bool)
        → same_text v version_text ≡ b
        → NoSpace u
        → s ≡ u ++ (32 ∷ v)
        → Gives (ReadsVersion pre s r state) (
            if b
            then parsed no_request header (cut pre u v r)
            else parsed bad_request state (cut pre u v r))
    versioned u v true same first whole =
        let e = same_text_eq v version_text same in
        gives (
          inl (
            u,
            first,
            (whole ∙ ap (λ t. u ++ (32 ∷ t)) e),
            ap (λ t. record { code = no_request; state = header; temp = cut pre u t r }) e,
          ))
    versioned u v false same first whole = gives (inr (refl, refl))

    found :
        (m : Option ℕ)
        → strchr 32 s ≡ m
        → Gives (ReadsVersion pre s r state) (elim m [
          | none ↦ parsed bad_request state (pre ++ (s ++ (0 ∷ r)))
          | some k ↦ do
            let temp = set (pre ++ (s ++ (0 ∷ r))) (url + k) 0
            version ← c_string temp (url + k + 1)
            if same_text version (codes "HTTP/1.1")
                then parsed no_request header temp
                else parsed bad_request state temp
        ])
    found none e = gives (inr (refl, refl))
    found (some k) e =
        let c = strchr-Cut s k e in
        let is_cut : set (pre ++ (s ++ (0 ∷ r))) (url + k) 0 ≡ cut pre c.before c.behind r =
          ap (λ t. set (pre ++ (t ++ (0 ∷ r))) (url + k) 0) c.whole
          ∙ set-spaced pre c.before c.behind r (url + k) (omega (arith, at, c.at)) in
        rw is_cut (
          rw
            (
              second_string pre c.before c.behind r (subst NoNul c.whole h) (url + k + 1)
                  (omega (arith, at, c.at)),
              ◌>>=◌,
            )
            (versioned c.before c.behind (same_text c.behind version_text) refl c.first c.whole))
