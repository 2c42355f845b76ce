-- ===== src/FirstParser/Cut.antt =====
-- A text that is cut at its first blank, as parse_requestline of socket/http/http_readParse.cpp does.
use unix_programming.Base.{
  ℕ, suc, ◌+◌, ◌≡◌, ◌≢◌, refl, ap, sym, ◌∙◌, true, false, Option, none, some, List, [], ◌∷◌, ◌++◌,
  arith, length, set, ◌==◌, Bool-cases, inl, inr, if◌then◌else◌, All, append_assoc, length-append,
}
use mathlib.Core.Option
use unix_programming.Base.Text.{c_string, strchr}
use unix_programming.Base.Text.Laws.{NoNul, set-append, c_string-at}
use unix_programming.FirstParser.{same_text}

-- no space in a text
abbrev pub NoSpace : List ℕ → Type 0
NoSpace = All (λ c. c ≢ 32)

-- where strchr finds the space
pub record Cut (s : List ℕ) (k : ℕ) : Type 0 where
  pub before : List ℕ
  pub behind : List ℕ
  pub whole : s ≡ before ++ (32 ∷ behind)
  pub at : k ≡ length before
  pub first : NoSpace before

pub strchr-Cut : (s : List ℕ) (k : ℕ) → strchr 32 s ≡ some k → Cut s k
unfolding strchr
strchr-Cut [] k e = cc
strchr-Cut (x ∷ s) k e = elim (Bool-cases (x == 32)) [
  | inl here ↦
      let z : x ≡ 32 = ground arith in
      record {
        before = [];
        behind = s;
        whole = ap (λ (y : ℕ). y ∷ s) z;
        at = first_at here e;
        first = tt;
      }
  | inr other ↦ later other (strchr 32 s) refl (later_at other e) λ j found. strchr-Cut s j found
]
  where
    first_at :
        (x == 32) ≡ true
        → (if x == 32 then some 0 else Option.map suc (strchr 32 s)) ≡ some k
        → k ≡ 0
    first_at h e = ground arith

    later_at :
        (x == 32) ≡ false
        → (if x == 32 then some 0 else Option.map suc (strchr 32 s)) ≡ some k
        → Option.map suc (strchr 32 s) ≡ some k
    later_at h e = ground arith

    later :
        (x == 32) ≡ false
        → (m : Option ℕ) → strchr 32 s ≡ m
        → Option.map suc m ≡ some k
        → ((j : ℕ) → strchr 32 s ≡ some j → Cut s j)
        → Cut (x ∷ s) k
    later h none found e ih = cc
    later h (some j) found e ih =
        let c = ih j found in
        record {
          before = x ∷ c.before;
          behind = c.behind;
          whole = ap (◌∷◌ x) c.whole;
          at = ground (arith, c.at);
          first = (ground arith, c.first);
        }

pub strchr-append : (s r : List ℕ) → NoSpace s → strchr 32 (s ++ (32 ∷ r)) ≡ some (length s)
unfolding strchr
strchr-append [] r h = refl
strchr-append (c ∷ s) r h =
    let other : (c == 32) ≡ false = ground arith in rw (other, strchr-append s r h.1)

pub same_text_eq : (s t : List ℕ) → same_text s t ≡ true → s ≡ t
unfolding same_text
same_text_eq [] [] e = refl
same_text_eq [] (y ∷ t) e = cc
same_text_eq (x ∷ s) [] e = cc
same_text_eq (x ∷ s) (y ∷ t) e =
    let here : x ≡ y = ground arith in
    let rest : same_text s t ≡ true = ground arith in rw (here, same_text_eq s t rest)

pub same_text_refl : (s : List ℕ) → same_text s s ≡ true
unfolding same_text
same_text_refl [] = refl
same_text_refl (x ∷ s) = let e : (x == x) ≡ true = ground arith in rw (e, same_text_refl s)

pub NoNul-split : (u v : List ℕ) (c : ℕ) → NoNul (u ++ (c ∷ v)) → NoNul u × NoNul v
NoNul-split [] v c h = (tt, h.1)
NoNul-split (x ∷ u) v c h = let (k, l) = NoNul-split u v c h.1 in ((h.0, k), l)

-- a string in memory behind `pre`, whose space at `k` becomes a 0
module _ (pre u v r : List ℕ) where
  abbrev pub spaced : List ℕ
  spaced = pre ++ ((u ++ (32 ∷ v)) ++ (0 ∷ r))

  abbrev pub cut : List ℕ
  cut = pre ++ (u ++ (0 ∷ (v ++ (0 ∷ r))))

  pub set-spaced : (q : ℕ) → q ≡ length pre + length u → set spaced q 0 ≡ cut
  set-spaced q at =
      ap (λ t. set (pre ++ t) q 0) (append_assoc u (32 ∷ v) (0 ∷ r))
      ∙ ap (λ t. set t q 0) (sym (append_assoc pre u (32 ∷ (v ++ (0 ∷ r)))))
      ∙ set-append (pre ++ u) (v ++ (0 ∷ r)) 32 0 q (at ∙ sym (length-append pre u))
      ∙ append_assoc pre u (0 ∷ (v ++ (0 ∷ r)))

  module _ (no_nul : NoNul (u ++ (32 ∷ v))) where
    pub first_string : (p : ℕ) → p ≡ length pre → c_string cut p ≡ some u
    first_string p at = c_string-at cut pre u (v ++ (0 ∷ r)) p refl at (NoNul-split u v 32 no_nul).0

    pub second_string : (q : ℕ) → q ≡ length pre + length u + 1 → c_string cut q ≡ some v
    second_string q at =
        c_string-at cut (pre ++ (u ++ (0 ∷ []))) v r q
          (sym (
            append_assoc pre (u ++ (0 ∷ [])) (v ++ (0 ∷ r))
            ∙ ap (λ t. pre ++ t) (append_assoc u (0 ∷ []) (v ++ (0 ∷ r)))))
          (at ∙ omega (arith, length-append pre (u ++ (0 ∷ [])), length-append u (0 ∷ [])))
          (NoNul-split u v 32 no_nul).1
