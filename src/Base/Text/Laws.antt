-- ===== src/Base/Text/Laws.antt =====
-- Strings at a known place of a buffer.
use unix_programming.Base.Tests.{◌==◌, if◌then◌else◌}
use unix_programming.Base.Lists.{length, set, get_elem?, drop-append, All}
use unix_programming.Base.Text.{until_nul, c_string, is_blank, strpbrk}
use Prim.Native.Nat.{ℕ}
use mathlib.Core.Path.{◌≡◌, refl, ap}
use mathlib.Core.Logic.{◌≢◌}
use mathlib.Core.Bool.{true, false}
use mathlib.Core.Option.{some}
use mathlib.Core.List.{List, [], ◌∷◌, ◌++◌}
use native.Mathlib.Omega.{arith}

-- no 0 in a text
abbrev pub NoNul : List ℕ → Type 0
NoNul = All (λ c. c ≢ 0)

-- no blank in a text
abbrev pub NoBlank : List ℕ → Type 0
NoBlank = All (λ c. is_blank c ≡ false)

until_nul-append : (s r : List ℕ) → NoNul s → until_nul (s ++ 0 ∷ r) ≡ some s
unfolding until_nul
until_nul-append [] r h = refl
until_nul-append (c ∷ s) r h =
    let other : (c == 0) ≡ false = ground arith in rw (other, until_nul-append s r h.1)

pub c_string-at :
    (buf a s r : List ℕ) (p : ℕ)
    → buf ≡ a ++ (s ++ 0 ∷ r)
    → p ≡ length a
    → NoNul s
    → c_string buf p ≡ some s
unfolding c_string
c_string-at buf a s r p e at h = rw (e, at, drop-append a (s ++ 0 ∷ r)) (until_nul-append s r h)

pub strpbrk-append :
    (s r : List ℕ) (b : ℕ) → NoBlank s → is_blank b ≡ true → strpbrk (s ++ b ∷ r) ≡ some (length s)
unfolding strpbrk
strpbrk-append [] r b h blank = rw blank
strpbrk-append (c ∷ s) r b h blank = rw (h.0, strpbrk-append s r b h.1 blank)

pub set-append : (a r : List ℕ) (x v p : ℕ) → p ≡ length a → set (a ++ x ∷ r) p v ≡ a ++ v ∷ r
set-append [] r x v p e = rw e
set-append (y ∷ a) r x v p e = rw e (ap (◌∷◌ y) (set-append a r x v (length a) refl))

pub get_elem?-append : (a r : List ℕ) (x p : ℕ) → p ≡ length a → get_elem? (a ++ x ∷ r) p ≡ some x
get_elem?-append [] r x p e = rw e
get_elem?-append (y ∷ a) r x p e = rw e (get_elem?-append a r x (length a) refl)

-- the bytes before the first 0
unfoldable pub before_nul : List ℕ → List ℕ
before_nul [] = []
before_nul (c ∷ cs) = if c == 0 then [] else c ∷ before_nul cs

pub until_nul-before_nul : (s r : List ℕ) → until_nul (s ++ (0 ∷ r)) ≡ some (before_nul s)
unfolding until_nul before_nul
until_nul-before_nul [] r = refl
until_nul-before_nul (c ∷ s) r = ground (arith, until_nul-before_nul s r)
