-- ===== src/Base/Text.antt =====
-- C strings in a buffer: the functions of <string.h>, <strings.h> and <stdlib.h> that the code
-- uses. A text is the list of its bytes; an address is an offset into the buffer.
pub mod Laws
use Prim.Native.Char.{code}
use Prim.Native.String.{String}
use Prim.Native.Nat.{ℕ, zero, suc, ◌/◌, ◌%◌, ◌+◌, ◌-◌, ◌*◌, ◌^◌}
use mathlib.Core.Bool.{Bool, true, false, ◌&&◌, ◌||◌}
use mathlib.Core.Option
use mathlib.Core.Option.{Option, none, some}
use mathlib.Core.List.{List, [], ◌∷◌}
use unix_programming.Base.Tests.{leb, ltb, ◌==◌, if◌then◌else◌}
use unix_programming.Base.Lists.{drop}
use unix_programming.Base.Int.{ℤ, pos, negsuc, minus}

-- the bytes of a literal
abbrev pub codes : String → List ℕ
codes String.[] = []
codes (String.◌∷◌ c s) = code c ∷ codes s

-- the bytes before the first 0; none where there is no 0
unfoldable pub until_nul : List ℕ → Option (List ℕ)
until_nul [] = none
until_nul (c ∷ cs) = if c == 0 then some [] else Option.map (◌∷◌ c) (until_nul cs)

-- the string at an address; none where it runs past the end of the buffer
unfoldable pub c_string : List ℕ → ℕ → Option (List ℕ)
unfolding until_nul
c_string buf p = until_nul (drop p buf)

-- the blanks " \t"
abbrev pub is_blank : ℕ → Bool
is_blank c = (c == 32) || (c == 9)

-- strpbrk(s, " \t"), as an offset
unfoldable pub strpbrk : List ℕ → Option ℕ
strpbrk [] = none
strpbrk (c ∷ cs) = if is_blank c then some 0 else Option.map suc (strpbrk cs)

-- strspn(s, " \t")
unfoldable pub strspn : List ℕ → ℕ
strspn [] = 0
strspn (c ∷ cs) = if is_blank c then suc (strspn cs) else 0

-- strchr(s, c), as an offset
unfoldable pub strchr : ℕ → List ℕ → Option ℕ
strchr c [] = none
strchr c (x ∷ xs) = if x == c then some 0 else Option.map suc (strchr c xs)

abbrev pub to_lower : ℕ → ℕ
to_lower c = if leb b'A' c && leb c b'Z' then c + 32 else c

-- strcasecmp(s, t) == 0
unfoldable pub eq_nocase : List ℕ → List ℕ → Bool
eq_nocase [] [] = true
eq_nocase [] (y ∷ ys) = false
eq_nocase (x ∷ xs) [] = false
eq_nocase (x ∷ xs) (y ∷ ys) = (to_lower x == to_lower y) && eq_nocase xs ys

-- strncasecmp(s, t, strlen(t)) == 0
unfoldable pub prefix_nocase : List ℕ → List ℕ → Bool
prefix_nocase xs [] = true
prefix_nocase [] (y ∷ ys) = false
prefix_nocase (x ∷ xs) (y ∷ ys) = (to_lower x == to_lower y) && prefix_nocase xs ys

abbrev pub is_digit : ℕ → Bool
is_digit c = leb b'0' c && leb c b'9'

-- isspace
abbrev pub is_space : ℕ → Bool
is_space c = (c == 32) || (leb 9 c && leb c 13)

unfoldable pub digits_value : ℕ → List ℕ → ℕ
digits_value acc [] = acc
digits_value acc (c ∷ cs) =
    let rest = digits_value (acc * 10 + (c - 48)) cs in if is_digit c then rest else acc

-- the value, if `int` can hold it; elsewhere atoi is undefined
abbrev pub int_of : Bool → ℕ → Option ℤ
int_of false n = if ltb n (2 ^ 31) then some (pos n) else none
int_of true n = if leb n (2 ^ 31) then some (minus n) else none

unfoldable pub signed_value : List ℕ → Option ℤ
unfolding digits_value
signed_value [] = some (pos 0)
signed_value (c ∷ cs) =
    if c == b'-'
    then int_of true (digits_value 0 cs)
    else if c == b'+'
    then int_of false (digits_value 0 cs)
    else int_of false (digits_value 0 (c ∷ cs))

unfoldable pub atoi : List ℕ → Option ℤ
unfolding signed_value
atoi [] = some (pos 0)
atoi (c ∷ cs) = let rest = atoi cs in if is_space c then rest else signed_value (c ∷ cs)

-- "%d"; a natural has fewer digits than its value plus one
unfoldable pub decimal_onto : ℕ → ℕ → List ℕ → List ℕ
decimal_onto zero n acc = acc
decimal_onto (suc f) n acc =
    let rest = decimal_onto f (n / 10) ((48 + n % 10) ∷ acc) in
    if ltb n 10 then (48 + n) ∷ acc else rest

unfoldable pub decimal : ℤ → List ℕ
unfolding decimal_onto
decimal (pos n) = decimal_onto (suc n) n []
decimal (negsuc n) = b'-' ∷ decimal_onto (suc (suc n)) (suc n) []
