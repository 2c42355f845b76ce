-- ===== src/Base/Int.antt =====
-- Signed integers, of which the code has few: `negsuc n` is -(n + 1).
use Prim.Native.Nat.{ℕ, ◌+◌, ◌-◌, ◌%◌, ◌^◌, zero, suc}
use mathlib.Core.Bool.{Bool, true, false}
use mathlib.Core.Option.{Option, none, some}
use unix_programming.Base.Tests.{leb, ltb, ◌==◌, if◌then◌else◌}

pub data ℤ : Type 0 where
  pos : ℕ → ℤ
  negsuc : ℕ → ℤ

abbrev pub is_zero : ℤ → Bool
is_zero (pos n) = n == 0
is_zero (negsuc n) = false

-- z + a as an `int`, for one z that is an `int`; none where it overflows
abbrev pub add_int : ℤ → ℕ → Option ℤ
add_int (pos n) a = if ltb (n + a) (2 ^ 31) then some (pos (n + a)) else none
add_int (negsuc n) a = if leb (suc n) a then some (pos (a - suc n)) else some (negsuc (n - a))

-- z + 1
abbrev pub plus_one : ℤ → ℤ
plus_one (pos n) = pos (suc n)
plus_one (negsuc zero) = pos 0
plus_one (negsuc (suc n)) = negsuc n

-- a + z as an index; none below 0
abbrev pub offset : ℕ → ℤ → Option ℕ
offset a (pos n) = some (a + n)
offset a (negsuc n) = if ltb n a then some (a - suc n) else none

-- -n
abbrev pub minus : ℕ → ℤ
minus n = if n == 0 then pos 0 else negsuc (n - 1)

-- z - k
abbrev pub sub : ℤ → ℕ → ℤ
sub (pos n) k = if leb k n then pos (n - k) else negsuc (k - n - 1)
sub (negsuc n) k = negsuc (n + k)

-- z <= n
abbrev pub leb_ℕ : ℤ → ℕ → Bool
leb_ℕ (pos m) n = leb m n
leb_ℕ (negsuc m) n = true

-- z >= n
abbrev pub geb_ℕ : ℤ → ℕ → Bool
geb_ℕ (pos m) n = leb n m
geb_ℕ (negsuc m) n = false

-- a value of a wider type converted to a 32-bit `int`
abbrev pub to_int : ℕ → ℤ
to_int n = let low = n % 2 ^ 32 in if ltb low (2 ^ 31) then pos low else negsuc (2 ^ 32 - low - 1)
