-- ===== src/Common/Int.antt =====
-- Signed integers: what the program's `int` values need where they may be negative.
use Prim.Native.Nat.{ℕ, ◌+◌, ◌-◌, ◌*◌, ◌%◌}
use mathlib.Core.Bool.{Bool, true, false}
use landmark_api.Common.Tests.{leb, if◌then◌else◌}

-- `negsuc n` is -(n + 1).
pub data ℤ : Type 0 where
  pos : ℕ → ℤ
  negsuc : ℕ → ℤ

-- a - b, as an integer.
abbrev pub sub_ℕ : ℕ → ℕ → ℤ
sub_ℕ a b = if leb b a then pos (a - b) else negsuc (b - a - 1)

-- limit - count, for a count that is never negative.
abbrev pub minus_count : ℤ → ℕ → ℤ
minus_count (pos n) c = sub_ℕ n c
minus_count (negsuc n) c = negsuc (n + c)

abbrev pub is_nonneg : ℤ → Bool
is_nonneg (pos n) = true
is_nonneg (negsuc n) = false

-- z <= c, for a count c.
abbrev pub le_count : ℤ → ℕ → Bool
le_count (pos n) c = leb n c
le_count (negsuc n) c = true

-- Go's int: two's complement in 64 bits.
abbrev pub to_bits : ℤ → ℕ
to_bits (pos n) = n % 18_446_744_073_709_551_616
to_bits (negsuc n) = 18_446_744_073_709_551_615 - n % 18_446_744_073_709_551_616

abbrev pub of_bits : ℕ → ℤ
of_bits b =
    if leb b 9_223_372_036_854_775_807 then pos b else negsuc (18_446_744_073_709_551_615 - b)

-- z - 1, which to_bits brings back into range.
abbrev pub minus_one : ℤ → ℤ
minus_one (pos n) = if leb 1 n then pos (n - 1) else negsuc 0
minus_one (negsuc n) = negsuc (n + 1)

-- (page - 1) * page_size, which wraps around.
unfoldable pub page_offset : ℤ → ℤ → ℤ
page_offset page page_size =
    of_bits (to_bits (minus_one page) * to_bits page_size % 18_446_744_073_709_551_616)

-- z < 1
abbrev pub below_one : ℤ → Bool
below_one (pos n) = leb n 0
below_one (negsuc n) = true
