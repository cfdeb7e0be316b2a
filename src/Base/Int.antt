-- ===== src/Base/Int.antt =====
-- Signed integers over the native numbers, and Go's int64 as those that wrap at 2^63.
use Prim.Native.Nat.{ℕ, suc, ◌+◌, ◌-◌, ◌*◌, ◌%◌, ◌≤◌, ◌<◌}
use mathlib.Core.Path.{◌≡◌}
use mathlib.Core.Bool.{Bool}
use native.Mathlib.Omega.{arith}
use helm_operator.Base.Tests.{ltb, leb, if◌then◌else◌}

-- `negsuc n` is -(n + 1).
pub data ℤ : Type 0 where
  pos : ℕ → ℤ
  negsuc : ℕ → ℤ

abbrev pub pos_part : ℤ → ℕ
pos_part (pos n) = n
pos_part (negsuc _) = 0

abbrev pub neg_part : ℤ → ℕ
neg_part (pos _) = 0
neg_part (negsuc n) = suc n

abbrev pub leb_ℤ : ℤ → ℤ → Bool
leb_ℤ a b = leb (pos_part a + neg_part b) (pos_part b + neg_part a)

abbrev pub ltb_ℤ : ℤ → ℤ → Bool
ltb_ℤ a b = ltb (pos_part a + neg_part b) (pos_part b + neg_part a)

abbrev pub ◌≤ℤ◌ : ℤ → ℤ → Type 0
a ≤ℤ b = pos_part a + neg_part b ≤ pos_part b + neg_part a

infix 50 ◌≤ℤ◌
-- The bits of a two's complement word, read as an int64.
abbrev word_i64 : ℕ → ℤ
word_i64 m = if ltb m 9223372036854775808 then pos m else negsuc (18446744073709551615 - m)

-- An integer reduced to an int64.
unfoldable pub wrap_i64 : ℤ → ℤ
wrap_i64 (pos n) = word_i64 (n % 18446744073709551616)
wrap_i64 (negsuc n) = word_i64 (18446744073709551615 - n % 18446744073709551616)

-- `a + 1` and `a * k` on an int64, for a positive constant k.
unfoldable pub inc_i64 : ℤ → ℤ
inc_i64 (pos n) = wrap_i64 (pos (n + 1))
inc_i64 (negsuc n) = if ltb 0 n then negsuc (n - 1) else pos 0

unfoldable pub scale_i64 : ℤ → ℕ → ℤ
scale_i64 (pos n) k = wrap_i64 (pos (n * k))
scale_i64 (negsuc n) k = wrap_i64 (negsuc ((n + 1) * k - 1))

-- Below the largest int64 an increment is exact.
pub inc_i64-pos : (n : ℕ) → n < 9223372036854775807 → inc_i64 (pos n) ≡ pos (n + 1)
unfolding inc_i64 wrap_i64
inc_i64-pos n h = ground arith
