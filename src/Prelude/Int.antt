-- ===== src/Prelude/Int.antt =====
-- Go's signed integers. `int`, `int64` and `time.Duration` are integers that wrap around at 64
-- bits; `i64` is that wrap. An instant is a reading of the monotonic clock in nanoseconds.
use Prim.Native.Nat.{ℕ, suc, ◌+◌, ◌-◌, ◌%◌, ◌≤◌, ◌<◌, min}
use mathlib.Core.Path.{◌≡◌}
use mathlib.Core.Bool.{Bool, true, false}
use native.Mathlib.Omega.{arith}
use mproxy.Prelude.Tests.{ltb, leb, if◌then◌else◌}

-- `negsuc n` is -(n + 1).
pub data ℤ : Type 0 where
  pos : ℕ → ℤ
  negsuc : ℕ → ℤ

abbrev pub pos_part : ℤ → ℕ
pos_part (pos n) = n
pos_part (negsuc n) = 0

abbrev pub neg_part : ℤ → ℕ
neg_part (pos n) = 0
neg_part (negsuc n) = suc n

-- a - b, as an integer.
abbrev pub sub_ℕ : ℕ → ℕ → ℤ
sub_ℕ a b = if leb b a then pos (a - b) else negsuc (b - a - 1)

infixl 65 ◌+ℤ◌ ◌-ℤ◌
infix 50 ◌≤ℤ◌ ◌<ℤ◌
unfoldable pub ◌+ℤ◌ : ℤ → ℤ → ℤ
a +ℤ b = sub_ℕ (pos_part a + pos_part b) (neg_part a + neg_part b)

unfoldable pub ◌-ℤ◌ : ℤ → ℤ → ℤ
a -ℤ b = sub_ℕ (pos_part a + neg_part b) (neg_part a + pos_part b)

abbrev pub ◌≤ℤ◌ : ℤ → ℤ → Type 0
a ≤ℤ b = pos_part a + neg_part b ≤ pos_part b + neg_part a

abbrev pub ◌<ℤ◌ : ℤ → ℤ → Type 0
a <ℤ b = pos_part a + neg_part b < pos_part b + neg_part a

-- Go's < and <= .
abbrev pub ltb_ℤ : ℤ → ℤ → Bool
ltb_ℤ a b = ltb (pos_part a + neg_part b) (pos_part b + neg_part a)

abbrev pub leb_ℤ : ℤ → ℤ → Bool
leb_ℤ a b = leb (pos_part a + neg_part b) (pos_part b + neg_part a)

abbrev pub is_zero : ℤ → Bool
is_zero a = leb (pos_part a + neg_part a) 0

pub +ℤ_parts :
    (a b : ℤ)
    → pos_part (a +ℤ b) + neg_part a + neg_part b ≡ neg_part (a +ℤ b) + pos_part a + pos_part b
unfolding ◌+ℤ◌
+ℤ_parts a b = ground arith

pub -ℤ_parts :
    (a b : ℤ)
    → pos_part (a -ℤ b) + neg_part a + pos_part b ≡ neg_part (a -ℤ b) + pos_part a + neg_part b
unfolding ◌-ℤ◌
-ℤ_parts a b = ground arith

pub eq_of_parts : (a b : ℤ) → pos_part a + neg_part b ≡ pos_part b + neg_part a → a ≡ b
eq_of_parts a b h = ground arith

pub ltb_ℤ→<ℤ : (a b : ℤ) → ltb_ℤ a b ≡ true → a <ℤ b
ltb_ℤ→<ℤ a b h = ground arith

pub ltb_ℤ→≤ℤ : (a b : ℤ) → ltb_ℤ a b ≡ false → b ≤ℤ a
ltb_ℤ→≤ℤ a b h = ground arith

pub ≤ℤ_refl : (a : ℤ) → a ≤ℤ a
≤ℤ_refl a = omega arith

pub ruleset int_laws = (arith, +ℤ_parts, -ℤ_parts)

-- 2^64, and the largest value 2^63 - 1.
abbrev pub two_64 : ℕ
two_64 = 18446744073709551616

abbrev pub max_int64 : ℕ
max_int64 = 9223372036854775807

-- The integer that a 64-bit pattern stands for.
abbrev pub of_bits : ℕ → ℤ
of_bits b = if leb b max_int64 then pos b else negsuc (two_64 - 1 - b)

unfoldable pub i64 : ℤ → ℤ
i64 (pos n) = of_bits (n % two_64)
i64 (negsuc n) = of_bits (two_64 - 1 - n % two_64)

-- The range of an `int64`.
abbrev pub IsInt64 : ℤ → Type 0
IsInt64 (pos n) = n ≤ max_int64
IsInt64 (negsuc n) = n ≤ max_int64

pub i64_id : (a : ℤ) → IsInt64 a → i64 a ≡ a
unfolding i64
i64_id (pos n) h = ground arith
i64_id (negsuc n) h = ground arith

pub i64-IsInt64 : (a : ℤ) → IsInt64 (i64 a)
unfolding i64
i64-IsInt64 (pos n) = ground arith
i64-IsInt64 (negsuc n) = ground arith

-- The counter operations x++ and x-- .
abbrev pub inc : ℤ → ℤ
inc a = i64 (a +ℤ pos 1)

abbrev pub dec : ℤ → ℤ
dec a = i64 (a -ℤ pos 1)

-- A wrapped value is never above the value, where that is not negative.
pub i64-le : (n : ℕ) → i64 (pos n) ≤ℤ pos n
unfolding i64
i64-le n = ground arith

-- `now.Sub(t)`, and so `time.Since(t)` at `now`: the difference, held in the range of a Duration.
unfoldable pub since : ℕ → ℕ → ℤ
since now t =
    if leb t now then pos (min (now - t) max_int64) else negsuc (min (t - now - 1) max_int64)

pub since_forward : (now t : ℕ) → t ≤ now → now - t ≤ max_int64 → since now t ≡ pos (now - t)
unfolding since
since_forward now t h k = ground arith

pub since-le : (now t d : ℕ) → now ≤ t + d → since now t ≤ℤ pos d
unfolding since
since-le now t d h = ground arith

pub lt-since : (now t d : ℕ) → d < max_int64 → t + d < now → pos d <ℤ since now t
unfolding since
lt-since now t d k h = ground arith

abbrev pub second : ℕ
second = 1000000000

-- A default for a configuration field that is 0.
unfoldable pub default_if_zero : ℤ → ℤ → ℤ
default_if_zero a d = if is_zero a then d else a
