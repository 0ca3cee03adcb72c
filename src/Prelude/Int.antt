-- ===== src/Prelude/Int.antt =====
-- Signed integers over the native numbers, with their Boolean order, and Go's 64-bit durations.
use goat_client.Prelude.Tests.{leb, ltb, if◌then◌else◌}
use Prim.Native.Nat.{ℕ, suc, ◌+◌, ◌-◌, ◌*◌, ◌%◌, min}
use mathlib.Core.Bool.{Bool}

-- `negsuc n` is -(n + 1).
pub data ℤ : Type 0 where
  pos : ℕ → ℤ
  negsuc : ℕ → ℤ

abbrev pub pos_part : ℤ → ℕ
pos_part (pos n) = n
pos_part (negsuc n) = 0

abbrev pub neg_part : ℤ → ℕ
neg_part (pos n) = 0
neg_part (negsuc n) = suc n

abbrev pub leb_ℤ : ℤ → ℤ → Bool
leb_ℤ a b = leb (pos_part a + neg_part b) (pos_part b + neg_part a)

abbrev pub ltb_ℤ : ℤ → ℤ → Bool
ltb_ℤ a b = ltb (pos_part a + neg_part b) (pos_part b + neg_part a)

-- a - b, as an integer.
abbrev pub sub_ℕ : ℕ → ℕ → ℤ
sub_ℕ a b = if leb b a then pos (a - b) else negsuc (b - a - 1)

-- The integer of an int64 bit pattern.
abbrev pub of_int64 : ℕ → ℤ
of_int64 n = if ltb n 0x8000000000000000 then pos n else negsuc (0xffffffffffffffff - n)

-- `time.Time.Sub` stops at the ends of the range of a duration.
abbrev pub saturate : ℤ → ℤ
saturate (pos n) = pos (min n 0x7fffffffffffffff)
saturate (negsuc n) = negsuc (min n 0x7fffffffffffffff)

-- `now.Sub(time.Unix(s, 0))`, where `now` is in nanoseconds since 1970.
abbrev pub since : ℕ → ℤ → ℤ
since now (pos s) = saturate (sub_ℕ now (s * 1000000000))
since now (negsuc s) = saturate (pos (now + suc s * 1000000000))

-- `time.Duration(n) * time.Second` of a uint64.
abbrev pub seconds : ℕ → ℤ
seconds n = of_int64 (n * 1000000000 % 0x10000000000000000)

abbrev pub not_negative : ℤ → ℤ
not_negative (pos n) = pos n
not_negative (negsuc n) = pos 0
