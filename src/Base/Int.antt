-- ===== src/Base/Int.antt =====
-- Python's signed integers over the native numbers, under the library's names, with the shifts,
-- masks and 32-bit casts that the source applies to them.
use Prim.Native.Nat.{ℕ, zero, suc, ◌+◌, ◌-◌, ◌*◌, ◌/◌, ◌%◌, ◌^◌, ◌≤◌, ◌<◌}
use mathlib.Core.Path.{◌≡◌}
use mathlib.Core.Bool.{Bool, false}
use native.Mathlib.Omega.{arith}
use gateway_nexy.Base.Tests.{ltb, leb, ◌==◌, if◌then◌else◌}

-- `negsuc n` is -(n + 1).
pub data ℤ : Type 0 where
  pos : ℕ → ℤ
  negsuc : ℕ → ℤ

abbrev pub pos_part : ℤ → ℕ
pos_part (pos n) = n
pos_part (negsuc n) = 0

abbrev pub neg_part : ℤ → ℕ
neg_part (pos n) = 0
neg_part (negsuc n) = suc n

infix 50 ◌≤ℤ◌
abbrev pub ◌≤ℤ◌ : ℤ → ℤ → Type 0
a ≤ℤ b = pos_part a + neg_part b ≤ pos_part b + neg_part a

abbrev pub leb_ℤ : ℤ → ℤ → Bool
leb_ℤ a b = leb (pos_part a + neg_part b) (pos_part b + neg_part a)

abbrev pub ltb_ℤ : ℤ → ℤ → Bool
ltb_ℤ a b = ltb (pos_part a + neg_part b) (pos_part b + neg_part a)

abbrev pub eq_ℤ : ℤ → ℤ → Bool
eq_ℤ (pos a) (pos b) = a == b
eq_ℤ (negsuc a) (negsuc b) = a == b
eq_ℤ (pos a) (negsuc b) = false
eq_ℤ (negsuc a) (pos b) = false

-- `-a`.
abbrev pub neg : ℤ → ℤ
neg (pos zero) = pos 0
neg (pos (suc n)) = negsuc n
neg (negsuc n) = pos (suc n)

-- `a - b`, as an integer.
abbrev pub sub_ℕ : ℕ → ℕ → ℤ
sub_ℕ a b = if leb b a then pos (a - b) else negsuc (b - a - 1)

infixl 65 ◌+ℤ◌
unfoldable pub ◌+ℤ◌ : ℤ → ℤ → ℤ
a +ℤ b = sub_ℕ (pos_part a + pos_part b) (neg_part a + neg_part b)

pub +ℤ_parts :
    (a b : ℤ)
    → pos_part (a +ℤ b) + neg_part a + neg_part b ≡ neg_part (a +ℤ b) + pos_part a + pos_part b
unfolding ◌+ℤ◌
+ℤ_parts a b = ground arith

-- `a << k`.
abbrev pub shl : ℤ → ℕ → ℤ
shl (pos n) k = pos (n * 2 ^ k)
shl (negsuc n) k = negsuc (suc n * 2 ^ k - 1)

-- `a >> k`, which rounds towards minus infinity.
abbrev pub shr : ℤ → ℕ → ℤ
shr (pos n) k = pos (n / 2 ^ k)
shr (negsuc n) k = negsuc (n / 2 ^ k)

-- `a & (2 ** k - 1)`, on the two's complement of unbounded width.
abbrev pub low_bits : ℤ → ℕ → ℕ
low_bits (pos n) k = n % 2 ^ k
low_bits (negsuc n) k = 2 ^ k - 1 - n % 2 ^ k

-- Bit `k` of the two's complement of unbounded width: `a & (1 << k)` is not 0.
abbrev pub bit_set : ℤ → ℕ → Bool
bit_set (pos n) k = n / 2 ^ k % 2 == 1
bit_set (negsuc n) k = n / 2 ^ k % 2 == 0

-- `ctypes.c_int32(a).value`.
abbrev pub c_int32 : ℤ → ℤ
c_int32 a = let u = low_bits a 32 in if ltb u 2147483648 then pos u else negsuc (4294967295 - u)

-- The range of a signed 32-bit register pair.
pub record IsInt32 (a : ℤ) : Type 0 where
  pub upper : pos_part a < 2147483648
  pub lower : neg_part a ≤ 2147483648

pub c_int32-IsInt32 : (a : ℤ) → IsInt32 (c_int32 a)
c_int32-IsInt32 (pos n) = ground arith
c_int32-IsInt32 (negsuc n) = ground arith
