-- ===== src/Base/Bits.antt =====
-- Python's `|` on integers, bit by bit, with negative numbers in two's complement.
use Prim.Native.Nat.{ℕ, zero, suc, ◌+◌, ◌*◌, ◌/◌, ◌%◌}
use mathlib.Core.Path.{◌≡◌, refl}
use mathlib.Core.Bool.{Bool, not, ◌&&◌, ◌||◌}
use gateway_nexy.Base.Tests.{◌==◌, if◌then◌else◌}
use gateway_nexy.Base.Int.{ℤ, pos, negsuc}

-- The operation on each bit, for as many bits as the fuel says.
bitwise : (Bool → Bool → Bool) → ℕ → ℕ → ℕ → ℕ
bitwise op zero a b = 0
bitwise op (suc f) a b =
    let rest = bitwise op f (a / 2) (b / 2) in
    (if op (a % 2 == 1) (b % 2 == 1) then 1 else 0) + 2 * rest

-- A number has fewer bits than its value, so that the sum of both is fuel enough.
abbrev bits : (Bool → Bool → Bool) → ℕ → ℕ → ℕ
bits op a b = bitwise op (a + b) a b

infixl 40 ◌|ℤ◌
unfoldable pub ◌|ℤ◌ : ℤ → ℤ → ℤ
unfolding bitwise
pos a |ℤ pos b = pos (bits (λ x y. x || y) a b)
pos a |ℤ negsuc b = negsuc (bits (λ x y. not x && y) a b)
negsuc a |ℤ pos b = negsuc (bits (λ x y. x && not y) a b)
negsuc a |ℤ negsuc b = negsuc (bits (λ x y. x && y) a b)

or_1 : (pos 0x1200 |ℤ pos 0x34) ≡ pos 0x1234
unfolding ◌|ℤ◌
or_1 = refl

-- -6 | 5 is -1.
or_2 : (negsuc 5 |ℤ pos 5) ≡ negsuc 0
unfolding ◌|ℤ◌
or_2 = refl
