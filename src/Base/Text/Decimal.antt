-- ===== src/Base/Text/Decimal.antt =====
-- `int(str(n))`: printing a natural number and reading it back.
use Prim.Native.Nat.{ℕ, zero, suc, ◌+◌, ◌*◌, ◌/◌, ◌%◌, ◌<◌}
use mathlib.Core.Path.{◌≡◌, refl, ap, ◌∙◌}
use mathlib.Core.Logic.{inl, inr}
use mathlib.Core.Bool.{Bool, true, false}
use mathlib.Core.Option.{Option, none, some}
use mathlib.Core.List.{
  [], ◌∷◌, ◌++◌, reverse, reverse-cons, reverse-reverse, append_assoc, append-nil,
}
use native.Mathlib.Omega.{arith}
use gateway_nexy.Base.Tests.{ltb, Bool-cases}
use gateway_nexy.Base.Int.{pos}
use gateway_nexy.Base.Text.{
  Text, all_digits, is_digit, dec_digit, digit_run, strip, strip_left, signed, int_of, digits_rev,
  str_nat,
}

reverse-cons_append : (c : ℕ) (s t : Text) → reverse (c ∷ s) ++ t ≡ reverse s ++ c ∷ t
reverse-cons_append c s t = simp (reverse-cons, append_assoc)

digit_run-digit :
    (acc d : ℕ) (digit : Bool) (t : Text)
    → d < 10
    → digit_run dec_digit 10 acc digit ((48 + d) ∷ t) ≡ digit_run dec_digit 10 (acc * 10 + d) true t
unfolding digit_run
digit_run-digit acc d digit t h = ground arith

-- Reading the printed digits of `n` leaves `n` in the accumulator.
digit_run-digits_rev :
    (f n : ℕ) (digit : Bool) (t : Text)
    → n < f
    → digit_run dec_digit 10 0 digit (reverse (digits_rev f n) ++ t)
      ≡ digit_run dec_digit 10 n true t
unfolding digits_rev
digit_run-digits_rev zero n digit t h = elim h [ ]
digit_run-digits_rev (suc f) n digit t h = elim (Bool-cases (ltb n 10)) [
  | inl small ↦ rw small (
      digit_run-digit 0 (n % 10) digit t (omega arith)
      ∙ ap (λ k. digit_run dec_digit 10 k true t) (ground arith))
  | inr large ↦ rw large (
      rw reverse-cons_append (
        digit_run-digits_rev f (n / 10) digit ((48 + n % 10) ∷ t) (ground arith)
        ∙ digit_run-digit (n / 10) (n % 10) true t (omega arith)
        ∙ ap (λ k. digit_run dec_digit 10 k true t) (omega arith)))
]

all_digits-append :
    (s t : Text) → all_digits s ≡ true → all_digits t ≡ true → all_digits (s ++ t) ≡ true
all_digits-append [] t hs ht = ht
all_digits-append (c ∷ s) t hs ht = ground (arith, all_digits-append s t)

all_digits-reverse : (s : Text) → all_digits s ≡ true → all_digits (reverse s) ≡ true
all_digits-reverse [] h = refl
all_digits-reverse (c ∷ s) h =
    rw reverse-cons
      (all_digits-append (reverse s) (c ∷ []) (all_digits-reverse s (ground arith)) (ground arith))

all_digits-digits_rev : (f n : ℕ) → all_digits (digits_rev f n) ≡ true
unfolding digits_rev
all_digits-digits_rev zero n = refl
all_digits-digits_rev (suc f) n = ground (arith, all_digits-digits_rev f (n / 10))

-- What `str(n)` prints is digits only.
pub all_digits-str_nat : (n : ℕ) → all_digits (str_nat n) ≡ true
unfolding str_nat
all_digits-str_nat n = all_digits-reverse (digits_rev (suc n) n) (all_digits-digits_rev (suc n) n)

strip_left-digits : (s : Text) → all_digits s ≡ true → strip_left s ≡ s
unfolding strip_left
strip_left-digits [] h = refl
strip_left-digits (c ∷ s) h = ground arith

strip-digits : (s : Text) → all_digits s ≡ true → strip s ≡ s
strip-digits s h =
    unfold strip in
    rw (strip_left-digits s h)
      (rw (strip_left-digits (reverse s) (all_digits-reverse s h)) (reverse-reverse s))

signed-digits :
    (rest : Text → Option ℕ) (s : Text) (n : ℕ)
    → all_digits s ≡ true
    → rest [] ≡ none
    → rest s ≡ some n
    → signed rest s ≡ some (pos n)
signed-digits rest [] n h empty e = cc
signed-digits rest (c ∷ s) n h empty e = ground arith

-- `int(str(n)) == n`.
pub int_of-str_nat : (n : ℕ) → int_of (str_nat n) ≡ some (pos n)
unfolding int_of
int_of-str_nat n = rw (strip-digits (str_nat n) (all_digits-str_nat n)) (
    signed-digits (digit_run dec_digit 10 0 false) (str_nat n) n (all_digits-str_nat n) refl (
      unfold str_nat in
      rw (← append-nil (reverse (digits_rev (suc n) n)))
        (digit_run-digits_rev (suc n) n false [] (omega arith))))

is_digit-nonempty :
    (s : Text) (n : ℕ) → all_digits s ≡ true → int_of s ≡ some (pos n) → is_digit s ≡ true
unfolding int_of
is_digit-nonempty [] n h e = cc
is_digit-nonempty (c ∷ s) n h e = h

-- `str(n).isdigit()`.
pub is_digit-str_nat : (n : ℕ) → is_digit (str_nat n) ≡ true
is_digit-str_nat n = is_digit-nonempty (str_nat n) n (all_digits-str_nat n) (int_of-str_nat n)
