-- ===== src/Base/Text.antt =====
-- Python's texts as lists of code points (ASCII), with `str(n)`, `int(s)` and `int(s, 0)`.
pub mod Decimal
use Prim.Native.Char.{code}
use Prim.Native.Nat.{ℕ, zero, suc, ◌+◌, ◌-◌, ◌*◌, ◌/◌, ◌%◌}
use Prim.Native.String.{String}
use mathlib.Core.Path.{◌≡◌, refl}
use mathlib.Core.Bool.{Bool, true, false, ◌&&◌, ◌||◌}
use mathlib.Core.Option.{Option, none, some}
use mathlib.Core.List.{List, [], ◌∷◌, reverse}
use native.Mathlib.Omega.{arith}
use gateway_nexy.Base.Tests.{ltb, leb, ◌==◌, if◌then◌else◌}
use gateway_nexy.Base.Int.{ℤ, pos, negsuc, neg}

abbrev pub Text : Type 0
Text = List ℕ

-- The code points of a literal.
abbrev pub text : String → Text
text String.[] = []
text (String.◌∷◌ c s) = code c ∷ text s

abbrev pub text_eq : Text → Text → Bool
text_eq [] [] = true
text_eq [] (d ∷ t) = false
text_eq (c ∷ s) [] = false
text_eq (c ∷ s) (d ∷ t) = c == d && text_eq s t

pub text_eq-eq : (s t : Text) → text_eq s t ≡ true → s ≡ t
text_eq-eq [] [] h = refl
text_eq-eq [] (d ∷ t) h = ground arith
text_eq-eq (c ∷ s) [] h = ground arith
text_eq-eq (c ∷ s) (d ∷ t) h = ground (arith, text_eq-eq s t)

abbrev pub text_starts_with : Text → Text → Bool
text_starts_with s [] = true
text_starts_with [] (d ∷ t) = false
text_starts_with (c ∷ s) (d ∷ t) = c == d && text_starts_with s t

-- `str(n)` of a natural number, least digit first; the fuel bounds the number of digits.
digits_rev : ℕ → ℕ → Text
digits_rev zero n = []
digits_rev (suc f) n =
    let rest = digits_rev f (n / 10) in (b'0' + n % 10) ∷ (if ltb n 10 then [] else rest)

-- `str(n)`.
unfoldable pub str_nat : ℕ → Text
unfolding digits_rev
str_nat n = reverse (digits_rev (suc n) n)

abbrev pub str_int : ℤ → Text
str_int (pos n) = str_nat n
str_int (negsuc n) = b'-' ∷ str_nat (suc n)

-- The value of a digit character.
abbrev pub dec_digit : ℕ → Option ℕ
dec_digit c = if leb b'0' c && leb c b'9' then some (c - b'0') else none

abbrev pub hex_digit : ℕ → Option ℕ
hex_digit c =
    if leb b'0' c && leb c b'9'
    then some (c - b'0')
    else if leb b'a' c && leb c b'f'
    then some (c - b'a' + 10)
    else if leb b'A' c && leb c b'F'
    then some (c - b'A' + 10)
    else none

-- A run of digits in which single underscores may stand between digits. `digit` says that the
-- last character read was a digit.
pub digit_run : (ℕ → Option ℕ) → ℕ → ℕ → Bool → Text → Option ℕ
digit_run value base acc digit [] = if digit then some acc else none
digit_run value base acc digit (c ∷ cs) = elim (value c) [
  | some d ↦ digit_run value base (acc * base + d) true cs
  | none ↦ elim (c == b'_' && digit) [ true ↦ digit_run value base acc false cs | false ↦ none ]
]

-- The characters that `int` strips: tab to carriage return, the separators 28 to 31, space.
abbrev pub is_space : ℕ → Bool
is_space c = (leb 9 c && leb c 13) || (leb 28 c && leb c 32)

pub strip_left : Text → Text
strip_left [] = []
strip_left (c ∷ cs) = elim (is_space c) [ true ↦ strip_left cs | false ↦ c ∷ cs ]

pub strip : Text → Text
unfolding strip_left
strip s = reverse (strip_left (reverse (strip_left s)))

abbrev pub negate : Option ℕ → Option ℤ
negate none = none
negate (some n) = some (neg (pos n))

abbrev pub positive : Option ℕ → Option ℤ
positive none = none
positive (some n) = some (pos n)

-- An optional sign before what `rest` reads.
abbrev pub signed : (Text → Option ℕ) → Text → Option ℤ
signed rest [] = none
signed rest (c ∷ cs) =
    if c == b'-'
    then negate (rest cs)
    else if c == b'+'
    then positive (rest cs)
    else positive (rest (c ∷ cs))

-- `int(s)`; `none` is a `ValueError`.
unfoldable pub int_of : Text → Option ℤ
unfolding digit_run strip
int_of s = signed (digit_run dec_digit 10 0 false) (strip s)

-- After the prefix `0x` one underscore may stand before the digits.
abbrev hex_body : Text → Option ℕ
hex_body [] = none
hex_body (c ∷ cs) =
    if c == b'_' then digit_run hex_digit 16 0 false cs else digit_run hex_digit 16 0 false (c ∷ cs)

abbrev after_x : Text → Option ℕ
after_x [] = none
after_x (c ∷ cs) = if c == b'x' || c == b'X' then hex_body cs else none

abbrev after_zero : Text → Option ℕ
after_zero [] = none
after_zero (c ∷ cs) = if c == b'0' then after_x cs else none

-- `int(s, 0)` on a text with a hexadecimal prefix; `none` is a `ValueError`.
unfoldable pub int_of_hex : Text → Option ℤ
unfolding digit_run strip
int_of_hex s = signed after_zero (strip s)

-- The digits of `int(s, 16)`, with the prefix `0x` or without it.
abbrev after_zero_16 : Text → Option ℕ
after_zero_16 [] = digit_run hex_digit 16 0 false (b'0' ∷ [])
after_zero_16 (c ∷ cs) =
    if c == b'x' || c == b'X' then hex_body cs else digit_run hex_digit 16 0 false (b'0' ∷ c ∷ cs)

abbrev body_16 : Text → Option ℕ
body_16 [] = none
body_16 (c ∷ cs) = if c == b'0' then after_zero_16 cs else digit_run hex_digit 16 0 false (c ∷ cs)

-- `int(s, 16)`; `none` is a `ValueError`.
unfoldable pub int_of_16 : Text → Option ℤ
unfolding digit_run strip
int_of_16 s = signed body_16 (strip s)

abbrev pub bin_digit : ℕ → Option ℕ
bin_digit c = if c == b'0' then some 0 else if c == b'1' then some 1 else none

-- `int(s, 2)` of a text with no prefix; `none` is a `ValueError`.
unfoldable pub int_of_bin : Text → Option ℤ
unfolding digit_run strip
int_of_bin s = signed (digit_run bin_digit 2 0 false) (strip s)

-- `s.isdigit()` on ASCII.
abbrev pub all_digits : Text → Bool
all_digits [] = true
all_digits (c ∷ cs) = leb b'0' c && leb c b'9' && all_digits cs

abbrev pub is_digit : Text → Bool
is_digit [] = false
is_digit (c ∷ cs) = all_digits (c ∷ cs)

int_of_1 : int_of (text " -1_0 ") ≡ some (negsuc 9)
unfolding int_of
int_of_1 = refl

int_of_2 : int_of (text "1__0") ≡ none
unfolding int_of
int_of_2 = refl

int_of_hex_1 : int_of_hex (text "-0x1F") ≡ some (negsuc 30)
unfolding int_of_hex
int_of_hex_1 = refl

str_nat_1 : str_nat 1070 ≡ text "1070"
unfolding str_nat
str_nat_1 = refl

int_of_16_1 : int_of_16 (text "0x1F") ≡ some (pos 31)
unfolding int_of_16
int_of_16_1 = refl

int_of_16_2 : int_of_16 (text "-0f_f") ≡ some (negsuc 254)
unfolding int_of_16
int_of_16_2 = refl
