-- ===== src/Modbus/Registers/RoundTrip.antt =====
-- src/liftApi/modbus_handler.py: register packing against the decoding of a read.
use gateway_nexy.Base.{
  ℕ, ◌+◌, ◌*◌, ◌/◌, ◌%◌, ◌<◌, ◌≤◌, ◌≡◌, ◌≢◌, ◌⊎◌, inl, inr, ◌↔◌, refl, true, false, none, some,
  List, [], ◌∷◌, map, arith, ltb, ltb→lt, Bool-cases,
}
use gateway_nexy.Base.Int.{ℤ, pos, negsuc, shr, low_bits, c_int32, IsInt32}
use gateway_nexy.Base.Text.{all_digits, Text, text, text_starts_with, int_of_hex}
use gateway_nexy.Base.Text.Decimal.{all_digits-str_nat, int_of-str_nat, is_digit-str_nat}
use gateway_nexy.Base.Text.{str_nat}
use gateway_nexy.Codes.{no_err, lcm_err}
use gateway_nexy.Modbus.Registers.{
  str, int, lower_char, parse_int_value, pack_int, pack_value, send, hex_value, convert_param_addr,
  response, dead, validate_read_param_response,
}

abbrev pub high_word : ℤ → ℕ
high_word v = low_bits (shr v 16) 16

abbrev pub low_word : ℤ → ℕ
low_word v = low_bits v 16

pack_int-in_range : (v : ℤ) → IsInt32 v → pack_int v ≡ some (high_word v ∷ low_word v ∷ [])
unfolding pack_int
pack_int-in_range (pos n) h = ground arith
pack_int-in_range (negsuc n) h = ground arith

-- The two words of a value that is not the error pattern decode to the value.
decode-words :
    (v fc : ℤ)
    → IsInt32 v
    → v ≢ negsuc 559030610
    → validate_read_param_response (response false fc (high_word v ∷ low_word v ∷ [])) ≡ (v, no_err)
unfolding validate_read_param_response
decode-words (pos n) fc h ne = ground arith
decode-words (negsuc n) fc h ne = ground arith

-- Every 32-bit value but -559030611 survives the bus: what `_pack_value` splits into two registers,
-- `_validate_read_param_response` puts together again.
pub pack-decode :
    (v fc : ℤ)
    → IsInt32 v
    → v ≢ negsuc 559030610
    → (rs : List ℕ) × (pack_value (int v) ≡ some rs)
      × (validate_read_param_response (response false fc rs) ≡ (v, no_err))
unfolding pack_value parse_int_value
pack-decode v fc h ne =
    (high_word v ∷ low_word v ∷ [], pack_int-in_range v h, decode-words v fc h ne)

-- The excepted value is written as the error pattern, so reading it back reports an error.
pub pack-decode_dead :
    (fc : ℤ)
    → (rs : List ℕ) × (pack_value (int (negsuc 559030610)) ≡ some rs)
      × (validate_read_param_response (response false fc rs) ≡ (negsuc 0, lcm_err))
unfolding pack_value parse_int_value pack_int validate_read_param_response
pack-decode_dead fc = (dead ∷ dead ∷ [], refl, refl)

-- Two 16-bit registers that are not both 0xDEAD decode without an error to a 32-bit value which
-- packs into the same two registers.
pub decode-pack :
    (r s : ℕ) (fc : ℤ)
    → r < 65536
    → s < 65536
    → (r ≢ dead) ⊎ (s ≢ dead)
    → (v : ℤ) × (validate_read_param_response (response false fc (r ∷ s ∷ [])) ≡ (v, no_err))
      × IsInt32 v
      × (pack_value (int v) ≡ some (r ∷ s ∷ []))
unfolding pack_value parse_int_value pack_int validate_read_param_response
decode-pack r s fc hr hs alive =
    (c_int32 (pos (r * 65536 + s)), ground arith, ground arith, ground arith)

pos_out : (n : ℕ) → ¬ IsInt32 (pos n) → 2147483648 ≤ n
pos_out n h = elim (Bool-cases (ltb n 2147483648)) [
  | inl small ↦ absurd (h (record { upper = ltb→lt _ _ small; lower = omega arith }))
  | inr large ↦ ground arith
]

negsuc_out : (n : ℕ) → ¬ IsInt32 (negsuc n) → 2147483648 ≤ n
negsuc_out n h = elim (Bool-cases (ltb n 2147483648)) [
  | inl small ↦ absurd (h (record { upper = omega arith; lower = ltb→lt _ _ small }))
  | inr large ↦ ground arith
]

-- A value is refused exactly when it needs more than 32 bits.
pub pack-eq-none_iff : (v : ℤ) → (pack_value (int v) ≡ none) ↔ (¬ IsInt32 v)
unfolding pack_value parse_int_value pack_int
pack-eq-none_iff (pos n) = (λ e h. ground arith, λ h. ground (arith, pos_out n h))
pack-eq-none_iff (negsuc n) = (λ e h. ground arith, λ h. ground (arith, negsuc_out n h))

hex_value-pattern : (u : ℕ) → u < 4294967296 → hex_value (pos u) ≡ c_int32 (pos u)
hex_value-pattern u h = ground arith

parse_int_value-hex :
    (s : Text) (u : ℕ)
    → text_starts_with (map lower_char s) (text "0x") ≡ true
    → int_of_hex s ≡ some (pos u)
    → parse_int_value (str s) ≡ some (hex_value (pos u))
unfolding parse_int_value
parse_int_value-hex s u hex e = rw (hex, parse_int_value) (rw e)

pack_int-pattern :
    (u : ℕ) → u < 4294967296 → pack_int (c_int32 (pos u)) ≡ some (u / 65536 ∷ u % 65536 ∷ [])
unfolding pack_int
pack_int-pattern u h = ground arith

-- A hexadecimal text stands for a bit pattern: one of at most 32 bits is written to the registers
-- as it is, sign bit included.
pub pack_value-hex :
    (s : Text) (u : ℕ)
    → text_starts_with (map lower_char s) (text "0x") ≡ true
    → int_of_hex s ≡ some (pos u)
    → u < 4294967296
    → pack_value (str s) ≡ some (u / 65536 ∷ u % 65536 ∷ [])
unfolding pack_value
pack_value-hex s u hex e h =
    rw (parse_int_value-hex s u hex e, pack_value)
      (rw (hex_value-pattern u h) (pack_int-pattern u h))

-- The bus address of a parameter number, printed in decimal, is twice the number.
pub convert_param_addr-str_nat : (p : ℕ) → convert_param_addr (str (str_nat p)) send ≡ some (p * 2)
unfolding convert_param_addr
convert_param_addr-str_nat p = rw (is_digit-str_nat p) (rw (int_of-str_nat p))

no_hex_prefix :
    (s : Text)
    → all_digits s ≡ true
    → (text_starts_with (map lower_char s) (text "0x") ≡ false)
      × (text_starts_with (map lower_char s) (text "-0x") ≡ false)
no_hex_prefix [] h = (refl, refl)
no_hex_prefix (c ∷ []) h = (ground arith, ground arith)
no_hex_prefix (c ∷ d ∷ s) h = (ground arith, ground arith)

-- A natural number printed in decimal parses as itself.
pub parse_int_value-str_nat : (n : ℕ) → parse_int_value (str (str_nat n)) ≡ some (pos n)
unfolding parse_int_value
parse_int_value-str_nat n =
    let h = no_hex_prefix (str_nat n) (all_digits-str_nat n) in rw h.0 (rw h.1 (int_of-str_nat n))
