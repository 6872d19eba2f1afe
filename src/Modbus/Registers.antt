-- ===== src/Modbus/Registers.antt =====
-- src/liftApi/modbus_handler.py: the grammar of parameter values, the register packing and the
-- checks of the replies. `none` is a `ValueError`.
pub mod RoundTrip
use Prim.Native.Nat.{ℕ, suc, ◌+◌, ◌*◌, ◌/◌}
use mathlib.Core.Option
use gateway_nexy.Base.{
  ℕ, ◌+◌, ◌*◌, ◌/◌, Bool, true, false, not, ◌&&◌, ◌||◌, Option, none, some, List, [], ◌∷◌, map, leb,
  ◌==◌, if◌then◌else◌,
}
use gateway_nexy.Base.Int.{ℤ, pos, negsuc, neg, shl, shr, low_bits, c_int32, leb_ℤ, ltb_ℤ}
use gateway_nexy.Base.Text.{Text, text, text_starts_with, int_of, int_of_hex, is_digit}
use gateway_nexy.Codes.{Code, no_err, com_err, reg_err, lcm_err}

-- An argument `str | int`.
pub data Val : Type 0 where
  str : Text → Val
  int : ℤ → Val

-- `s.lower()` on ASCII.
abbrev lower_char : ℕ → ℕ
lower_char c = if leb b'A' c && leb c b'Z' then c + 32 else c

-- A pattern of at most 32 bits reads as a signed register value; others are kept.
abbrev hex_value : ℤ → ℤ
hex_value v = if leb_ℤ (pos 0) v && ltb_ℤ v (pos 4294967296) then c_int32 v else v

unfoldable pub parse_int_value : Val → Option ℤ
parse_int_value (int v) = some v
parse_int_value (str s) =
    let low = map lower_char s in
    if text_starts_with low (text "0x") || text_starts_with low (text "-0x")
    then Option.map hex_value (int_of_hex s)
    else int_of s

unfoldable pub pack_int : ℤ → Option (List ℕ)
pack_int v =
    if leb_ℤ (pos 2147483648) v || ltb_ℤ v (negsuc 2147483647)
    then none
    else some (low_bits (shr v 16) 16 ∷ low_bits v 16 ∷ [])

-- `_pack_value`.
unfoldable pub pack_value : Val → Option (List ℕ)
unfolding pack_int
pack_value val = elim (parse_int_value val) [ none ↦ none | some v ↦ pack_int v ]

pub data Direction : Type 0 where
  send rec other : Direction

-- `int(x / 2)` rounds towards zero.
abbrev half : ℤ → ℤ
half (pos n) = pos (n / 2)
half (negsuc n) = neg (pos (suc n / 2))

abbrev convert : Direction → ℤ → ℤ
convert Direction.send p = shl p 1
convert Direction.rec p = half p
convert Direction.other p = p

abbrev non_negative : ℤ → Option ℕ
non_negative (pos n) = some n
non_negative (negsuc n) = none

-- `_convert_param_addr`.
unfoldable pub convert_param_addr : Val → Direction → Option ℕ
convert_param_addr (int p) d = non_negative (convert d p)
convert_param_addr (str s) d =
    if is_digit s
    then elim (int_of s) [ none ↦ none | some p ↦ non_negative (convert d p) ]
    else none

-- What pymodbus hands back for a read: an exception, whose name the handler keeps as a text, an
-- object without the attributes of a response, or a response.
pub data ReadReply : Type 0 where
  failed malformed : ReadReply
  response : Bool → ℤ → List ℕ → ReadReply

abbrev pub dead : ℕ
dead = 0xDEAD

abbrev register_pair : List ℕ → ℤ × Code
register_pair (r ∷ s ∷ []) =
    if r == dead && s == dead then (negsuc 0, lcm_err) else (c_int32 (pos (r * 65536 + s)), no_err)
register_pair _ = (negsuc 0, reg_err)

-- `_validate_read_param_response`.
unfoldable pub validate_read_param_response : ReadReply → ℤ × Code
validate_read_param_response failed = (negsuc 0, com_err)
validate_read_param_response malformed = (negsuc 0, com_err)
validate_read_param_response (response is_error function_code registers) =
    if is_error then (function_code, com_err) else register_pair registers

-- The same for a write; the attributes may be missing from the response.
pub data WriteReply : Type 0 where
  failed malformed : WriteReply
  response : Bool → Option ℕ → Option ℕ → WriteReply

abbrev is_some_eq : Option ℕ → ℕ → Bool
is_some_eq none n = false
is_some_eq (some m) n = m == n

-- `_validate_write_param_response`.
unfoldable pub validate_write_param_response : WriteReply → Text → Option (ℤ × Code)
validate_write_param_response WriteReply.failed param = some (negsuc 0, com_err)
validate_write_param_response WriteReply.malformed param = some (negsuc 0, com_err)
validate_write_param_response (WriteReply.response true address count) param =
    some (negsuc 0, com_err)
validate_write_param_response (WriteReply.response false address count) param =
    elim (convert_param_addr (str param) send) [
      | none ↦ none
      | some addr ↦ some (
          if not (is_some_eq address addr) || not (is_some_eq count 2)
          then (negsuc 0, com_err)
          else (pos 0, no_err))
    ]
