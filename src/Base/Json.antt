-- ===== src/Base/Json.antt =====
-- The values that Python's `json` reads.
use Prim.Native.Nat.{ℕ, suc, ◌/◌, ◌^◌}
use mathlib.Core.Bool.{Bool, true, false, ◌&&◌}
use mathlib.Core.Option.{Option, none, some}
use gateway_nexy.Base.Tests.{if◌then◌else◌}
use gateway_nexy.Base.Int.{ℤ, pos, negsuc, neg, eq_ℤ, leb_ℤ, shl}
use gateway_nexy.Base.Text.{Text, text_eq, str_int}

mutual
  -- `fraction z k` is the floating point number z / 2 ^ k; `infinity true` is the negative one, as of
  -- -1e999, and `not_a_number` is NaN.
  pub data Json : Type 0 where
    null : Json
    boolean : Bool → Json
    number : ℤ → Json
    fraction : ℤ → ℕ → Json
    infinity : Bool → Json
    not_a_number : Json
    string : Text → Json
    array : Jsons → Json
    object : Fields → Json

  pub data Jsons : Type 0 where
    nil : Jsons
    cons : Json → Jsons → Jsons

  -- The entries of a dict, with no key twice.
  pub data Fields : Type 0 where
    no_fields : Fields
    field : Text → Json → Fields → Fields

-- `fields.get(name)`
abbrev pub field_of : Text → Fields → Option Json
field_of name no_fields = none
field_of name (field key value fields) =
    if text_eq name key then some value else field_of name fields

abbrev pub has_field : Text → Fields → Bool
has_field name fields = elim (field_of name fields) [ none ↦ false | some v ↦ true ]

-- `len(fields)`
abbrev pub nr_fields : Fields → ℕ
nr_fields no_fields = 0
nr_fields (field key value fields) = suc (nr_fields fields)

-- `int` of a floating point number.
abbrev pub truncated : ℤ → ℕ → ℤ
truncated (pos n) k = pos (n / 2 ^ k)
truncated (negsuc n) k = neg (pos (suc n / 2 ^ k))

-- `value == s` for a text.
abbrev pub is_text : Json → Text → Bool
is_text (string t) s = text_eq t s
is_text _ s = false

-- `value == z` for an integer; in Python `True` is 1 and `False` is 0.
abbrev pub is_number : Json → ℤ → Bool
is_number (number y) z = eq_ℤ y z
is_number (boolean true) z = eq_ℤ (pos 1) z
is_number (boolean false) z = eq_ℤ (pos 0) z
is_number (fraction y k) z = eq_ℤ y (shl z k)
is_number _ z = false

-- `low <= value <= high`; `none` is a `TypeError`.
abbrev pub is_between : ℤ → ℤ → Json → Option Bool
is_between low high (number y) = some (leb_ℤ low y && leb_ℤ y high)
is_between low high (boolean true) = some (leb_ℤ low (pos 1) && leb_ℤ (pos 1) high)
is_between low high (boolean false) = some (leb_ℤ low (pos 0) && leb_ℤ (pos 0) high)
is_between low high (fraction y k) = some (leb_ℤ (shl low k) y && leb_ℤ y (shl high k))
is_between low high (infinity negative) = some false
is_between low high not_a_number = some false
is_between low high _ = none

abbrev pub is_string : Json → Bool
is_string (string s) = true
is_string _ = false

abbrev pub is_array : Json → Bool
is_array (array xs) = true
is_array _ = false

-- `str(value) == s` for a command or the digits of a number, which are the text of no other value.
abbrev pub shows_as : Json → Text → Bool
shows_as (string t) s = text_eq t s
shows_as (number z) s = text_eq (str_int z) s
shows_as _ s = false
