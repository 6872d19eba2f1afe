-- ===== src/Rs232/Versions.antt =====
-- src/liftApi/rs232_handler.py: the comparison of the installed versions.
pub mod Order
use gateway_nexy.Base.{
  ℕ, Bool, true, false, ◌||◌, Option, none, some, List, [], ◌∷◌, get_elem?, if◌then◌else◌,
}
use gateway_nexy.Base.Int.{ℤ, pos, ltb_ℤ, eq_ℤ}
use gateway_nexy.Base.IntDict.{lookup}
use gateway_nexy.Base.Text.{Text, text, int_of}
use gateway_nexy.Modbus.Registers.{Val, str, int}
use gateway_nexy.Thousand.Signals.{Signal}
use gateway_nexy.Thousand.Protocol.{Database}
use gateway_nexy.Thousand.Lookup.{eq_val}
use gateway_nexy.Thousand.Poll.{split_at}

-- The versions of U1 and U16, `X.Y`.
abbrev pub Versions : Type 0
Versions = Text × Text

abbrev pub door_open_count_version_limits : Versions
door_open_count_version_limits = (text "4.7", text "1.2")

abbrev pub logfile_length_version_limits : Versions
logfile_length_version_limits = (text "4.7", text "1.3")

-- `int(v)`; `none` is a `ValueError`.
abbrev pub int_val : Val → Option ℤ
int_val (int z) = some z
int_val (str s) = int_of s

-- `int(version.split(".")[i])`; `none` is a `ValueError` or an `IndexError`.
unfoldable part_of : Text → ℕ → Option ℤ
unfolding split_at int_of
part_of version i = elim (get_elem? (split_at b'.' version) i) [ none ↦ none | some s ↦ int_of s ]

-- A version with its main and sub number.
abbrev pub Version : Type 0
Version = ℤ × ℤ

abbrev pub pair_of : Option ℤ → Option ℤ → Option Version
pair_of (some main) (some sub) = some (main, sub)
pair_of _ _ = none

unfoldable pub required_version : Text → Option Version
unfolding part_of
required_version version = pair_of (part_of version 0) (part_of version 1)

-- One step of the comparison.
unfoldable pub is_below : Version → Version → Bool
is_below (main, sub) (main_required, sub_required) =
    if ltb_ℤ main main_required
    then true
    else if eq_ℤ main_required main
    then ltb_ℤ sub sub_required
    else false

unfoldable pub compare_versions :
    Option Version → Option Version → Option Version → Option Version → Bool
unfolding is_below
compare_versions (some u1) (some u16) (some u1_required) (some u16_required) =
    if is_below u1 u1_required then false else if is_below u16 u16_required then false else true
compare_versions _ _ _ _ = false

-- The values of main and sub version of U1 and U16, compared; an empty one was never polled.
unfoldable pub versions_reached : Val → Val → Val → Val → Versions → Bool
unfolding required_version int_of
versions_reached a b c d (u1, u16) =
    if eq_val a (str []) || (eq_val b (str []) || (eq_val c (str []) || eq_val d (str [])))
    then false
    else compare_versions (pair_of (int_val a) (int_val b)) (pair_of (int_val c) (int_val d))
        (required_version u1) (required_version u16)

abbrev pub value_in : ℤ → Database → Option Val
value_in p db = elim (lookup p db) [ none ↦ none | some signal ↦ some signal.value ]

unfoldable pub compare_values :
    Versions → Option Val → Option Val → Option Val → Option Val → Option Bool
unfolding versions_reached
compare_values versions (some a) (some b) (some c) (some d) =
    some (versions_reached a b c d versions)
compare_values versions _ _ _ _ = none

-- `check_if_above_or_equal_to_versions`; `none` is a `KeyError`.
unfoldable pub check_if_above_or_equal_to_versions : Versions → Database → Option Bool
unfolding versions_reached
check_if_above_or_equal_to_versions versions db =
    compare_values versions (value_in (pos 5) db) (value_in (pos 6) db) (value_in (pos 93) db)
      (value_in (pos 94) db)
