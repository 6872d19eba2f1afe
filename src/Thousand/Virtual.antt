-- ===== src/Thousand/Virtual.antt =====
-- src/lib/thousand_lib.py: the virtual signals, computed from other signals and responses. `none` is
-- an exception that leaves the method.
pub mod Values
use gateway_nexy.Base.{
  ℕ, suc, ◌/◌, Bool, true, false, ◌||◌, Option, none, some, List, [], ◌∷◌, ◌++◌, take, ◌==◌,
  if◌then◌else◌,
}
use gateway_nexy.Base.Int.{ℤ, pos, negsuc, neg}
use gateway_nexy.Base.IntDict.{lookup}
use gateway_nexy.Base.Text.{Text, text, text_eq, str_nat, str_int, int_of, int_of_bin}
use gateway_nexy.Codes.{Code, no_err, partial_err, param_not_in_db, data_err, is_no_err}
use gateway_nexy.Modbus.Registers.{Val, str, int}
use gateway_nexy.Thousand.Signals.{Signal, Response, unpack_signal, failed_reply}
use gateway_nexy.Thousand.Protocol.{Database}
use gateway_nexy.Thousand.Lookup.{ThousandLib, eq_val, latest_response}

-- `f"{value}"`
abbrev pub show_val : Val → Text
show_val (str s) = s
show_val (int z) = str_int z

-- The values of six parameters, the last one first; `none` is a `KeyError`.
abbrev pub show_values : Database → List ℤ → Option Text
show_values db [] = some []
show_values db (p ∷ ps) = elim (lookup p db) [
  | none ↦ none
  | some s ↦ elim (show_values db ps) [ none ↦ none | some t ↦ some (show_val s.value ++ t) ]
]

-- The floor locks of the floors 6 to 1.
abbrev pub floor_locks : List ℤ
floor_locks = pos 151 ∷ pos 150 ∷ pos 149 ∷ pos 148 ∷ pos 147 ∷ pos 146 ∷ []

-- `__update_floor_lock`; no value of the database is `None`.
unfoldable pub update_floor_lock : Database → Option (Text × Code)
unfolding int_of_bin
update_floor_lock db = elim (show_values db floor_locks) [
  | none ↦ none
  | some bin_val ↦ elim (int_of_bin bin_val) [
    | none ↦ some failed_reply
    | some v ↦ some (str_int v, no_err)
  ]
]

-- `int(z / 100)`, which rounds towards zero; Python divides in floating point, which makes no
-- difference for the numbers of at most four bytes that are unpacked here.
abbrev pub hundredth : ℤ → ℤ
hundredth (pos n) = pos (n / 100)
hundredth (negsuc n) = neg (pos (suc n / 100))

-- `__update_temp`, which looks at the unpacked text and not at its code.
unfoldable pub update_temp : ℕ → ThousandLib → ℤ → Option (Text × Code)
unfolding unpack_signal
update_temp now lib signal_nr = elim (lookup signal_nr lib.database) [
  | none ↦ none
  | some signal ↦ elim (latest_response (text "134") lib.latest_responses) [
    | none ↦ some failed_reply
    | some response ↦ elim (unpack_signal now signal response) [
      | none ↦ none
      | some (latest_raw, _) ↦ elim (int_of latest_raw) [
        | none ↦ some failed_reply
        | some v ↦ some (str_int (hundredth v), no_err)
      ]
    ]
  ]
]

-- `__update_impulse`
unfoldable pub update_impulse : Database → Option (Text × Code)
update_impulse db = elim (lookup (pos 4) db) [
  | none ↦ some (text "-1", param_not_in_db)
  | some signal ↦ elim signal.value [
    | int z ↦ none
    | str progname ↦
        if text_eq progname []
        then some failed_reply
        else if text_eq (take 7 progname) (text "AritcoI")
        then some (text "1", no_err)
        else if text_eq (take 7 progname) (text "AritcoH")
        then some (text "0", no_err)
        else some (text "-1", data_err)
  ]
]

-- The battery states of the two enums.
unfoldable pub battery_state : Text → Text × Code
battery_state raw =
    if text_eq raw (text "1")
    then (text "1", no_err)
    else if text_eq raw (text "2") || text_eq raw (text "3")
    then (text "2", no_err)
    else if text_eq raw (text "4")
    then (text "3", no_err)
    else if text_eq raw (text "5") || text_eq raw (text "6") || text_eq raw (text "7")
    then (text "4", no_err)
    else failed_reply

-- `__update_battery_state`
unfoldable pub update_battery_state : ℕ → ThousandLib → ℤ → Option (Text × Code)
unfolding unpack_signal battery_state
update_battery_state now lib signal_nr = elim (latest_response (text "130") lib.latest_responses) [
  | none ↦ some failed_reply
  | some response ↦ elim (lookup signal_nr lib.database) [
    | none ↦ some failed_reply
    | some signal ↦ elim (unpack_signal now signal response) [
      | none ↦ none
      | some (raw, code) ↦ some (if is_no_err code then battery_state raw else failed_reply)
    ]
  ]
]

-- The value of a virtual signal.
unfoldable pub virtual_value : ℕ → ThousandLib → ℤ → Option (Text × Code)
unfolding update_battery_state update_impulse update_temp update_floor_lock
virtual_value now lib (pos n) =
    if n == 9
    then update_battery_state now lib (pos 9)
    else if n == 57
    then update_impulse lib.database
    else if n == 92
    then update_temp now lib (pos 92)
    else if n == 152
    then update_floor_lock lib.database
    else some (text "-1", param_not_in_db)
virtual_value now lib (negsuc n) = some (text "-1", param_not_in_db)
