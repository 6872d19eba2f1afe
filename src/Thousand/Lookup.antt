-- ===== src/Thousand/Lookup.antt =====
-- src/lib/thousand_lib.py: `ThousandLib` and the access to single parameters.
use gateway_nexy.Base.{Bool, true, false, Option, none, some, List, [], ◌∷◌, if◌then◌else◌}
use gateway_nexy.Base.Int.{ℤ, pos, negsuc, eq_ℤ}
use gateway_nexy.Base.IntDict.{lookup, update, keys, elem}
use gateway_nexy.Base.Text.{Text, text, text_eq}
use gateway_nexy.Codes.{Code, no_err, param_not_in_db, param_not_set}
use gateway_nexy.Modbus.Registers.{Val, str, int}
use gateway_nexy.Thousand.Signals.{Signal, Response}
use gateway_nexy.Thousand.Packages.{
  params_read_file_param, params_read_file_intern, params_read_file_node, params_read_file_lock,
  params_read_file_door,
}
use gateway_nexy.Thousand.Protocol.{Database, init_database}

-- `a == b` in Python: a text and a number differ.
abbrev pub eq_val : Val → Val → Bool
eq_val (str s) (str t) = text_eq s t
eq_val (int a) (int b) = eq_ℤ a b
eq_val (str s) (int b) = false
eq_val (int a) (str t) = false

-- The attributes that change: the database, the last response of each package, and the counters.
pub record ThousandLib : Type 0 where
  pub database : Database
  pub latest_responses : List (Text × Response)
  pub previous_open_door_counters : List ℤ
  pub total_open_door_counters : List ℤ
  pub reset_saved_open_door_counter : Bool

abbrev six_zeros : List ℤ
six_zeros = pos 0 ∷ pos 0 ∷ pos 0 ∷ pos 0 ∷ pos 0 ∷ pos 0 ∷ []

-- `__init__`
unfoldable pub new_thousand_lib : ThousandLib
unfolding init_database
new_thousand_lib = record {
  database = init_database;
  latest_responses = [];
  previous_open_door_counters = six_zeros;
  total_open_door_counters = six_zeros;
  reset_saved_open_door_counter = true;
}

-- `get_param`
unfoldable pub get_param : Database → ℤ → Val × Code
get_param db param = elim (lookup param db) [
  | none ↦ (int (negsuc 0), param_not_in_db)
  | some s ↦ if eq_val s.value (str []) then (int (negsuc 0), param_not_set) else (s.value, no_err)
]

-- A new value for a signal: the parameters to report, and the database.
unfoldable pub store : ℤ → Val → Signal → Database → List ℤ × Database
store param value signal db =
    if eq_val signal.value value
    then ([], db)
    else (param ∷ [], update param (record signal { value = value }) db)

-- `set_param`
unfoldable pub set_param : Database → ℤ → Val → (List ℤ × Code) × Database
unfolding store
set_param db param value = elim (lookup param db) [
  | none ↦ (([], param_not_in_db), db)
  | some signal ↦ let (changed, db') = store param value signal db in ((changed, no_err), db')
]

-- `available_params`
abbrev pub available_params : Database → List ℤ
available_params = keys

-- `get_file_for_param`
unfoldable pub get_file_for_param : ℤ → Text
get_file_for_param param =
    if elem param params_read_file_param
    then text "/aritco/param"
    else if elem param params_read_file_intern
    then text "/aritco/intern"
    else if elem param params_read_file_node
    then text "/aritco/node"
    else if elem param params_read_file_lock
    then text "/aritco/lock"
    else if elem param params_read_file_door
    then text "/aritco/door"
    else []

-- `self.latest_responses[package_id]`; `none` is a `KeyError`.
abbrev pub latest_response : Text → List (Text × Response) → Option Response
latest_response package_id [] = none
latest_response package_id ((p, r) ∷ d) =
    if text_eq package_id p then some r else latest_response package_id d

-- `self.latest_responses[package_id] = response`
abbrev pub save_response : Text → Response → List (Text × Response) → List (Text × Response)
save_response package_id response [] = (package_id, response) ∷ []
save_response package_id response ((p, r) ∷ d) =
    if text_eq package_id p then (p, response) ∷ d else (p, r) ∷ save_response package_id response d
