-- ===== src/Thousand/Updates.antt =====
-- src/lib/thousand_lib.py: `get_updated_params`, the unpacking of a whole package.
pub mod Rounds
pub mod Changes
use gateway_nexy.Base.{
  ℕ, Bool, true, false, not, Option, none, some, List, [], ◌∷◌, ◌++◌, if◌then◌else◌,
}
use gateway_nexy.Base.Int.{ℤ}
use gateway_nexy.Base.IntDict.{lookup}
use gateway_nexy.Base.Text.{Text, text, text_eq}
use gateway_nexy.Codes.{Code, no_err, package_not_supported, is_no_err}
use gateway_nexy.Modbus.Registers.{str}
use gateway_nexy.Thousand.Signals.{Signal, Response, unpack_signal}
use gateway_nexy.Thousand.Packages.{
  params_lift_ar, params_lift_type, params_lift_name, params_version, params_virtual, params_2,
  params_130, params_131, params_133, params_134, params_135, params_read_file_param,
  params_read_file_intern, params_read_file_node, params_read_file_lock, params_read_file_door,
}
use gateway_nexy.Thousand.Protocol.{Database}
use gateway_nexy.Thousand.Lookup.{ThousandLib, save_response, store}
use gateway_nexy.Thousand.Virtual.{virtual_value}

-- The signals of a package; `none` where the package is not supported, or virtual.
unfoldable pub signals_to_unpack : Text → Option (List ℤ)
signals_to_unpack package_id =
    if text_eq package_id (text "liftRef1")
    then some params_lift_ar
    else if text_eq package_id (text "liftRef2")
    then some params_lift_type
    else if text_eq package_id (text "liftName")
    then some params_lift_name
    else if text_eq package_id (text "version")
    then some params_version
    else if text_eq package_id (text "131")
    then some params_131
    else if text_eq package_id (text "130")
    then some params_130
    else if text_eq package_id (text "2")
    then some params_2
    else if text_eq package_id (text "133")
    then some params_133
    else if text_eq package_id (text "134")
    then some params_134
    else if text_eq package_id (text "135")
    then some params_135
    else if text_eq package_id (text "readFileParam")
    then some params_read_file_param
    else if text_eq package_id (text "readFileIntern")
    then some params_read_file_intern
    else if text_eq package_id (text "readFileNode")
    then some params_read_file_node
    else if text_eq package_id (text "readFileLock")
    then some params_read_file_lock
    else if text_eq package_id (text "readFileDoor")
    then some params_read_file_door
    else none

-- What a round of the two loops leaves: the changed signals, the code and the database.
abbrev pub Round : Type 0
Round = List ℤ × Code × Database

-- The end of a round, with the value and its code.
unfoldable pub keep_value : ℤ → Text × Code → Code → Database → Option Round
unfolding store
keep_value p (value, latest_err_code) err_code db =
    if not (is_no_err latest_err_code) then some ([], latest_err_code, db) else elim (lookup p db) [
      | none ↦ none
      | some signal ↦
          let (changed, db') = store p (str value) signal db in some (changed, err_code, db')
    ]

-- What a round adds to the later ones.
abbrev pub with_changed : List ℤ → Option Round → Option Round
with_changed changed none = none
with_changed changed (some (changed', err_code, db)) = some (changed ++ changed', err_code, db)

-- The loop over the signals, where `values` gives the value of one; `none` is an exception.
unfoldable pub update_all :
    (Database → ℤ → Option (Text × Code)) → List ℤ → Code → Database → Option Round
update_all values [] err_code db = some ([], err_code, db)
update_all values (p ∷ ps) err_code db = elim (values db p) [
  | none ↦ none
  | some reply ↦ elim (keep_value p reply err_code db) [
    | none ↦ none
    | some (changed, err_code', db') ↦ with_changed changed (update_all values ps err_code' db')
  ]
]

-- The value of a signal in a response; `none` where the signal is not in the database.
unfoldable pub response_value : ℕ → Response → Database → ℤ → Option (Text × Code)
unfolding unpack_signal
response_value now response db p = elim (lookup p db) [
  | none ↦ none
  | some signal ↦ unpack_signal now signal response
]

-- The result with the new attributes.
abbrev pub with_database : ThousandLib → Option Round → Option ((List ℤ × Code) × ThousandLib)
with_database lib none = none
with_database lib (some (changed, err_code, db)) =
    some ((changed, err_code), record lib { database = db })

-- `__update_virtual_signals`
unfoldable pub update_virtual_signals : ℕ → ThousandLib → Option ((List ℤ × Code) × ThousandLib)
unfolding update_all keep_value virtual_value
update_virtual_signals now lib = with_database lib (
    update_all (λ db p. virtual_value now (record lib { database = db }) p) params_virtual no_err
      lib.database)

-- `get_updated_params`
unfoldable pub get_updated_params :
    ℕ → Text → Response → ThousandLib → Option ((List ℤ × Code) × ThousandLib)
unfolding signals_to_unpack update_all keep_value response_value update_virtual_signals
get_updated_params now package_id response lib = elim (signals_to_unpack package_id) [
  | none ↦
      if text_eq package_id (text "virtual")
      then update_virtual_signals now lib
      else some (([], package_not_supported), lib)
  | some params ↦
      let lib' = record lib {
        latest_responses = save_response package_id response lib.latest_responses;
      } in
      with_database lib' (update_all (response_value now response) params no_err lib.database)
]
