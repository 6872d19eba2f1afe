-- ===== src/Rs232/Commands.antt =====
-- src/liftApi/rs232_handler.py: the check of a command and its message.
use gateway_nexy.Base.{
  Bool, false, not, ◌&&◌, ◌||◌, Option, none, some, List, [], ◌∷◌, ◌++◌, if◌then◌else◌,
}
use gateway_nexy.Base.Int.{ℤ, pos, leb_ℤ}
use gateway_nexy.Base.Json.{Json, array, object, number, Jsons, nil, cons, field_of}
use gateway_nexy.Base.Text.{Text, text, text_eq, str_int, int_of}
use gateway_nexy.Codes.{
  Code, args_in_len_err, args_in_elem_int_err, cmd_not_supported, data_err, file_name_err, json_err,
  json_key_err, json_value_type_err, vfd_id_err,
}

-- The commands, with what their messages hold.
pub data Command : Type 0 where
  operation : Text → Text → Command
  -- `liftRef1`, `liftRef2`, `liftName` and `oilLevel`, with a text or an empty one
  text_value : Text → Text → Command
  -- `version`, `getOpenCount` and `vfdClearTable`
  plain : Text → Command
  time_set : Text → Command
  -- `childLock`, `floorLock` and `vfdId`
  set : Text → Text → Command
  logfile : Text → Command
  read_file : Text → Command
  write_file : Text → Jsons → Command
  vfd_read : ℤ → Text → ℤ → Command

-- The result of the check. Of a refused command only the code is used.
pub data Checked : Type 0 where
  accepted : Command → Checked
  refused : Code → Checked
  raised : Checked

-- `t in texts`
abbrev pub text_in : Text → List Text → Bool
text_in t [] = false
text_in t (s ∷ texts) = text_eq t s || text_in t texts

abbrev pub supported_cmds : List Text
supported_cmds =
    text "operation"
    ∷ text "liftRef1"
    ∷ text "liftRef2"
    ∷ text "liftName"
    ∷ text "version"
    ∷ text "oilLevel"
    ∷ text "logfile"
    ∷ text "time"
    ∷ text "readFile"
    ∷ text "writeFile"
    ∷ text "childLock"
    ∷ text "floorLock"
    ∷ text "vfdClearTable"
    ∷ text "vfdId"
    ∷ text "vfdRead"
    ∷ text "getOpenCount"
    ∷ []

abbrev pub generic_texts : List Text
generic_texts = text "liftRef1" ∷ text "liftRef2" ∷ text "liftName" ∷ []

abbrev pub valid_file_names : List Text
valid_file_names =
    text "/aritco/param"
    ∷ text "/aritco/intern"
    ∷ text "/aritco/node"
    ∷ text "/aritco/lock"
    ∷ text "/aritco/door"
    ∷ []

abbrev length_error : Checked
length_error = refused args_in_len_err

-- The branches of the check, with the arguments after the command.
unfoldable check_operation : List Text → Checked
unfolding int_of
check_operation [] = length_error
check_operation (type ∷ args) = elim args [
  | [] ↦ elim (int_of type) [
    | none ↦ refused args_in_elem_int_err
    | some v ↦ accepted (operation type [])
  ]
  | value ∷ args ↦ elim args [
    | [] ↦ elim (int_of type) [
      | none ↦ refused args_in_elem_int_err
      | some v ↦ accepted (operation type value)
    ]
    | _ ∷ _ ↦ length_error
  ]
]

unfoldable check_value : Text → List Text → Checked
check_value cmd [] = accepted (text_value cmd [])
check_value cmd (v ∷ []) = accepted (text_value cmd v)
check_value cmd (v ∷ w ∷ args) = length_error

abbrev check_plain : Text → List Text → Checked
check_plain cmd [] = accepted (plain cmd)
check_plain cmd (v ∷ args) = length_error

abbrev in_range : ℤ → ℤ → Option ℤ → Bool
in_range low high none = false
in_range low high (some z) = leb_ℤ low z && leb_ℤ z high

-- A check of the one argument.
abbrev check_one : (Text → Checked) → List Text → Checked
check_one check [] = length_error
check_one check (v ∷ []) = check v
check_one check (v ∷ w ∷ args) = length_error

unfoldable check_logfile : List Text → Checked
unfolding int_of
check_logfile =
    check_one
      (λ v. if in_range (pos 0) (pos 64) (int_of v) then accepted (logfile v) else refused data_err)

unfoldable check_read_file : List Text → Checked
check_read_file =
    check_one
      (λ v. if text_in v valid_file_names then accepted (read_file v) else refused file_name_err)

unfoldable check_child_lock : List Text → Checked
check_child_lock = check_one (λ v.
    if text_in v (text "on" ∷ text "off" ∷ [])
    then accepted (set (text "childLock") v)
    else refused data_err)

-- The data of a write request; a value that is not a dict raises a `TypeError`.
abbrev check_request : Text → Option Json → Checked
check_request name none = refused json_err
check_request name (some (object fields)) = elim (field_of (text "data") fields) [
  | none ↦ refused json_key_err
  | some (array xs) ↦ accepted (write_file name xs)
  | some _ ↦ refused json_value_type_err
]
check_request name (some _) = raised

unfoldable check_write_file : (Text → Option Json) → List Text → Checked
check_write_file loads (name ∷ request ∷ []) =
    if text_in name valid_file_names
    then check_request name (loads request)
    else refused file_name_err
check_write_file loads _ = length_error

abbrev check_vfd_numbers : Option ℤ → Text → Option ℤ → Checked
check_vfd_numbers (some id) value (some interval) =
    if in_range (pos 0) (pos 7) (some id)
    then accepted (vfd_read id value interval)
    else refused vfd_id_err
check_vfd_numbers _ value _ = refused args_in_elem_int_err

unfoldable check_vfd_read : List Text → Checked
unfolding int_of
check_vfd_read (id ∷ value ∷ interval ∷ []) = check_vfd_numbers (int_of id) value (int_of interval)
check_vfd_read _ = length_error

-- `__validate_serial_inputs`, where `loads` is `json.loads`.
unfoldable pub validate_serial_inputs : (Text → Option Json) → List Text → Checked
unfolding check_operation check_value check_logfile check_read_file check_child_lock
    check_write_file check_vfd_read
validate_serial_inputs loads [] = raised
validate_serial_inputs loads (cmd ∷ args) =
    if not (text_in cmd supported_cmds)
    then refused cmd_not_supported
    else if text_eq cmd (text "operation")
    then check_operation args
    else if text_in cmd generic_texts || text_eq cmd (text "oilLevel")
    then check_value cmd args
    else if text_in cmd (text "version" ∷ text "getOpenCount" ∷ text "vfdClearTable" ∷ [])
    then check_plain cmd args
    else if text_eq cmd (text "time")
    then check_one (λ v. accepted (time_set v)) args
    else if text_eq cmd (text "logfile")
    then check_logfile args
    else if text_eq cmd (text "readFile")
    then check_read_file args
    else if text_eq cmd (text "writeFile")
    then check_write_file loads args
    else if text_eq cmd (text "childLock")
    then check_child_lock args
    else if text_in cmd (text "floorLock" ∷ text "vfdId" ∷ [])
    then check_one (λ v. accepted (set cmd v)) args
    else check_vfd_read args

-- `str` of a list, where `repr` shows what is not a whole number.
abbrev pub show_item : (Json → Text) → Json → Text
show_item repr (number z) = str_int z
show_item repr value = repr value

abbrev show_items : (Json → Text) → Jsons → Text
show_items repr nil = text "]"
show_items repr (cons x nil) = show_item repr x ++ text "]"
show_items repr (cons x (cons y xs)) =
    show_item repr x ++ (text ", " ++ show_items repr (cons y xs))

abbrev pub show_list : (Json → Text) → Jsons → Text
show_list repr xs = text "[" ++ show_items repr xs

quoted : Text → Text
quoted s = b'"' ∷ (s ++ (b'"' ∷ []))

-- `{"cmd":"name"` and what follows.
abbrev with_cmd : Text → Text → Text
with_cmd cmd rest = text "{\"cmd\":" ++ (quoted cmd ++ rest)

-- The messages of `write_serial`; a log request has its length where the versions allow it.
unfoldable pub message : (Json → Text) → Bool → Command → Text
unfolding quoted
message repr versions (operation type []) =
    with_cmd (text "operation") (text ",\"type\":" ++ (type ++ text "}"))
message repr versions (operation type (c ∷ value)) =
    with_cmd (text "operation")
      (text ",\"type\":" ++ (type ++ (text ",\"data\":" ++ ((c ∷ value) ++ text "}"))))
message repr versions (text_value cmd []) = with_cmd cmd (text "}")
message repr versions (text_value cmd (c ∷ v)) =
    with_cmd cmd (text ",\"data\":" ++ (quoted (c ∷ v) ++ text "}"))
message repr versions (plain cmd) = with_cmd cmd (text "}")
message repr versions (time_set v) =
    with_cmd (text "time") (text ",\"data\":" ++ (quoted v ++ text "}"))
message repr versions (set cmd v) = with_cmd cmd (text ", \"data\":" ++ (quoted v ++ text "}"))
message repr versions (logfile v) =
    with_cmd (text "logfile")
      (if versions then text ",\"data\":" ++ (quoted v ++ text "}") else text "}")
message repr versions (read_file name) =
    with_cmd (text "readFile") (text ", \"name\":" ++ (quoted name ++ text "}"))
message repr versions (write_file name xs) = with_cmd (text "writeFile") (
    text ", \"name\":"
    ++ (quoted name ++ (text ", \"data\":" ++ (quoted (show_list repr xs) ++ text "}"))))
message repr versions (vfd_read id v interval) = with_cmd (text "vfdRead") (
    text ", \"id\":"
    ++ (str_int id
        ++ (text ", \"data\":"
            ++ (quoted v ++ (text ", \"interval\":" ++ (str_int interval ++ text "}"))))))
