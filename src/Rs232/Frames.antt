-- ===== src/Rs232/Frames.antt =====
-- src/liftApi/rs232_handler.py: the check of a frame from the lift.
use gateway_nexy.Base.{Bool, false, not, ◌||◌, Option, none, some, ◌==◌, if◌then◌else◌}
use gateway_nexy.Base.Int.{pos}
use gateway_nexy.Base.Json.{
  Json, string, object, Fields, field_of, has_field, nr_fields, is_text, is_number, is_between,
  is_string, is_array,
}
use gateway_nexy.Base.Text.{Text, text}
use gateway_nexy.Codes.{
  Code, args_in_len_err, data_err, data_type_err, json_err, json_key_err, json_value_type_err,
  serial_com_err, vfd_id_err,
}
use gateway_nexy.Rs232.Commands.{text_in, valid_file_names}

-- The result of the check: the dict, the code, or an exception.
pub data Frame : Type 0 where
  valid : Fields → Frame
  invalid : Code → Frame
  raised : Frame

-- `if not test: return code`
abbrev require : Bool → Code → Frame → Frame
require test code rest = if test then rest else invalid code

-- `frame[name]`, whose `KeyError` is caught.
abbrev with_field : Text → Fields → (Json → Frame) → Frame
with_field name fields rest = elim (field_of name fields) [
  | none ↦ invalid json_key_err
  | some v ↦ rest v
]

-- `value in valid_file_names`
abbrev known_file : Json → Bool
known_file (string s) = text_in s valid_file_names
known_file _ = false

unfoldable check_read_file_frame : Fields → Frame
check_read_file_frame fields = with_field (text "name") fields (λ name.
    require (known_file name) data_type_err (elim (field_of (text "data") fields) [
      | none ↦ invalid json_value_type_err
      | some data_field ↦
          require (is_array data_field) json_err
            (require (has_field (text "err") fields) json_key_err (valid fields))
    ]))

unfoldable check_write_file_frame : Fields → Frame
check_write_file_frame fields = with_field (text "name") fields (λ name.
    require (known_file name) data_type_err
      (require (has_field (text "err") fields) json_key_err (valid fields)))

unfoldable check_vfd_id : Fields → Frame
check_vfd_id fields = require (nr_fields fields == 3) args_in_len_err (
    with_field (text "data") fields (λ data_field. require (is_string data_field) data_type_err (
      with_field (text "error") fields (λ e.
        require (is_number e (pos 0) || (is_number e (pos 1) || is_number e (pos 2))) data_err
          (valid fields)))))

unfoldable check_vfd_read_frame : Fields → Frame
check_vfd_read_frame fields = require (nr_fields fields == 3) args_in_len_err (
    require (has_field (text "id") fields) json_key_err (
      with_field (text "error") fields
        (λ e. require (is_number e (pos 0) || is_number e (pos 1)) data_err (valid fields))))

unfoldable check_vfd_result : Fields → Frame
check_vfd_result fields = require (nr_fields fields == 4) args_in_len_err (
    with_field (text "id") fields (λ id. elim (is_between (pos 0) (pos 7) id) [
      | none ↦ raised
      | some inside ↦
          require inside vfd_id_err
            (require (has_field (text "timestamp") fields) json_key_err (valid fields))
    ]))

-- Any other command. An operation has a type.
unfoldable check_other : Json → Fields → Frame
check_other cmd fields = require (has_field (text "data") fields) json_key_err (
    require (not (is_text cmd (text "operation")) || has_field (text "type") fields) json_key_err
      (require (is_string cmd) json_value_type_err (valid fields)))

abbrev check_cmd : Json → Fields → Frame
check_cmd cmd fields =
    if is_text cmd (text "time")
    then with_field (text "updated") fields
        (λ v. require (is_string v) json_value_type_err (valid fields))
    else if is_text cmd (text "readFile")
    then check_read_file_frame fields
    else if is_text cmd (text "writeFile")
    then check_write_file_frame fields
    else if is_text cmd (text "vfdClearTable")
    then require (nr_fields fields == 1) args_in_len_err (valid fields)
    else if is_text cmd (text "vfdId")
    then check_vfd_id fields
    else if is_text cmd (text "vfdRead")
    then check_vfd_read_frame fields
    else if is_text cmd (text "vfdResult")
    then check_vfd_result fields
    else check_other cmd fields

unfoldable pub check_fields : Fields → Frame
unfolding check_read_file_frame check_write_file_frame check_vfd_id check_vfd_read_frame
    check_vfd_result check_other
check_fields fields = elim (field_of (text "logs") fields) [
  | some logs ↦ require (is_array logs) json_value_type_err (valid fields)
  | none ↦ with_field (text "cmd") fields (λ cmd. check_cmd cmd fields)
]

abbrev check_loaded : Option Json → Frame
check_loaded (some (object fields)) = check_fields fields
check_loaded _ = invalid json_err

-- `__decode_and_validate_serial_response`, where `loads` is `json.loads`.
unfoldable pub decode_and_validate : (Text → Option Json) → Json → Frame
unfolding check_fields
decode_and_validate loads (object fields) = check_fields fields
decode_and_validate loads (string s) = check_loaded (loads s)
decode_and_validate loads _ = invalid serial_com_err
