-- ===== src/Tests/Rs232.antt =====
-- src/liftApi/rs232_handler.py: the RS232 driver on a concrete lift.
use Prim.{tt}
use gateway_nexy.Base.{arith, ℕ, ◌+◌, true, none, some, List, [], ◌∷◌, ◌++◌, ◌≡◌, ◌≢◌, refl}
use gateway_nexy.Base.Int.{pos}
use gateway_nexy.Base.Json.{number, string, array, Jsons, nil, cons, Fields, no_fields, field}
use gateway_nexy.Base.Text.{Text, text}
use gateway_nexy.Codes.{Code, no_err}
use gateway_nexy.Modbus.Registers.{str}
use gateway_nexy.Thousand.Lookup.{new_thousand_lib}
use gateway_nexy.Rs232.Serial.{read_serial}
use gateway_nexy.Rs232.Serial.Reading.{read_serial_returns}
use gateway_nexy.Rs232.Requests.{get_ar_version}
use gateway_nexy.Base.{take, drop, ◌↔◌}
use gateway_nexy.Base.IntDict.{update}
use gateway_nexy.Base.Text.{int_of, str_nat}
use gateway_nexy.Thousand.Signals.{Signal, SignalType, unpack_signal}
use gateway_nexy.Thousand.Signals.LittleEndian.{bytes_of}
use gateway_nexy.Thousand.Protocol.{init_database, new_signal}
use gateway_nexy.Thousand.Lookup.{get_param}
use gateway_nexy.Rs232.Serial.{write_serial}
use gateway_nexy.Rs232.Frames.{check_fields, valid}
use gateway_nexy.Rs232.Split.{place_of, frames, sort_frames}
use gateway_nexy.Rs232.Split.Sorting.{those, sorted_by_kind, sort_frames-sorted_by_kind}
use gateway_nexy.Rs232.Split.Kinds.{is_status, is_notification, is_wanted, is_other}
use gateway_nexy.Rs232.Requests.{to_response}
use gateway_nexy.Rs232.Vfd.{update_vfd}
use gateway_nexy.Rs232.Versions.{versions_reached, required_version}
use gateway_nexy.Rs232.Versions.Order.{Reaches, versions_reached_iff}
use gateway_nexy.Rs232.Poll.{poll_rest, poll_lift}
use gateway_nexy.Rs232.Poll.Stuck.{poll_rest-stuck}
use gateway_nexy.Rs232.Keeping.{IsWellFormed}
use gateway_nexy.Rs232.Keeping.Lift.{poll_lift-IsWellFormed}
use gateway_nexy.Rs232.Write.{write_parameter, replace_param}
use gateway_nexy.Rs232.Write.Bytes.{
  bytes_le, IsRefused, unpack_signal-replace_param, replace_param-none_iff,
}
use gateway_nexy.Rs232.Write.Floors.{write_parameter-fire_floor}
use gateway_nexy.Rs232.Write.Values.{get_param-write_parameter}
use gateway_nexy.Rs232.Split.{logs_frame}
use gateway_nexy.Rs232.Logs.{validate_input_filetype, write_log_to_file}
use gateway_nexy.Rs232.Port.{Rs232, answer, failed}
use gateway_nexy.Tests.Lift.{
  Lift, version_rsp, lock_rsp, version_fields, lift_port, handler, lift_clock,
}

-- A frame that arrives in two pieces, after something else.
read_pieces :
    (read_serial lift_port 20
      (handler (text "x{\"cmd\":\"version\"," ∷ (text "\"data\":\"4.7\"}" ∷ []), 0, []))).0
    ≡ some (answer version_rsp)
unfolding read_serial
read_pieces = refl

-- Nothing arrives: five tries, with four pauses.
read_nothing :
    read_serial lift_port 20 (handler ([], 0, []))
    ≡ (some (failed Code.no_waiting_bytes_err), handler ([], 4, []))
unfolding read_serial
read_nothing = refl

read_serial_returns_example : (read_serial lift_port 20 (handler ([], 0, []))).0 ≢ none
read_serial_returns_example = read_serial_returns lift_port lift_clock 20 (handler ([], 0, []))

-- The version, and what was sent for it.
get_version :
    get_ar_version lift_port (handler (version_rsp ∷ [], 0, []))
    ≡ (some (answer (string (text "4.7"))), handler ([], 1, text "{\"cmd\":\"version\"}" ∷ []))
unfolding get_ar_version place_of
get_version = refl

-- A write of the child lock, which the lift confirms.
lock_written :
    (write_parameter lift_port (text "145" ∷ (text "1" ∷ [])) (handler (lock_rsp ∷ [], 0, []))).0
    ≡ some (answer tt)
unfolding write_parameter place_of new_thousand_lib
lock_written = refl

get_param-write_parameter_example :
    get_param
      (write_parameter lift_port
        (text "145" ∷ (text "1" ∷ []))
        (handler (lock_rsp ∷ [], 0, []))).1.lib.database
      (pos 145)
    ≡ (str (text "1"), no_err)
unfolding int_of
get_param-write_parameter_example =
    get_param-write_parameter lift_port (handler (lock_rsp ∷ [], 0, [])) (text "145") (text "1")
      (pos 145) (pos 1) refl refl lock_written

-- A lift whose fire floor is the first one.
abbrev fire_handler : Rs232 Lift
unfolding new_thousand_lib init_database
fire_handler = record (handler ([], 0, [])) {
  lib = record new_thousand_lib {
    database =
        update (pos 102) (record (new_signal 0 16 10 2 SignalType.uint) { value = str (text "1") })
          init_database;
  };
}

write_parameter-fire_floor_example :
    write_parameter lift_port (text "152" ∷ (text "3" ∷ [])) fire_handler
    ≡ (some (failed Code.floor_lock_err), fire_handler)
unfolding int_of get_param fire_handler
write_parameter-fire_floor_example =
    write_parameter-fire_floor lift_port fire_handler (text "152") (text "3") 3 1 (text "1") refl
      refl refl refl refl (omega arith) (omega arith) (omega arith) refl

abbrev two_bytes : Signal
two_bytes = new_signal 0 16 1 2 SignalType.uint

abbrev file_bytes : ℕ → ℕ → Jsons
file_bytes a b =
    cons (number (pos 7))
      (cons (number (pos a)) (cons (number (pos b)) (cons (number (pos 9)) nil)))

unpack_signal-replace_param_example :
    (unpack_signal 0 two_bytes (to_response (file_bytes 1 2)) ≡ some (str_nat 513, no_err))
    × (to_response (file_bytes 1 2)
        ≡ take 1 (to_response (file_bytes 0 0))
          ++ (bytes_of (bytes_le 2 513) ++ drop (1 + 2) (to_response (file_bytes 0 0))))
unfolding replace_param
unpack_signal-replace_param_example =
    unpack_signal-replace_param 0 two_bytes 513 (file_bytes 0 0) (file_bytes 1 2) refl (omega arith)
      refl

replace_param-none_iff_example :
    (replace_param two_bytes (pos 65536) (file_bytes 0 0) ≡ none)
    ↔ IsRefused two_bytes (pos 65536) (file_bytes 0 0)
replace_param-none_iff_example =
    replace_param-none_iff two_bytes (pos 65536) (file_bytes 0 0) (omega arith)

abbrev status_fields : Fields
status_fields =
    field (text "cmd") (string (text "operation"))
      (field (text "type") (number (pos 130)) (field (text "data") (array nil) no_fields))

abbrev closing_fields : Fields
closing_fields =
    field (text "cmd") (string (text "operation"))
      (field (text "type") (number (pos 135)) no_fields)

-- A status, a door closing time and a wanted frame.
abbrev three_frames : List Fields
three_frames = status_fields ∷ closing_fields ∷ version_fields ∷ []

sort_frames-sorted_by_kind_example :
    sort_frames
      (text "version")
      []
      three_frames
      (record { status = []; wanted = frames []; other = [] })
      (handler ([], 0, []))
    ≡ sorted_by_kind Lift (text "version") [] three_frames [] [] [] (handler ([], 0, []))
unfolding str_nat
sort_frames-sorted_by_kind_example =
    sort_frames-sorted_by_kind Lift (text "version") [] three_frames [] [] [] (handler ([], 0, []))
      refl (omega arith)

-- Each of the three goes to its own list.
three_kinds :
    (those is_status three_frames ≡ status_fields ∷ [])
    × (those is_notification three_frames ≡ closing_fields ∷ [])
    × (those (is_wanted (text "version") []) three_frames ≡ version_fields ∷ [])
    × (those (is_other (text "version") []) three_frames ≡ [])
unfolding str_nat
three_kinds = (refl, refl, refl, refl)

-- A result that passes the check of a frame with no data.
abbrev no_data_fields : Fields
no_data_fields = field (text "cmd") (string (text "vfdResult")) (
    field (text "id") (number (pos 0))
      (field (text "timestamp") (array nil) (field (text "state") (number (pos 1)) no_fields)))

no_data_is_valid : check_fields no_data_fields ≡ valid no_data_fields
unfolding check_fields
no_data_is_valid = refl

poll_rest-stuck_example :
    ((poll_rest lift_port
        ([], no_err)
        (record (handler ([], 0, [])) { saved_vfd_results = no_data_fields ∷ [] })).0
      ≡ none)
    × ((poll_rest lift_port
          ([], no_err)
          (record (handler ([], 0, [])) {
            saved_vfd_results = no_data_fields ∷ [];
          })).1.saved_vfd_results
        ≡ no_data_fields ∷ [])
poll_rest-stuck_example =
    poll_rest-stuck lift_port
      (record (handler ([], 0, [])) { saved_vfd_results = no_data_fields ∷ [] }) [] []
      no_data_fields ([], no_err) refl refl

versions_reached_iff_example :
    (versions_reached
        (str (text "4"))
        (str (text "8"))
        (str (text "1"))
        (str (text "2"))
        (text "4.7", text "1.3")
      ≡ true)
    ↔ (Reaches (pos 4, pos 8) (pos 4, pos 7) × Reaches (pos 1, pos 2) (pos 1, pos 3))
unfolding int_of required_version
versions_reached_iff_example =
    versions_reached_iff (str (text "4")) (str (text "8")) (str (text "1")) (str (text "2"))
      (pos 4, pos 8) (pos 1, pos 2) (text "4.7") (text "1.3") (pos 4, pos 7) (pos 1, pos 3) refl
      refl refl refl refl refl

poll_lift-IsWellFormed_example :
    IsWellFormed (poll_lift lift_port (text "0" ∷ []) (handler (version_rsp ∷ [], 0, []))).1
poll_lift-IsWellFormed_example =
    poll_lift-IsWellFormed lift_port (text "0" ∷ []) (handler (version_rsp ∷ [], 0, []))
      (record { index = omega arith; results = omega arith })

-- An empty new text is sent as a request to read.
empty_text_is_a_read :
    write_serial lift_port (text "liftRef1" ∷ ([] ∷ [])) (handler ([], 0, []))
    ≡ write_serial lift_port (text "liftRef1" ∷ []) (handler ([], 0, []))
unfolding write_serial
empty_text_is_a_read = refl

-- The result that the comment of `__decode_and_validate_serial_response` shows has four bytes, and
-- raises.
four_bytes_raise :
    update_vfd
      (field
        (text "id")
        (number (pos 0))
        (field (text "data") (string (text "0x10,0x20,0x30,0x40")) no_fields))
      new_thousand_lib.database
    ≡ none
unfolding update_vfd new_thousand_lib
four_bytes_raise = refl

-- A quote in a text ends the text of the message.
quote_in_text :
    (write_serial lift_port (text "liftName" ∷ (text "a\"b" ∷ [])) (handler ([], 0, []))).1.port
    ≡ ([], 0, text "{\"cmd\":\"liftName\",\"data\":\"a\"b\"}" ∷ [])
unfolding write_serial
quote_in_text = refl

-- A value that does not fit in two bytes.
overflow_raises : replace_param two_bytes (pos 65536) (file_bytes 0 0) ≡ none
unfolding replace_param
overflow_raises = refl

-- The handler of a lift with the object AR1.
abbrev object_handler : List Text → Rs232 Lift
unfolding new_thousand_lib init_database
object_handler sent = record (handler ([], 0, sent)) {
  lib = record new_thousand_lib {
    database =
        update (pos 0)
          (record (new_signal 0 0 0 39 SignalType.generic_text) { value = str (text "AR1") })
          init_database;
  };
}

-- A log is written once; a second one at the same time is refused, and the file stays.
log_written :
    write_log_to_file lift_port (logs_frame no_fields) (object_handler [])
    ≡ (some (answer (text "AR1.eventlog")), object_handler (text "AR1.eventlog" ∷ []))
unfolding write_log_to_file object_handler
log_written = refl

log_exists :
    write_log_to_file lift_port (logs_frame no_fields) (object_handler (text "AR1.eventlog" ∷ []))
    ≡ (some (failed Code.log_file_already_exist), object_handler (text "AR1.eventlog" ∷ []))
unfolding write_log_to_file object_handler
log_exists = refl

log_arguments : validate_input_filetype (text "0x10" ∷ (text "x" ∷ [])) ≡ Code.args_in_elem_int_err
unfolding validate_input_filetype
log_arguments = refl
