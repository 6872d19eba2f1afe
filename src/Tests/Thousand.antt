-- ===== src/Tests/Thousand.antt =====
-- Tests of src/lib/thousand_lib.py.
use gateway_nexy.Base.{◌≡◌, refl, ℕ, true, some, [], ◌∷◌, arith}
use gateway_nexy.Base.Int.{pos, negsuc}
use gateway_nexy.Base.Text.{Text, text, str_nat, int_of}
use gateway_nexy.Codes.{Code, no_err, partial_err}
use gateway_nexy.Modbus.Registers.{str, int}
use gateway_nexy.Thousand.Signals.{SignalType, Signal, Response, validate_bytes}
use gateway_nexy.Thousand.Signals.LittleEndian.{bytes_of}
use gateway_nexy.Thousand.Packages.{params_door_open_count}
use gateway_nexy.Thousand.Protocol.{Database, init_database}
use gateway_nexy.Thousand.Lookup.{ThousandLib, new_thousand_lib, get_param, get_file_for_param}
use gateway_nexy.Thousand.Virtual.{virtual_value}
use gateway_nexy.Thousand.Virtual.Values.{virtual_value-validate_bytes}
use gateway_nexy.Thousand.Updates.{get_updated_params}
use gateway_nexy.Thousand.Updates.Rounds.{Reported}
use gateway_nexy.Thousand.Updates.Changes.{get_updated_params-changed}
use gateway_nexy.Thousand.Doors.{door_open_count_recalculate}
use gateway_nexy.Thousand.Doors.Totals.{AllLe, door_open_count_recalculate-AllLe}
use gateway_nexy.Thousand.Poll.{changed_params}
use gateway_nexy.Thousand.Vfd.{update_vfd_params}

abbrev signal : SignalType → ℕ → ℕ → Signal
signal kind start size = record {
  value = str [];
  bit_start = 0;
  bit_size = 8;
  byte_start = start;
  byte_size = size;
  signal_type = kind;
}

abbrev lib_of : Database → ThousandLib
lib_of db = record new_thousand_lib { database = db }

abbrev ar_lib : ThousandLib
ar_lib = lib_of ((pos 0, signal SignalType.generic_text 0 39) ∷ [])

abbrev ar_response : Response
ar_response = str (text "AR12,3") ∷ []

abbrev ar_lib_after : ThousandLib
ar_lib_after = record ar_lib {
  database =
      (pos 0, record (signal SignalType.generic_text 0 39) { value = str (text "AR12 3") }) ∷ [];
  latest_responses = (text "liftRef1", ar_response) ∷ [];
}

ar_updated :
    get_updated_params 0 (text "liftRef1") ar_response ar_lib
    ≡ some ((pos 0 ∷ [], no_err), ar_lib_after)
unfolding get_updated_params new_thousand_lib
ar_updated = refl

get_updated_params-changed_example :
    Reported (pos 0) (pos 0 ∷ []) ar_lib.database ar_lib_after.database
get_updated_params-changed_example =
    get_updated_params-changed 0 (text "liftRef1") ar_response ar_lib ar_lib_after (pos 0 ∷ [])
      no_err (pos 0) ar_updated

abbrev lock : Text → Signal
lock t = record (signal SignalType.byte 0 1) { value = str t }

abbrev locked_db : Database
locked_db =
    (pos 146, lock (text "1"))
    ∷ (pos 147, lock (text "0"))
    ∷ (pos 148, lock (text "1"))
    ∷ (pos 149, lock (text "0"))
    ∷ (pos 150, lock (text "0"))
    ∷ (pos 151, lock (text "1"))
    ∷ []

-- Responses with one byte, where the two signals stand in later ones.
abbrev short_lib : ThousandLib
short_lib =
    record (lib_of
      ((pos 9, signal SignalType.byte 1 1) ∷ (pos 92, signal SignalType.uint 26 2) ∷ [])) {
        latest_responses = (text "130", int (pos 5) ∷ []) ∷ (text "134", int (pos 1) ∷ []) ∷ [];
      }

virtual_value-validate_bytes_example :
    (virtual_value 0 short_lib (pos 9) ≡ some (text "-1", partial_err))
    × (virtual_value 0 short_lib (pos 92) ≡ some (text "0", no_err))
unfolding validate_bytes
virtual_value-validate_bytes_example =
    virtual_value-validate_bytes 0 short_lib (signal SignalType.byte 1 1)
      (signal SignalType.uint 26 2) (int (pos 5) ∷ []) (int (pos 1) ∷ []) refl refl refl refl refl
      refl refl refl

abbrev doors_db : Database
doors_db =
    (pos 173, signal SignalType.uint 0 1)
    ∷ (pos 174, signal SignalType.uint 1 1)
    ∷ (pos 175, signal SignalType.uint 2 1)
    ∷ (pos 176, signal SignalType.uint 3 1)
    ∷ (pos 177, signal SignalType.uint 4 1)
    ∷ (pos 178, signal SignalType.uint 5 1)
    ∷ []

abbrev doors_lib : ThousandLib
doors_lib = record (lib_of doors_db) {
  previous_open_door_counters = pos 4 ∷ pos 0 ∷ pos 0 ∷ pos 0 ∷ pos 0 ∷ pos 0 ∷ [];
  total_open_door_counters = pos 10 ∷ pos 0 ∷ pos 0 ∷ pos 0 ∷ pos 0 ∷ pos 0 ∷ [];
}

abbrev counted : ℕ → ℕ → Signal
counted start total = record (signal SignalType.uint start 1) { value = int (pos total) }

abbrev doors_lib_after : ThousandLib
doors_lib_after = record doors_lib {
  previous_open_door_counters = pos 10 ∷ pos 0 ∷ pos 0 ∷ pos 0 ∷ pos 0 ∷ pos 0 ∷ [];
  total_open_door_counters = pos 13 ∷ pos 1 ∷ pos 2 ∷ pos 0 ∷ pos 0 ∷ pos 0 ∷ [];
  reset_saved_open_door_counter = true;
  database =
      (pos 173, counted 0 13)
      ∷ (pos 174, counted 1 1)
      ∷ (pos 175, counted 2 2)
      ∷ (pos 176, counted 3 0)
      ∷ (pos 177, counted 4 0)
      ∷ (pos 178, counted 5 0)
      ∷ [];
}

-- The lift has restarted: door 1 had 10 openings, and it counts 3 since.
abbrev doors_response : Response
doors_response = bytes_of (3 ∷ 1 ∷ 2 ∷ 0 ∷ 0 ∷ 0 ∷ [])

doors_counted :
    door_open_count_recalculate 0 doors_response doors_lib
    ≡ some ((params_door_open_count, no_err), doors_lib_after)
unfolding door_open_count_recalculate new_thousand_lib str_nat int_of
doors_counted = refl

door_open_count_recalculate-AllLe_example :
    AllLe doors_lib_after.previous_open_door_counters doors_lib_after.total_open_door_counters
    × AllLe doors_lib.total_open_door_counters doors_lib_after.total_open_door_counters
door_open_count_recalculate-AllLe_example =
    door_open_count_recalculate-AllLe 0 doors_response doors_lib doors_lib_after
      params_door_open_count no_err
      (
        (signal SignalType.uint 0 1, refl, refl),
        (
          (signal SignalType.uint 1 1, refl, refl),
          (
            (signal SignalType.uint 2 1, refl, refl),
            (
              (signal SignalType.uint 3 1, refl, refl),
              (
                (signal SignalType.uint 4 1, refl, refl),
                ((signal SignalType.uint 5 1, refl, refl), tt),
              ),
            ),
          ),
        ),
      )
      (omega arith, (omega arith, (omega arith, (omega arith, (omega arith, (omega arith, tt))))))
      doors_counted

new_param : get_param init_database (pos 5) ≡ (int (negsuc 0), Code.param_not_set)
unfolding get_param init_database
new_param = refl

file_of_param : get_file_for_param (pos 138) ≡ text "/aritco/door"
unfolding get_file_for_param
file_of_param = refl

polled : changed_params (str (text "10x42x55")) no_err ≡ pos 10 ∷ pos 42 ∷ pos 55 ∷ []
unfolding changed_params int_of
polled = refl

abbrev vfd_db : Database
vfd_db = (pos 170, record (signal SignalType.vfd 4 2) { value = str [] }) ∷ []

abbrev vfd_reply : Text
vfd_reply = text "00,01,02,0x12,34"

motor_power :
    update_vfd_params (pos 1) vfd_reply vfd_db
    ≡ some (
      (pos 170 ∷ [], no_err),
      (pos 170, record (signal SignalType.vfd 4 2) { value = int (pos 0x1234) }) ∷ [],
    )
unfolding update_vfd_params
motor_power = refl
