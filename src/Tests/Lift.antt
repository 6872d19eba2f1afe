-- ===== src/Tests/Lift.antt =====
-- A lift of the 1000 series for the tests of src/liftApi/rs232_handler.py.
use gateway_nexy.Base.{
  arith, ℕ, suc, ◌≤◌, true, Option, none, some, List, [], ◌∷◌, ◌++◌, if◌then◌else◌,
}
use gateway_nexy.Base.Json.{Json, string, object, Fields, no_fields, field}
use gateway_nexy.Base.Text.{Text, text, text_eq}
use gateway_nexy.Codes.{no_err}
use gateway_nexy.Thousand.Lookup.{new_thousand_lib}
use gateway_nexy.Rs232.Serial.Reading.{IsClock}
use gateway_nexy.Rs232.Commands.{text_in}
use gateway_nexy.Rs232.Port.{written, Port, Rs232, Waiting, bytes}

-- A lift: what arrives at each reading, the clock, and what was written.
abbrev pub Lift : Type 0
Lift = List Text × ℕ × List Text

abbrev take_bytes : Lift → Waiting × Lift
take_bytes ([], now, sent) = (bytes [], ([], now, sent))
take_bytes (rsp ∷ rest, now, sent) = (bytes rsp, (rest, now, sent))

abbrev pub version_rsp : Text
version_rsp = text "{\"cmd\":\"version\",\"data\":\"4.7\"}"

abbrev pub lock_rsp : Text
lock_rsp = text "{\"cmd\":\"childLock\",\"data\":\"on\"}"

abbrev cmd_fields : Text → Json → Fields
cmd_fields cmd v = field (text "cmd") (string cmd) (field (text "data") v no_fields)

abbrev pub version_fields : Fields
version_fields = cmd_fields (text "version") (string (text "4.7"))

abbrev lock_fields : Fields
lock_fields = cmd_fields (text "childLock") (string (text "on"))

-- Stands for the JSON decoder on two frames.
abbrev decode_two : Text → Option (Json × Text)
decode_two rsp =
    if text_eq rsp version_rsp
    then some (object version_fields, [])
    else if text_eq rsp lock_rsp
    then some (object lock_fields, [])
    else none

abbrev pub lift_port : Port
lift_port = record {
  State = Lift;
  write = λ msg (rsps, now, sent). (true, (rsps, now, sent ++ (msg ∷ [])));
  read = take_bytes;
  now = λ (rsps, now, sent). now;
  sleep = λ (rsps, now, sent). (rsps, suc now, sent);
  unix_time = λ s. 1700000000;
  raw_decode = decode_two;
  loads = λ s. none;
  dumps = λ v. [];
  repr = λ v. text "None";
  log_directory = λ s. (true, s);
  log_path = λ object_id s. object_id ++ text ".eventlog";
  is_file = λ path (rsps, now, sent). text_in path sent;
  write_text = λ path contents (rsps, now, sent). (written, (rsps, now, sent ++ (path ∷ [])));
  read_counters = λ f s. (some [], s);
  write_counters = λ f counters s. (no_err, s);
}

abbrev pub handler : Lift → Rs232 Lift
handler s = record {
  available = true;
  polled_file_package = 0;
  saved_operation_notifications = [];
  saved_vfd_results = [];
  lib = new_thousand_lib;
  port = s;
}

pub lift_clock : IsClock lift_port
lift_clock = record { read_le = reads; sleep_lt = λ (rsps, now, sent). omega arith }
  where
    reads : (s : Lift) → lift_port.now s ≤ lift_port.now (lift_port.read s).1
    reads ([], now, sent) = omega arith
    reads (rsp ∷ rest, now, sent) = omega arith
