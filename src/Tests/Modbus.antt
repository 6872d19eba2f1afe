-- ===== src/Tests/Modbus.antt =====
-- Tests of src/liftApi/modbus_handler.py on a bus that is a table of registers.
use gateway_nexy.Base.{
  ℕ, ◌+◌, ◌≡◌, ◌⊎◌, inl, refl, true, false, Option, none, some, List, [], ◌∷◌, arith,
}
use gateway_nexy.Base.Int.{ℤ, pos, negsuc, IsInt32}
use gateway_nexy.Base.Text.{text, str_nat, text_eq, int_of, int_of_hex}
use gateway_nexy.Base.Dict.{Dict, lookup, update}
use gateway_nexy.Codes.{no_err, floor_lock_err, link_err, is_no_err}
use gateway_nexy.Modbus.Bus.{Bus, Log, logged, Write, Added}
use gateway_nexy.Modbus.Registers.{
  int, ReadReply, WriteReply, parse_int_value, pack_value, pack_int, validate_read_param_response,
  convert_param_addr, validate_write_param_response,
}
use gateway_nexy.Modbus.Registers.RoundTrip.{pack-decode, decode-pack}
use gateway_nexy.Modbus.Connection.{
  World, ok, raised, close, checked, setup_connection, test_connection,
}
use gateway_nexy.Modbus.Connection.Lifecycle.{admit, IsValid}
use gateway_nexy.Modbus.Read.{read_parameter, read_tries, serial_read_param, validate_inputs}
use gateway_nexy.Modbus.Read.Effects.{
  OnlyReads, is_decisive, read_parameter_effects, read_parameter_retries,
}
use gateway_nexy.Modbus.Write.{
  write_parameter, write_parameter_body, write_checked, handle_floor_lock, check_floor_lock,
  handle_reset_alarms, write_value, write_tries, serial_write_param, handle_speed_config,
  check_speed,
}
use gateway_nexy.Modbus.Write.Checks.{IsParamWrite, IsFloorWrite, IsSpeedWrite}
use gateway_nexy.Modbus.Write.Safety.{
  write_parameter_writes, fire_floor_stays_open, speed_stays_in_range,
}
use gateway_nexy.Modbus.Write.Outcome.{
  is_success, write_parameter_raises, write_parameter_success, closed_is_terminal,
}

-- A read of an address that the table lacks gets no answer; a write is acknowledged.
abbrev table_read : Option (List ℕ) → ReadReply
table_read none = ReadReply.failed
table_read (some rs) = ReadReply.response false (pos 3) rs

abbrev table_bus : Bus
table_bus = record {
  State = Dict (List ℕ);
  port_exists = λ s. (true, s);
  connect = λ s. s;
  close_client = λ s. s;
  read_registers = λ addr s. (table_read (lookup addr s), s);
  write_registers =
      λ addr values s. (WriteReply.response false (some addr) (some 2), update addr values s);
  sync = λ s. s;
}

-- Fire floor 2, OSM speed 300, LCM software version 350.
abbrev lcm : Dict (List ℕ)
lcm =
    (22, 0 ∷ 2 ∷ [])
    ∷ (718, 0 ∷ 300 ∷ [])
    ∷ (154, 0 ∷ 350 ∷ [])
    ∷ (726, 0 ∷ 0 ∷ [])
    ∷ (60, 0 ∷ 0 ∷ [])
    ∷ []

abbrev start : World (Log (Dict (List ℕ)))
start = record {
  modbus_link = true;
  closed = false;
  has_client = true;
  bus = record { inner = lcm; writes = []; reads = 0 };
}

abbrev bare : World (Dict (List ℕ))
bare = record { modbus_link = true; closed = false; has_client = true; bus = lcm }

start-IsValid : IsValid start
start-IsValid = ground arith

-- Floor 1 may be locked: the write of mask 1 reaches the register at address 726.
lock_floor_1 :
    let (ret, w) = write_parameter (logged table_bus) (text "363" ∷ text "1" ∷ []) start in
    (ret ≡ ok (pos 0, no_err)) × (w.bus.writes ≡ (726, 0 ∷ 1 ∷ []) ∷ [])
unfolding write_parameter checked test_connection setup_connection write_parameter_body
    validate_inputs parse_int_value int_of write_checked handle_floor_lock check_floor_lock
    read_parameter read_tries serial_read_param convert_param_addr validate_read_param_response
    write_value handle_reset_alarms write_tries serial_write_param pack_value pack_int
    validate_write_param_response
lock_floor_1 = (refl, refl)

-- Mask 3 holds the fire floor and is refused without a write.
lock_fire_floor :
    let (ret, w) = write_parameter (logged table_bus) (text "363" ∷ text "0x3" ∷ []) start in
    (ret ≡ ok (negsuc 0, floor_lock_err)) × (w.bus.writes ≡ [])
unfolding write_parameter checked test_connection setup_connection write_parameter_body
    validate_inputs parse_int_value int_of int_of_hex write_checked handle_floor_lock
    check_floor_lock read_parameter read_tries serial_read_param convert_param_addr
    validate_read_param_response
lock_fire_floor = (refl, refl)

set_speed :
    is_success (write_parameter (logged table_bus) (text "30" ∷ text "200" ∷ []) start).0 ≡ true
unfolding write_parameter checked test_connection setup_connection write_parameter_body
    validate_inputs parse_int_value int_of write_checked handle_speed_config check_speed
    read_parameter read_tries serial_read_param convert_param_addr validate_read_param_response
    write_value handle_reset_alarms write_tries serial_write_param pack_value pack_int
    validate_write_param_response
set_speed = refl

-- The checks go by the text of the parameter: with a zero in front, the mask of the fire floor and a
-- speed of 9999 are written.
zero_in_front :
    (write_parameter (logged table_bus) (text "0363" ∷ text "2" ∷ []) start).1.bus.writes
    ≡ (726, 0 ∷ 2 ∷ []) ∷ []
unfolding write_parameter checked test_connection setup_connection write_parameter_body
    validate_inputs parse_int_value int_of write_checked read_parameter read_tries serial_read_param
    convert_param_addr validate_read_param_response write_value handle_reset_alarms write_tries
    serial_write_param pack_value pack_int validate_write_param_response
zero_in_front = refl

fast_speed :
    (write_parameter (logged table_bus) (text "030" ∷ text "9999" ∷ []) start).1.bus.writes
    ≡ (60, 0 ∷ 9999 ∷ []) ∷ []
unfolding write_parameter checked test_connection setup_connection write_parameter_body
    validate_inputs parse_int_value int_of write_checked read_parameter read_tries serial_read_param
    convert_param_addr validate_read_param_response write_value handle_reset_alarms write_tries
    serial_write_param pack_value pack_int validate_write_param_response
fast_speed = refl

pack-decode_example :
    (rs : List ℕ) × (pack_value (int (negsuc 9)) ≡ some rs)
    × (validate_read_param_response (ReadReply.response false (pos 3) rs) ≡ (negsuc 9, no_err))
pack-decode_example = pack-decode (negsuc 9) (pos 3) (omega arith) (ground arith)

decode-pack_example :
    (v : ℤ) × (validate_read_param_response (ReadReply.response false (pos 3) (65535 ∷ 7 ∷ []))
      ≡ (v, no_err))
    × IsInt32 v
    × (pack_value (int v) ≡ some (65535 ∷ 7 ∷ []))
decode-pack_example = decode-pack 65535 7 (pos 3) (omega arith) (omega arith) (inl (omega arith))

read_parameter_effects_example :
    let (ret, w') = read_parameter (logged table_bus) (text "11" ∷ []) start in
    OnlyReads table_bus 3 start w' × ((is_no_err ret.1 ≡ false) ⊎ IsInt32 ret.0)
read_parameter_effects_example = read_parameter_effects table_bus (text "11" ∷ []) start

-- Parameter 400 does not answer.
unanswered : is_decisive (read_parameter (logged table_bus) (str_nat 400 ∷ []) start).0.1 ≡ false
unfolding read_parameter checked test_connection setup_connection validate_inputs parse_int_value
    int_of str_nat read_tries serial_read_param convert_param_addr validate_read_param_response
unanswered = refl

read_parameter_retries_example :
    let (ret, w') = read_parameter (logged table_bus) (str_nat 400 ∷ []) start in
    (ret.1 ≡ link_err) ⊎ (w'.bus.reads ≡ start.bus.reads + 3)
read_parameter_retries_example = read_parameter_retries table_bus 400 start start-IsValid unanswered

write_parameter_writes_example :
    Added
      (IsParamWrite (text "102") (text "5"))
      []
      3
      (write_parameter (logged table_bus) (text "102" ∷ text "5" ∷ []) start).1.bus.writes
write_parameter_writes_example = write_parameter_writes table_bus (text "102") (text "5") start

fire_floor_stays_open_example :
    Added
      (IsFloorWrite table_bus (admit (logged table_bus) start).1 (text "1"))
      []
      3
      (write_parameter (logged table_bus) (text "363" ∷ text "1" ∷ []) start).1.bus.writes
fire_floor_stays_open_example = fire_floor_stays_open table_bus (text "1") start

speed_stays_in_range_example :
    Added
      (IsSpeedWrite table_bus (admit (logged table_bus) start).1 (text "200"))
      []
      3
      (write_parameter (logged table_bus) (text "30" ∷ text "200" ∷ []) start).1.bus.writes
speed_stays_in_range_example = speed_stays_in_range table_bus (text "200") start

hex_speed_raises :
    (write_parameter (logged table_bus) (text "30" ∷ text "0xC8" ∷ []) start).0 ≡ raised
unfolding write_parameter checked test_connection setup_connection write_parameter_body
    validate_inputs parse_int_value int_of int_of_hex write_checked handle_speed_config check_speed
    read_parameter read_tries serial_read_param convert_param_addr validate_read_param_response
hex_speed_raises = refl

write_parameter_raises_example :
    (text_eq (text "30") (text "30") ≡ true) × (int_of (text "0xC8") ≡ none)
    ⊎ (text_eq (text "30") (text "363") ≡ true)
write_parameter_raises_example =
    write_parameter_raises table_bus (text "30") (text "0xC8") start hex_speed_raises

write_parameter_success_example :
    (e : Write) × (rest : List Write) × IsParamWrite (text "30") (text "200") e
    × ((write_parameter (logged table_bus) (text "30" ∷ text "200" ∷ []) start).1.bus.writes
        ≡ e ∷ rest)
write_parameter_success_example =
    write_parameter_success table_bus (text "30") (text "200") start set_speed

closed_is_terminal_example :
    let c = close table_bus bare in
    (close table_bus c ≡ c)
    × (read_parameter table_bus (text "4" ∷ []) c ≡ ((negsuc 0, link_err), c))
    × (write_parameter table_bus (text "5" ∷ text "1" ∷ []) c ≡ (ok (negsuc 0, link_err), c))
closed_is_terminal_example =
    closed_is_terminal table_bus (text "4" ∷ []) (text "5" ∷ text "1" ∷ []) bare
