-- ===== src/Modbus/Write.antt =====
-- src/liftApi/modbus_handler.py: `write_parameter` with its checks for special parameters.
pub mod Checks
pub mod Effects
pub mod Outcome
pub mod Safety
use gateway_nexy.Base.{
  ℕ, zero, suc, Bool, true, false, not, ◌&&◌, ◌||◌, Option, none, some, List, [], ◌∷◌,
  if◌then◌else◌,
}
use gateway_nexy.Base.Int.{ℤ, pos, negsuc, shl, leb_ℤ, eq_ℤ, bit_set}
use gateway_nexy.Base.Text.{Text, text, text_eq, str_int, int_of}
use gateway_nexy.Codes.{
  Code, no_err, arg_int_err, link_err, custom_speed_err, floor_lock_err, is_no_err,
}
use gateway_nexy.Modbus.Bus.{Bus}
use gateway_nexy.Modbus.Registers.{
  str, parse_int_value, pack_value, send, convert_param_addr, WriteReply,
  validate_write_param_response,
}
use gateway_nexy.Modbus.Connection.{World, Result, ok, raised, Reply, checked}
use gateway_nexy.Modbus.Read.{validate_inputs, is_zero, head_text, read_parameter}

abbrev second_text : List Text → Text
second_text [] = []
second_text (x ∷ xs) = head_text xs

-- `param in reset_alarm_params`.
abbrev pub is_reset_alarm : Text → Bool
is_reset_alarm param =
    text_eq param (text "102") || text_eq param (text "103") || text_eq param (text "104")

-- The value for an LCM of at most version 349, shifted by one bit (SW-2905).
abbrev pub shifted : Text → Text × Code
shifted value = elim (int_of value) [
  | none ↦ (value, arg_int_err)
  | some v ↦ (str_int (shl v 1), no_err)
]

-- `1 << (floor - 1)` as the bit's number; a negative shift is a `ValueError`.
abbrev pub floor_bit : ℤ → Option ℕ
floor_bit (pos zero) = none
floor_bit (pos (suc k)) = some k
floor_bit (negsuc n) = none

-- The end of `_handle_speed_config`: `int(value)`, which reads no hexadecimal text, and the range.
unfoldable pub check_speed : ℤ → Text → Result Code
check_speed osm_speed value =
    if not (eq_ℤ osm_speed (pos 300)) then ok custom_speed_err else elim (int_of value) [
      | none ↦ raised
      | some v ↦ ok (if leb_ℤ (pos 150) v && leb_ℤ v (pos 300) then no_err else custom_speed_err)
    ]

-- The end of `_handle_floor_lock`.
unfoldable pub check_floor_lock : ℤ → Text → Result Code
check_floor_lock fire_floor value = elim (floor_bit fire_floor) [
  | none ↦ raised
  | some k ↦ elim (parse_int_value (str value)) [
    | none ↦ raised
    | some v ↦ ok (if bit_set v k then floor_lock_err else no_err)
  ]
]

module _ (b : Bus) where
  open b use {State, write_registers, sync}

  -- `_handle_reset_alarms`
  unfoldable pub handle_reset_alarms : Text → Text → World State → (Text × Code) × World State
  handle_reset_alarms param value w =
      let ((version, err_code), w') = read_parameter b (text "77" ∷ []) w in
      if not (is_reset_alarm param)
      then ((value, no_err), w)
      else if not (is_no_err err_code)
      then ((value, err_code), w')
      else if leb_ℤ version (pos 349)
      then (shifted value, w')
      else ((value, no_err), w')

  -- `_handle_reboot_request`
  unfoldable pub handle_reboot_request : Text → World State → World State
  handle_reboot_request value w =
      if text_eq value (text "2") || text_eq value (text "4")
      then record w { bus = sync w.bus }
      else w

  -- `_handle_speed_config`
  unfoldable pub handle_speed_config : Text → World State → Result Code × World State
  handle_speed_config value w =
      let ((speed, code), w') = read_parameter b (text "359" ∷ []) w in
      if not (is_no_err code) then (ok code, w') else (check_speed speed value, w')

  -- `_handle_floor_lock`
  unfoldable pub handle_floor_lock : Text → World State → Result Code × World State
  handle_floor_lock value w =
      let ((fire_floor, code), w') = read_parameter b (text "11" ∷ []) w in
      if not (is_no_err code) then (ok code, w') else (check_floor_lock fire_floor value, w')

  -- `_serial_write_param` inside its `try`.
  unfoldable pub serial_write_param : Text → Text → World State → WriteReply × World State
  serial_write_param param value w = elim (convert_param_addr (str param) send) [
    | none ↦ (WriteReply.failed, w)
    | some addr ↦ elim (pack_value (str value)) [
      | none ↦ (WriteReply.failed, w)
      | some registers ↦
          if w.has_client
          then (let (reply, s) = write_registers addr registers w.bus in
              (reply, record w { bus = s }))
          else (WriteReply.failed, w)
    ]
  ]

  -- The end of one round: the loop goes on after an error.
  abbrev pub after_reply :
      Option Reply → World State → (Reply → Result Reply × World State) → Result Reply × World State
  after_reply none w again = (raised, w)
  after_reply (some ret) w again = elim (is_no_err ret.1) [ true ↦ (ok ret, w) | false ↦ again ret ]

  -- The loop of `write_parameter` with the rounds left and the last result.
  unfoldable pub write_tries : ℕ → Text → Text → Reply → World State → Result Reply × World State
  write_tries zero param value ret w = (ok ret, w)
  write_tries (suc k) param value ret w =
      let (reply, w') = serial_write_param param value w in
      after_reply (validate_write_param_response reply param) w'
        (λ ret'. write_tries k param value ret' w')

  -- From the reset-alarm check to the end.
  unfoldable pub write_value : Text → Text → World State → Result Reply × World State
  write_value param value w =
      let ((value', err), w') = handle_reset_alarms param value w in
      if not (is_no_err err)
      then (ok (negsuc 0, err), w')
      else write_tries 3 param value' (pos 0, no_err) w'

  -- The result of a special parameter's check.
  abbrev after_check : Text → Text → Result Code × World State → Result Reply × World State
  after_check param value (raised, w) = (raised, w)
  after_check param value (ok err, w) =
      if not (is_no_err err) then (ok (negsuc 0, err), w) else write_value param value w

  -- The checks before the write: a parameter is at most one of the three.
  unfoldable pub write_checked : Text → Text → World State → Result Reply × World State
  write_checked param value w =
      let w₁ = if text_eq param (text "108") then handle_reboot_request value w else w in
      if text_eq param (text "30")
      then after_check param value (handle_speed_config value w₁)
      else if text_eq param (text "363")
      then after_check param value (handle_floor_lock value w₁)
      else write_value param value w₁

  unfoldable pub write_parameter_body : List Text → World State → Result Reply × World State
  write_parameter_body args w =
      let ret = validate_inputs args 2 in
      if not (is_zero ret.0)
      then (ok ret, w)
      else write_checked (head_text args) (second_text args) w

  -- `write_parameter`
  unfoldable pub write_parameter : List Text → World State → Result Reply × World State
  unfolding write_parameter_body
  write_parameter args = checked b (ok (negsuc 0, link_err)) (write_parameter_body args)
