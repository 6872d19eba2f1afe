-- ===== src/Modbus/Read.antt =====
-- src/liftApi/modbus_handler.py: the validation of arguments and `read_parameter`.
pub mod Effects
use gateway_nexy.Base.{
  ℕ, zero, suc, Bool, true, false, not, ◌||◌, none, some, List, [], ◌∷◌, ◌==◌, if◌then◌else◌,
  length,
}
use gateway_nexy.Base.Int.{ℤ, pos, negsuc, eq_ℤ}
use gateway_nexy.Base.Text.{Text}
use gateway_nexy.Codes.{no_err, arg_err, arg_int_err, link_err, is_no_err, is_lcm_err}
use gateway_nexy.Modbus.Bus.{Bus}
use gateway_nexy.Modbus.Registers.{
  str, parse_int_value, send, convert_param_addr, ReadReply, validate_read_param_response,
}
use gateway_nexy.Modbus.Connection.{World, Reply, checked}

abbrev arguments_are_ints : List Text → Bool
arguments_are_ints [] = true
arguments_are_ints (x ∷ xs) = elim (parse_int_value (str x)) [
  | none ↦ false
  | some _ ↦ arguments_are_ints xs
]

-- `_validate_inputs`.
unfoldable pub validate_inputs : List Text → ℕ → Reply
validate_inputs args args_len =
    if not (length args == args_len)
    then (negsuc 0, arg_err)
    else if arguments_are_ints args
    then (pos 0, no_err)
    else (negsuc 0, arg_int_err)

abbrev pub is_zero : ℤ → Bool
is_zero v = eq_ℤ v (pos 0)

abbrev pub head_text : List Text → Text
head_text [] = []
head_text (x ∷ xs) = x

module _ (b : Bus) where
  open b use {State, read_registers}

  -- `_serial_read_param` inside its `try`: every exception becomes the reply `failed`.
  unfoldable pub serial_read_param : Text → World State → ReadReply × World State
  serial_read_param param w = elim (convert_param_addr (str param) send) [
    | none ↦ (ReadReply.failed, w)
    | some addr ↦
        if w.has_client
        then (let (reply, s) = read_registers addr w.bus in (reply, record w { bus = s }))
        else (ReadReply.failed, w)
  ]

  -- The loop of `read_parameter` with the rounds left and the last result.
  unfoldable pub read_tries : ℕ → Text → Reply → World State → Reply × World State
  read_tries zero param ret w = (ret, w)
  read_tries (suc k) param ret w =
      let (reply, w') = serial_read_param param w in
      let ret' = validate_read_param_response reply in
      let rest = read_tries k param ret' w' in
      if is_no_err ret'.1 || is_lcm_err ret'.1 then (ret', w') else rest

  unfoldable pub read_parameter_body : List Text → World State → Reply × World State
  read_parameter_body par w =
      let ret = validate_inputs par 1 in
      let rest = read_tries 3 (head_text par) ret w in
      if not (is_zero ret.0) then (ret, w) else rest

  -- `read_parameter`
  unfoldable pub read_parameter : List Text → World State → Reply × World State
  unfolding read_parameter_body
  read_parameter par = checked b (negsuc 0, link_err) (read_parameter_body par)
