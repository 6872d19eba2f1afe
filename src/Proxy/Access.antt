-- ===== src/Proxy/Access.antt =====
-- src/liftApi/lift_proxy.py: reading and writing of parameters. The source of a code is left out, and
-- `none` is an exception.
pub mod OnAhl
pub mod Cache
use gateway_nexy.Base.{ℕ, Bool, true, false, Option, none, some, List, [], ◌∷◌, if◌then◌else◌}
use gateway_nexy.Base.Int.{ℤ, pos, negsuc, eq_ℤ}
use gateway_nexy.Base.Text.{Text, text, str_int, int_of}
use gateway_nexy.Codes.{
  Code, no_err, init_err, identify_err, link_err, param_not_in_db, param_not_set, param_read_only,
  com_err, arg_err, poll_err, log_err, file_err, partial_err, data_err, is_no_err,
}
use gateway_nexy.Modbus.Registers.{Val, str, int, parse_int_value}
use gateway_nexy.Proxy.Devices.{
  LiftType, unknown, ahl, one_k, Handler, Library, TextReply, texts, other, Devices,
}
use gateway_nexy.Proxy.Bind.{LiftProxy}

-- `LpCode[name]`; a name that `LpCode` does not have becomes `COM_ERR`.
unfoldable pub lp_code : Code → Code
lp_code Code.no_err = no_err
lp_code Code.init_err = init_err
lp_code Code.identify_err = identify_err
lp_code Code.link_err = link_err
lp_code Code.param_not_in_db = param_not_in_db
lp_code Code.param_not_set = param_not_set
lp_code Code.param_read_only = param_read_only
lp_code Code.arg_err = arg_err
lp_code Code.poll_err = poll_err
lp_code Code.log_err = log_err
lp_code Code.file_err = file_err
lp_code Code.partial_err = partial_err
lp_code Code.data_err = data_err
lp_code _ = com_err

-- A reply with a value, where Python's `None` is `none`.
abbrev pub Reply : Type 0
Reply = Option Val × Code

abbrev pub reply_of_value : Option (Val × Code) → Option Reply
reply_of_value none = none
reply_of_value (some (v, code)) = some (some v, code)

abbrev pub is_ahl : LiftType → Bool
is_ahl LiftType.ahl = true
is_ahl _ = false

abbrev pub is_one_k : LiftType → Bool
is_one_k LiftType.one_k = true
is_one_k _ = false

-- The first text of a list, where the read had no error.
abbrev pub first_text : TextReply → Code → TextReply
first_text (other v) code = other v
first_text (texts []) code = texts []
first_text (texts (t ∷ ts)) code = if is_no_err code then other (str t) else texts (t ∷ ts)

abbrev pub first_reply : Option (TextReply × Code) → Option (Option TextReply × Code)
first_reply none = none
first_reply (some (reply, code)) = some (some (first_text reply code), code)

abbrev pub text_reply : Option (TextReply × Code) → Option (Option TextReply × Code)
text_reply none = none
text_reply (some (reply, code)) = some (some reply, code)

abbrev pub as_text_reply : Option Reply → Option (Option TextReply × Code)
as_text_reply none = none
as_text_reply (some (none, code)) = some (none, code)
as_text_reply (some (some v, code)) = some (some (other v), code)

module _ (d : Devices) where
  open d use {
    State, read_parameter, write_parameter, get_generic_text, write_generic_text, get_param,
    set_param,
  }

  -- `get_param_value`
  unfoldable pub get_param_value : LiftProxy → ℤ → State → Reply
  unfolding lp_code
  get_param_value p param s = elim p.lib [
    | none ↦ (none, init_err)
    | some lib ↦ let (value, code) = get_param lib param s in (some value, lp_code code)
  ]

  -- `read_param_live`
  unfoldable pub read_param_live : LiftProxy → ℤ → State → Option Reply × State
  read_param_live p param s = elim p.handler [
    | none ↦ (some (none, init_err), s)
    | some handler ↦
        let (reply, s') = read_parameter handler (str_int param ∷ []) s in
        (reply_of_value reply, s')
  ]

  -- `read_ar_number`
  unfoldable pub read_ar_number : LiftProxy → State → Option (Option TextReply × Code) × State
  unfolding read_param_live
  read_ar_number p s =
      if is_ahl p.lift_type
      then (let (reply, s') = read_param_live p (pos 96) s in (as_text_reply reply, s'))
      else if is_one_k p.lift_type
      then elim p.handler [
        | none ↦ (some (none, init_err), s)
        | some handler ↦
            let (reply, s') = get_generic_text (text "liftRef1") s in (first_reply reply, s')
      ]
      else (some (none, init_err), s)

  -- `write_ar_number`
  unfoldable pub write_ar_number :
      LiftProxy → Text → State → Option (Option TextReply × Code) × State
  write_ar_number p value s =
      if is_ahl p.lift_type
      then (some (none, param_read_only), s)
      else if is_one_k p.lift_type
      then elim p.handler [
        | none ↦ (some (none, init_err), s)
        | some handler ↦
            let (reply, s') = write_generic_text (text "liftRef1" ∷ value ∷ []) s in
            (text_reply reply, s')
      ]
      else (some (none, init_err), s)

  -- `self._lib.set_param(int(param), value)`, on AHL lifts only; `false` is a `ValueError`.
  unfoldable pub put_ahl : LiftProxy → Text → Option Val → State → Bool × State
  put_ahl p param value s =
      if is_ahl p.lift_type
      then elim p.lib [
        | none ↦ (true, s)
        | some lib ↦ elim (int_of param) [
          | none ↦ (false, s)
          | some n ↦ elim value [ none ↦ (false, s) | some v ↦ (true, set_param lib n v s) ]
        ]
      ]
      else (true, s)

  abbrev pub int_val : Option ℤ → Option Val
  int_val none = none
  int_val (some z) = some (int z)

  -- `_mirror_ahl_write_to_cache`
  unfoldable pub mirror_ahl_write_to_cache : LiftProxy → Text → Text → State → Bool × State
  unfolding put_ahl parse_int_value
  mirror_ahl_write_to_cache p param value s =
      put_ahl p param (int_val (parse_int_value (str value))) s

  -- `write_param`
  unfoldable pub write_param : LiftProxy → Text → Text → State → Option (ℤ × Code) × State
  unfolding mirror_ahl_write_to_cache
  write_param p param value s = elim p.handler [
    | none ↦ (some (negsuc 0, init_err), s)
    | some handler ↦
        let (written, s') = write_parameter handler (param ∷ value ∷ []) s in
        elim written [
          | none ↦ (none, s')
          | some (status, code) ↦
              let (mirrored, s'') = mirror_ahl_write_to_cache p param value s' in
              if eq_ℤ status (pos 0)
              then ((if mirrored then some (status, code) else none), s'')
              else (some (status, code), s')
        ]
  ]

  -- The end of `write_read_param` after the read-back.
  unfoldable pub keep_read_back :
      LiftProxy → Text → Option (Val × Code) → State → Option (ℤ × Option Val × Code) × State
  unfolding put_ahl
  keep_read_back p param none s = (none, s)
  keep_read_back p param (some (value, code)) s =
      let (kept, s') = put_ahl p param (some value) s in
      if is_no_err code
      then ((if kept then some (pos 0, some value, code) else none), s')
      else (some (pos 0, none, code), s)

  -- `write_read_param`
  unfoldable pub write_read_param :
      LiftProxy → Text → Text → State → Option (ℤ × Option Val × Code) × State
  unfolding keep_read_back
  write_read_param p param value s = elim p.handler [
    | none ↦ (some (negsuc 0, none, init_err), s)
    | some handler ↦
        let (written, s') = write_parameter handler (param ∷ value ∷ []) s in
        elim written [
          | none ↦ (none, s')
          | some (status, code) ↦
              let (read_back, s'') = read_parameter handler (param ∷ []) s' in
              if eq_ℤ status (pos 0)
              then keep_read_back p param read_back s''
              else (some (status, none, code), s')
        ]
  ]
