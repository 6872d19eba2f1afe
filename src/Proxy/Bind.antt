-- ===== src/Proxy/Bind.antt =====
-- src/liftApi/lift_proxy.py and src/liftApi/lift_identifier.py: identification of the lift and the
-- binding of its handler and library.

use gateway_nexy.Base.{ℕ, zero, suc, Bool, true, false, Option, none, some, [], ◌∷◌, if◌then◌else◌}
use gateway_nexy.Base.Text.{text}
use gateway_nexy.Codes.{Code, is_no_err, is_lcm_err}
use gateway_nexy.Modbus.Registers.{Val}
use gateway_nexy.Proxy.Devices.{
  LiftType, unknown, ahl, one_k, Handler, modbus_handler, rs232_handler, Library, ahl_lib,
  thousand_lib, Devices,
}

-- The attributes of `LiftProxy` that identification and polling change.
pub record LiftProxy : Type 0 where
  pub handler : Option Handler
  pub lib : Option Library
  pub lift_type : LiftType
  pub force_read_all : Bool
  pub modbus : Option Handler
  pub rs232 : Option Handler
  pub thousand : Option Library

-- `__init__`
abbrev pub new_proxy : LiftProxy
new_proxy = record {
  handler = none;
  lib = none;
  lift_type = unknown;
  force_read_all = true;
  modbus = none;
  rs232 = none;
  thousand = none;
}

-- `_create_handlers`
abbrev pub create_handlers : LiftProxy → LiftProxy
create_handlers p = record p {
  modbus = some modbus_handler;
  rs232 = some rs232_handler;
  thousand = some thousand_lib;
}

abbrev pub is_unknown : LiftType → Bool
is_unknown LiftType.unknown = true
is_unknown _ = false

-- The code of a read; an exception is no code.
abbrev pub code_of : Option (Val × Code) → Option Code
code_of none = none
code_of (some (v, code)) = some code

abbrev pub answered : Option Code → Bool
answered none = false
answered (some code) = is_no_err code

-- What the reading of parameter 127 says of the firmware; `none` is the `RuntimeError`.
abbrev pub polling_table_of : Option Code → Option Bool
polling_table_of none = none
polling_table_of (some code) =
    if is_no_err code then some true else if is_lcm_err code then some false else none

-- The end of `_bind` before the losing handler is closed.
abbrev pub publish : Handler → Library → LiftType → LiftProxy → LiftProxy
publish handler lib lift_type p = record {
  handler = some handler;
  lib = some lib;
  lift_type = lift_type;
  force_read_all = true;
  modbus = none;
  rs232 = none;
  thousand = none;
}

module _ (d : Devices) where
  open d use {State, read_parameter, get_ar_version, close, new_ahl_lib, set_polling_table}

  -- The two probes of `identify_lift`; a handler that is not given is skipped.
  unfoldable pub probe_modbus : Option Handler → State → Bool × State
  probe_modbus none s = (false, s)
  probe_modbus (some handler) s =
      let (reply, s') = read_parameter handler (text "77" ∷ []) s in (answered (code_of reply), s')

  unfoldable pub probe_rs232 : Option Handler → State → Bool × State
  probe_rs232 none s = (false, s)
  probe_rs232 (some handler) s = let (reply, s') = get_ar_version s in (answered reply, s')

  -- `identify_lift`
  unfoldable pub identify_lift : Option Handler → Option Handler → State → LiftType × State
  unfolding probe_modbus probe_rs232
  identify_lift modbus rs232 s =
      let (is_ahl, s₁) = probe_modbus modbus s in
      let (is_one_k, s₂) = probe_rs232 rs232 s₁ in
      if is_ahl then (ahl, s₁) else if is_one_k then (one_k, s₂) else (unknown, s₂)

  abbrev pub close_loser : Option Handler → State → State
  close_loser none s = s
  close_loser (some handler) s = close handler s

  -- `_detect_ahl_polling_table`; `false` is the exception.
  unfoldable pub detect_ahl_polling_table : Handler → State → Bool × State
  detect_ahl_polling_table handler s =
      let (reply, s') = read_parameter handler (text "127" ∷ []) s in
      elim (polling_table_of (code_of reply)) [
        | none ↦ (false, s')
        | some new_table ↦ (true, set_polling_table new_table s')
      ]

  -- The two cases of `_bind`; `false` is an exception.
  unfoldable pub bind_ahl : LiftProxy → State → Bool × LiftProxy × State
  unfolding detect_ahl_polling_table
  bind_ahl p s = elim p.modbus [
    | none ↦ (true, p, new_ahl_lib s)
    | some handler ↦
        let (detected, s') = detect_ahl_polling_table handler (new_ahl_lib s) in
        if detected
        then (true, publish handler ahl_lib ahl p, close_loser p.rs232 s')
        else (false, p, s')
  ]

  unfoldable pub bind_one_k : LiftProxy → State → Bool × LiftProxy × State
  bind_one_k p s = elim p.rs232 [
    | none ↦ (true, p, s)
    | some handler ↦ elim p.thousand [
      | none ↦ (true, p, s)
      | some lib ↦ (true, publish handler lib one_k p, close_loser p.modbus s)
    ]
  ]

  -- `_bind`
  unfoldable pub bind : LiftType → LiftProxy → State → Bool × LiftProxy × State
  unfolding bind_ahl bind_one_k
  bind unknown p s = (true, p, s)
  bind ahl p s = bind_ahl p s
  bind one_k p s = bind_one_k p s

  -- The result of `_try_identify` after `_bind`; `none` is an exception.
  abbrev pub bind_result : Bool × LiftProxy × State → Option Bool × LiftProxy × State
  bind_result (returns, p, s) =
      ((if returns then some (if is_unknown p.lift_type then false else true) else none), p, s)

  -- `_try_identify`
  unfoldable pub try_identify : LiftProxy → State → Option Bool × LiftProxy × State
  unfolding identify_lift bind
  try_identify p s =
      let (lift_type, s') = identify_lift p.modbus p.rs232 s in
      if is_unknown lift_type then (some false, p, s') else bind_result (bind lift_type p s')

  abbrev pub identified : Option Bool → Bool
  identified none = false
  identified (some b) = b

  -- The attempts of `create`; an exception is a failed attempt.
  unfoldable pub identify_times : ℕ → LiftProxy → State → LiftProxy × State
  unfolding try_identify
  identify_times zero p s = (p, s)
  identify_times (suc n) p s =
      let (found, p', s') = try_identify p s in
      let rest = identify_times n p' s' in if identified found then (p', s') else rest

  -- `create`
  unfoldable pub create : State → LiftProxy × State
  unfolding identify_times
  create = identify_times 10 (create_handlers new_proxy)

  -- One round of `_reidentify_loop`: whether the lift type is then announced, by `_on_identified`.
  unfoldable pub reidentify_round : LiftProxy → State → Bool × LiftProxy × State
  unfolding try_identify
  reidentify_round p s =
      if is_unknown p.lift_type
      then (let (found, p', s') = try_identify p s in (identified found, p', s'))
      else (false, p, s)
