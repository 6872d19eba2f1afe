-- ===== src/Modbus/Write/Effects.antt =====
-- src/liftApi/modbus_handler.py: which writes reach the bus in `write_parameter`.
use gateway_nexy.Base.{
  ℕ, zero, suc, ◌≡◌, ◌≢◌, ◌⊎◌, inl, inr, refl, true, Option, none, some, List, [], ◌∷◌, arith,
  Option-cases, Bool-cases, ◌∙◌,
}
use gateway_nexy.Base.Int.{ℤ, pos, shl}
use gateway_nexy.Base.Text.{Text, text, int_of, str_int}
use gateway_nexy.Codes.{no_err, is_no_err}
use gateway_nexy.Modbus.Bus.{Bus, Log, logged, Write, Added, same, Added-step, Added-from}
use gateway_nexy.Modbus.Registers.{
  str, send, convert_param_addr, pack_value, validate_write_param_response,
}
use gateway_nexy.Modbus.Connection.{World, Result, ok, raised, Reply}
use gateway_nexy.Modbus.Read.{read_parameter}
use gateway_nexy.Modbus.Read.Effects.{read_parameter_effects}
use gateway_nexy.Modbus.Write.{
  is_reset_alarm, shifted, handle_reset_alarms, handle_speed_config, handle_floor_lock,
  serial_write_param, write_tries, after_reply, write_value,
}

-- A write request for the parameter with the value.
pub record IsWriteOf (param value : Text) (e : Write) : Type 0 where
  pub address : convert_param_addr (str param) send ≡ some e.0
  pub registers : pack_value (str value) ≡ some e.1

shifted_cases :
    (value : Text)
    → ((shifted value).0 ≡ value)
      ⊎ ((v : ℤ) × (int_of value ≡ some v) × ((shifted value).0 ≡ str_int (shl v 1)))
shifted_cases value = elim (Option-cases (int_of value)) [
  | inl e ↦ inl (rw (e, shifted))
  | inr (v, e) ↦ inr (v, e, rw (e, shifted))
]

module _ (b : Bus) where
  serial_write_param-writes :
      (param value : Text) (w : World (Log b.State))
      → let w' = (serial_write_param (logged b) param value w).1 in
        (w'.bus.writes ≡ w.bus.writes)
        ⊎ ((e : Write) × IsWriteOf param value e × (w'.bus.writes ≡ e ∷ w.bus.writes))
  unfolding serial_write_param
  serial_write_param-writes param value w =
      elim (Option-cases (convert_param_addr (str param) send)) [
        | inl e ↦ inl (ground arith)
        | inr (addr, e) ↦ elim (Option-cases (pack_value (str value))) [
          | inl p ↦ inl (ground arith)
          | inr (regs, p) ↦ elim (Bool-cases w.has_client) [
            | inl c ↦ inr ((addr, regs), record { address = e; registers = p }, ground arith)
            | inr c ↦ inl (ground arith)
          ]
        ]
      ]

  after_reply_lem :
      (Q : Result Reply × World (Log b.State) → Type 0) (reply : Option Reply)
      (w : World (Log b.State)) (again : Reply → Result Reply × World (Log b.State))
      → (reply ≡ none → Q (raised, w))
      → ((ret : Reply) → Q (ok ret, w))
      → ((ret : Reply) → Q (again ret))
      → Q (after_reply (logged b) reply w again)
  after_reply_lem Q none w again q r h = q refl
  after_reply_lem Q (some ret) w again q r h = elim (Bool-cases (is_no_err ret.1)) [
    | inl e ↦ rw (e, after_reply) (r ret)
    | inr e ↦ rw (e, after_reply) (h ret)
  ]

  write_tries-Added :
      (k : ℕ) (param value : Text) (ret : Reply) (w : World (Log b.State))
      → Added
          (IsWriteOf param value)
          w.bus.writes
          k
          (write_tries (logged b) k param value ret w).1.bus.writes
  unfolding write_tries
  write_tries-Added zero param value ret w = same
  write_tries-Added (suc k) param value ret w =
      let (reply, w') = serial_write_param (logged b) param value w in
      let first = serial_write_param-writes param value w in
      let stop = Added-step w.bus.writes w'.bus.writes w'.bus.writes k first same in
      after_reply_lem (λ r. Added (IsWriteOf param value) w.bus.writes (suc k) r.1.bus.writes)
        (validate_write_param_response reply param) w'
        (λ ret'. write_tries (logged b) k param value ret' w') (λ e. stop) (λ ret'. stop)
        (λ ret'.
          Added-step w.bus.writes w'.bus.writes
            (write_tries (logged b) k param value ret' w').1.bus.writes k first
            (write_tries-Added k param value ret' w'))

  -- A reply that could not be checked comes from no request.
  serial_write_param-checked :
      (param value : Text) (w : World (Log b.State))
      → validate_write_param_response (serial_write_param (logged b) param value w).0 param ≢ none
  unfolding serial_write_param validate_write_param_response
  serial_write_param-checked param value w = ground arith

  -- The loop itself never raises.
  pub write_tries-ne_raised :
      (k : ℕ) (param value : Text) (ret : Reply) (w : World (Log b.State))
      → (write_tries (logged b) k param value ret w).0 ≢ raised
  unfolding write_tries
  write_tries-ne_raised zero param value ret w = λ e. cc
  write_tries-ne_raised (suc k) param value ret w =
      let (reply, w') = serial_write_param (logged b) param value w in
      after_reply_lem (λ r. r.0 ≢ raised) (validate_write_param_response reply param) w'
        (λ ret'. write_tries (logged b) k param value ret' w')
        (λ e. absurd (serial_write_param-checked param value w e)) (λ ret' e. cc)
        (λ ret'. write_tries-ne_raised k param value ret' w')

  read_parameter-writes :
      (par : List Text) (w : World (Log b.State))
      → (read_parameter (logged b) par w).1.bus.writes ≡ w.bus.writes
  read_parameter-writes par w = (read_parameter_effects b par w).0.writes_same

  pub handle_reset_alarms-writes :
      (param value : Text) (w : World (Log b.State))
      → (handle_reset_alarms (logged b) param value w).1.bus.writes ≡ w.bus.writes
  unfolding handle_reset_alarms
  handle_reset_alarms-writes param value w =
      ground (arith, read_parameter-writes (text "77" ∷ []) w)

  handle_reset_alarms-shifted :
      (param value : Text) (w : World (Log b.State))
      → let out = (handle_reset_alarms (logged b) param value w).0 in
        (out.0 ≡ value) ⊎ ((is_reset_alarm param ≡ true) × (out.0 ≡ (shifted value).0))
  unfolding handle_reset_alarms
  handle_reset_alarms-shifted param value w = ground arith

  pub handle_reset_alarms-value :
      (param value : Text) (w : World (Log b.State))
      → let out = (handle_reset_alarms (logged b) param value w).0 in
        (out.0 ≡ value)
        ⊎ ((is_reset_alarm param ≡ true)
            × (v : ℤ) × (int_of value ≡ some v)
            × (out.0 ≡ str_int (shl v 1)))
  handle_reset_alarms-value param value w = elim (handle_reset_alarms-shifted param value w) [
    | inl e ↦ inl e
    | inr (r, e) ↦ elim (shifted_cases value) [
      | inl f ↦ inl (e ∙ f)
      | inr (v, h, f) ↦ inr (r, v, h, e ∙ f)
    ]
  ]

  pub handle_speed_config-writes :
      (value : Text) (w : World (Log b.State))
      → (handle_speed_config (logged b) value w).1.bus.writes ≡ w.bus.writes
  unfolding handle_speed_config
  handle_speed_config-writes value w = ground (arith, read_parameter-writes (text "359" ∷ []) w)

  pub handle_floor_lock-writes :
      (value : Text) (w : World (Log b.State))
      → (handle_floor_lock (logged b) value w).1.bus.writes ≡ w.bus.writes
  unfolding handle_floor_lock
  handle_floor_lock-writes value w = ground (arith, read_parameter-writes (text "11" ∷ []) w)

  pub write_value-Added :
      (param value : Text) (w : World (Log b.State))
      → Added
          (IsWriteOf param (handle_reset_alarms (logged b) param value w).0.0)
          w.bus.writes
          3
          (write_value (logged b) param value w).1.bus.writes
  unfolding write_value
  write_value-Added param value w =
      let (out, w') = handle_reset_alarms (logged b) param value w in
      let e = handle_reset_alarms-writes param value w in
      elim (Bool-cases (is_no_err out.1)) [
        | inl ok_code ↦
            rw ok_code (Added-from e (write_tries-Added 3 param out.0 (pos 0, no_err) w'))
        | inr bad ↦ rw bad (Added-from e same)
      ]
