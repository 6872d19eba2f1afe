-- ===== src/Modbus/Write/Outcome.antt =====
-- src/liftApi/modbus_handler.py: what `write_parameter` returns.
use gateway_nexy.Base.{
  ℕ, zero, suc, ◌≡◌, ◌≢◌, ◌⊎◌, inl, inr, refl, Bool, true, false, Option, none, some, List, [], ◌∷◌,
  arith, Option-cases, Bool-cases, if◌then◌else◌,
}
use gateway_nexy.Base.Int.{ℤ, pos, negsuc}
use gateway_nexy.Base.Text.{Text, text, text_eq, int_of}
use gateway_nexy.Codes.{Code, no_err, is_no_err, link_err}
use gateway_nexy.Modbus.Bus.{Bus, Log, logged, Write}
use gateway_nexy.Modbus.Registers.{
  str, send, parse_int_value, convert_param_addr, pack_value, validate_write_param_response,
}
use gateway_nexy.Modbus.Connection.{World, Result, ok, raised, Reply, close}
use gateway_nexy.Modbus.Connection.Lifecycle.{
  admit, checked-eq-admit, admit-closed, close-close, close-closed,
}
use gateway_nexy.Modbus.Read.{read_parameter, validate_inputs, is_zero}
use gateway_nexy.Modbus.Write.{
  check_speed, handle_reset_alarms, handle_reboot_request, handle_speed_config, handle_floor_lock,
  write_value, after_check, serial_write_param, write_tries, after_reply, write_checked,
  write_parameter_body, write_parameter,
}
use gateway_nexy.Modbus.Write.Checks.{IsParamWrite}
use gateway_nexy.Modbus.Write.Safety.{param_write}
use gateway_nexy.Modbus.Write.Effects.{IsWriteOf, write_tries-ne_raised}

abbrev acknowledged : Option Reply → Bool
acknowledged none = false
acknowledged (some ret) = is_no_err ret.1

-- The result that reports success.
abbrev pub is_success : Result Reply → Bool
is_success raised = false
is_success (ok ret) = is_no_err ret.1

-- The latest write of `w'` is one of the value to the parameter.
abbrev LastWrite : (b : Bus) → Text → Text → World (Log b.State) → Type 0
LastWrite b param value w' =
    (e : Write) × (rest : List Write) × IsWriteOf param value e × (w'.bus.writes ≡ e ∷ rest)

check_speed-raised :
    (speed : ℤ) (value : Text) → check_speed speed value ≡ raised → int_of value ≡ none
unfolding check_speed
check_speed-raised speed value h = ground arith

validate_inputs-invalid :
    (args : List Text)
    → is_zero (validate_inputs args 2).0 ≡ false
    → is_no_err (validate_inputs args 2).1 ≡ false
unfolding validate_inputs
validate_inputs-invalid args h = ground arith

parse_speed_param : parse_int_value (str (text "30")) ≡ some (pos 30)
unfolding parse_int_value int_of
parse_speed_param = refl

validate_inputs-speed :
    (value : Text) (v : ℤ)
    → parse_int_value (str value) ≡ some v
    → validate_inputs (text "30" ∷ value ∷ []) 2 ≡ (pos 0, no_err)
unfolding validate_inputs
validate_inputs-speed value v h = ground (arith, parse_speed_param)

module _ (b : Bus) where
  write_value-ne_raised :
      (param value : Text) (w : World (Log b.State))
      → (write_value (logged b) param value w).0 ≢ raised
  unfolding write_value
  write_value-ne_raised param value w =
      let (out, w') = handle_reset_alarms (logged b) param value w in
      ground (arith, write_tries-ne_raised b 3 param out.0 (pos 0, no_err) w')

  handle_speed_config-raised :
      (value : Text) (w : World (Log b.State))
      → (handle_speed_config (logged b) value w).0 ≡ raised
      → int_of value ≡ none
  unfolding handle_speed_config
  handle_speed_config-raised value w h =
      ground (arith, check_speed-raised (read_parameter (logged b) (text "359" ∷ []) w).0.0 value)

  serial_write_param-acknowledged :
      (param value : Text) (w : World (Log b.State))
      → acknowledged
          (validate_write_param_response (serial_write_param (logged b) param value w).0 param)
        ≡ true
      → LastWrite b param value (serial_write_param (logged b) param value w).1
  unfolding serial_write_param validate_write_param_response
  serial_write_param-acknowledged param value w h =
      elim (Option-cases (convert_param_addr (str param) send)) [
        | inl e ↦ absurd (ground arith)
        | inr (addr, e) ↦ elim (Option-cases (pack_value (str value))) [
          | inl p ↦ absurd (ground arith)
          | inr (regs, p) ↦
              ((addr, regs), w.bus.writes, record { address = e; registers = p }, ground arith)
        ]
      ]

  after_reply-success :
      (param value : Text) (reply : Option Reply) (w : World (Log b.State))
      (again : Reply → Result Reply × World (Log b.State))
      → (acknowledged reply ≡ true → LastWrite b param value w)
      → ((ret : Reply)
          → is_success (again ret).0 ≡ true
          → is_no_err ret.1 ≡ false
          → LastWrite b param value (again ret).1)
      → is_success (after_reply (logged b) reply w again).0 ≡ true
      → LastWrite b param value (after_reply (logged b) reply w again).1
  after_reply-success param value none w again f g = λ h. cc
  after_reply-success param value (some ret) w again f g = elim (Bool-cases (is_no_err ret.1)) [
    | inl e ↦ rw (e, after_reply) (λ h. f e)
    | inr e ↦ rw (e, after_reply) (λ h. g ret h e)
  ]

  write_tries-success :
      (k : ℕ) (param value : Text) (ret : Reply) (w : World (Log b.State))
      → is_success (write_tries (logged b) k param value ret w).0 ≡ true
      → ((k ≡ 0) × (is_no_err ret.1 ≡ true))
        ⊎ LastWrite b param value (write_tries (logged b) k param value ret w).1
  unfolding write_tries
  write_tries-success zero param value ret w h = inl (refl, h)
  write_tries-success (suc k) param value ret w h =
      let (reply, w') = serial_write_param (logged b) param value w in
      inr (
        after_reply-success param value (validate_write_param_response reply param) w'
          (λ ret'. write_tries (logged b) k param value ret' w')
          (serial_write_param-acknowledged param value w)
          (λ ret' s e. elim (write_tries-success k param value ret' w' s) [
            | inl bad ↦ cc
            | inr good ↦ good
          ])
          h)

  write_value-success :
      (param value : Text) (w : World (Log b.State))
      → is_success (write_value (logged b) param value w).0 ≡ true
      → LastWrite b param
          (handle_reset_alarms (logged b) param value w).0.0
          (write_value (logged b) param value w).1
  unfolding write_value
  write_value-success param value w =
      let (out, w') = handle_reset_alarms (logged b) param value w in
      elim (Bool-cases (is_no_err out.1)) [
        | inl e ↦ rw e (λ h. elim (write_tries-success 3 param out.0 (pos 0, no_err) w' h) [
          | inl none_left ↦ absurd (omega (arith, none_left.0))
          | inr last ↦ last
        ])
        | inr e ↦ rw e (λ h. absurd (ground arith))
      ]

  after_check_lem :
      (Q : Result Reply × World (Log b.State) → Type 0) (param value : Text)
      (out : Result Code × World (Log b.State))
      → ((w : World (Log b.State)) → out.0 ≡ raised → Q (raised, w))
      → ((err : Code) (w : World (Log b.State)) → is_no_err err ≡ false → Q (ok (negsuc 0, err), w))
      → ((w : World (Log b.State)) → Q (write_value (logged b) param value w))
      → Q (after_check (logged b) param value out)
  after_check_lem Q param value (raised, w) f g h = f w refl
  after_check_lem Q param value (ok err, w) f g h = elim (Bool-cases (is_no_err err)) [
    | inl e ↦ rw (e, after_check) (h w)
    | inr e ↦ rw (e, after_check) (g err w e)
  ]

  -- The checks end in an exception of the two that may raise, in an error, or in the write.
  write_checked_lem :
      (Q : Result Reply × World (Log b.State) → Type 0) (param value : Text)
      (w : World (Log b.State))
      → ((w' : World (Log b.State))
          → (text_eq param (text "30") ≡ true) × (int_of value ≡ none)
            ⊎ (text_eq param (text "363") ≡ true)
          → Q (raised, w'))
      → ((err : Code) (w' : World (Log b.State))
          → is_no_err err ≡ false
          → Q (ok (negsuc 0, err), w'))
      → ((w' : World (Log b.State)) → Q (write_value (logged b) param value w'))
      → Q (write_checked (logged b) param value w)
  unfolding write_checked
  write_checked_lem Q param value w f g h =
      let w₁ = if text_eq param (text "108") then handle_reboot_request (logged b) value w else w in
      elim (Bool-cases (text_eq param (text "30"))) [
        | inl t ↦ rw t (
            after_check_lem Q param value (handle_speed_config (logged b) value w₁)
              (λ w' e. f w' (inl (t, handle_speed_config-raised value w₁ e))) g h)
        | inr t ↦ elim (Bool-cases (text_eq param (text "363"))) [
          | inl u ↦ rw t (
              rw u (
                after_check_lem Q param value (handle_floor_lock (logged b) value w₁)
                  (λ w' e. f w' (inr u)) g h))
          | inr u ↦ rw t (rw u (h w₁))
        ]
      ]

  -- A rule for `write_parameter` from one for the calls that it ends in.
  write_parameter_lem :
      (Q : Result Reply × World (Log b.State) → Type 0) (param value : Text)
      (w : World (Log b.State))
      → ((w' : World (Log b.State))
          → (text_eq param (text "30") ≡ true) × (int_of value ≡ none)
            ⊎ (text_eq param (text "363") ≡ true)
          → Q (raised, w'))
      → ((ret : Reply) (w' : World (Log b.State)) → is_no_err ret.1 ≡ false → Q (ok ret, w'))
      → ((w' : World (Log b.State)) → Q (write_value (logged b) param value w'))
      → Q (write_parameter (logged b) (param ∷ value ∷ []) w)
  unfolding write_parameter write_parameter_body
  write_parameter_lem Q param value w f g h =
      let (go, w') = admit (logged b) w in
      rw checked-eq-admit (elim (Bool-cases go) [
        | inr stop ↦ rw stop (g (negsuc 0, link_err) w' refl)
        | inl run ↦ rw run (elim (Bool-cases (is_zero (validate_inputs (param ∷ value ∷ []) 2).0)) [
          | inl valid ↦
              rw valid (write_checked_lem Q param value w' f (λ err u. g (negsuc 0, err) u) h)
          | inr invalid ↦ rw invalid (g _ w' (validate_inputs-invalid _ invalid))
        ])
      ])

  -- The `ValueError` that leaves `write_parameter` is one of two: `int(value)` fails for the lift
  -- speed (parameter 30), or the parameter is the floor lock (363). No other parameter raises.
  pub write_parameter_raises :
      (param value : Text) (w : World (Log b.State))
      → (write_parameter (logged b) (param ∷ value ∷ []) w).0 ≡ raised
      → (text_eq param (text "30") ≡ true) × (int_of value ≡ none)
        ⊎ (text_eq param (text "363") ≡ true)
  write_parameter_raises param value w =
      write_parameter_lem
        (λ r.
          r.0 ≡ raised
          → (text_eq param (text "30") ≡ true) × (int_of value ≡ none)
            ⊎ (text_eq param (text "363") ≡ true))
        param value w (λ w' why e. why) (λ ret w' e q. cc)
        (λ w' e. absurd (write_value-ne_raised param value w' e))

  -- Success is reported only after a write request: the latest write that the bus has seen then
  -- goes to the parameter and carries the given value or, for the reset of an alarm, its double.
  pub write_parameter_success :
      (param value : Text) (w : World (Log b.State))
      → is_success (write_parameter (logged b) (param ∷ value ∷ []) w).0 ≡ true
      → (e : Write) × (rest : List Write) × IsParamWrite param value e
        × ((write_parameter (logged b) (param ∷ value ∷ []) w).1.bus.writes ≡ e ∷ rest)
  write_parameter_success param value w =
      write_parameter_lem
        (λ r.
          is_success r.0 ≡ true
          → (e : Write) × (rest : List Write) × IsParamWrite param value e
            × (r.1.bus.writes ≡ e ∷ rest))
        param value w (λ w' why e. cc) (λ ret w' e q. cc)
        (λ w' s.
          let (e, rest, p, q) = write_value-success param value w' s in
          (e, rest, param_write b param value w' e p, q))

  -- A hexadecimal speed passes the validation of the arguments and then raises `ValueError`, when
  -- the port is there and the LCM reports an OSM speed of 300.
  pub write_parameter-hex_speed :
      (value : Text) (v : ℤ) (w : World b.State)
      → (admit b w).0 ≡ true
      → (read_parameter b (text "359" ∷ []) (admit b w).1).0 ≡ (pos 300, no_err)
      → parse_int_value (str value) ≡ some v
      → int_of value ≡ none
      → (write_parameter b (text "30" ∷ value ∷ []) w).0 ≡ raised
  unfolding write_parameter write_parameter_body write_checked handle_speed_config check_speed
  write_parameter-hex_speed value v w go speed parsed hex =
      rw checked-eq-admit (rw go (rw (validate_inputs-speed value v parsed) (ground arith)))

  -- A closed handler is closed for good: closing it again, reading and writing change nothing and
  -- reach no bus, and the two methods return `LINK_ERR`.
  pub closed_is_terminal :
      (par args : List Text) (w : World b.State)
      → let c = close b w in
        (close b c ≡ c)
        × (read_parameter b par c ≡ ((negsuc 0, link_err), c))
        × (write_parameter b args c ≡ (ok (negsuc 0, link_err), c))
  unfolding read_parameter write_parameter
  closed_is_terminal par args w =
      let shut = admit-closed b (close b w) (close-closed b w) in
      (close-close b w, rw checked-eq-admit (rw shut), rw checked-eq-admit (rw shut))
