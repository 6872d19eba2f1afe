-- ===== src/Modbus/Write/Safety.antt =====
-- src/liftApi/modbus_handler.py: what `write_parameter` lets through to the LCM.
use mathlib.Core.Path.{subst}
use gateway_nexy.Base.{
  ◌≡◌, inl, inr, refl, Bool, true, false, [], ◌∷◌, arith, Bool-cases, if◌then◌else◌, ◌∙◌,
}
use gateway_nexy.Base.Text.{Text, text, text_eq}
use gateway_nexy.Modbus.Bus.{Bus, Log, logged, Write, Added, same, Added-from, Added-map}
use gateway_nexy.Modbus.Connection.{World}
use gateway_nexy.Modbus.Connection.Lifecycle.{admit, checked-eq-admit, admit-writes}
use gateway_nexy.Modbus.Read.{validate_inputs, is_zero}
use gateway_nexy.Modbus.Write.{
  handle_reset_alarms, handle_reboot_request, handle_speed_config, handle_floor_lock, write_checked,
  write_parameter_body, write_parameter,
}
use gateway_nexy.Modbus.Write.Effects.{
  IsWriteOf, write_value-Added, handle_reset_alarms-value, handle_speed_config-writes,
  handle_floor_lock-writes,
}
use gateway_nexy.Modbus.Write.Checks.{
  IsFloorWrite, IsSpeedWrite, IsParamWrite, doubled, write_checked-speed, write_checked-floor,
  after_check-Added, as_given,
}

module _ (b : Bus) where
  pub param_write :
      (param value : Text) (w : World (Log b.State)) (e : Write)
      → IsWriteOf param (handle_reset_alarms (logged b) param value w).0.0 e
      → IsParamWrite param value e
  param_write param value w e p = elim (handle_reset_alarms-value b param value w) [
    | inl q ↦ as_given (subst (λ x. IsWriteOf param x e) q p)
    | inr (r, v, f, q) ↦ doubled v r f (subst (λ x. IsWriteOf param x e) q p)
  ]

  handle_reboot_request-writes :
      (value : Text) (w : World (Log b.State))
      → (handle_reboot_request (logged b) value w).bus.writes ≡ w.bus.writes
  unfolding handle_reboot_request
  handle_reboot_request-writes value w = ground arith

  after_reboot-writes :
      (t : Bool) (value : Text) (w : World (Log b.State))
      → (if t then handle_reboot_request (logged b) value w else w).bus.writes ≡ w.bus.writes
  after_reboot-writes true value w = handle_reboot_request-writes value w
  after_reboot-writes false value w = refl

  write_checked-any :
      (param value : Text) (w : World (Log b.State))
      → Added
          (IsParamWrite param value)
          w.bus.writes
          3
          (write_checked (logged b) param value w).1.bus.writes
  unfolding write_checked
  write_checked-any param value w =
      let w₁ = if text_eq param (text "108") then handle_reboot_request (logged b) value w else w in
      let same_writes = after_reboot-writes (text_eq param (text "108")) value w in
      elim (Bool-cases (text_eq param (text "30"))) [
        | inl t ↦ rw t (
            after_check-Added b (IsParamWrite param value) param value w.bus.writes
              (handle_speed_config (logged b) value w₁)
              (handle_speed_config-writes b value w₁ ∙ same_writes)
              (λ h. param_write param value _))
        | inr t ↦ elim (Bool-cases (text_eq param (text "363"))) [
          | inl u ↦ rw t (
              rw u (
                after_check-Added b (IsParamWrite param value) param value w.bus.writes
                  (handle_floor_lock (logged b) value w₁)
                  (handle_floor_lock-writes b value w₁ ∙ same_writes)
                  (λ h. param_write param value _)))
          | inr u ↦ rw t (
              rw u (
                Added-from same_writes
                  (Added-map (param_write param value w₁) (write_value-Added b param value w₁))))
        ]
      ]

  write_parameter-Added :
      (P : Write → Type 0) (param value : Text) (w : World (Log b.State))
      → Added P
          (admit (logged b) w).1.bus.writes
          3
          (write_checked (logged b) param value (admit (logged b) w).1).1.bus.writes
      → Added P w.bus.writes 3 (write_parameter (logged b) (param ∷ value ∷ []) w).1.bus.writes
  unfolding write_parameter write_parameter_body
  write_parameter-Added P param value w h =
      let same_writes = admit-writes b w in
      rw checked-eq-admit (elim (Bool-cases (admit (logged b) w).0) [
        | inr stop ↦ rw stop (Added-from same_writes same)
        | inl go ↦ rw go (elim (Bool-cases (is_zero (validate_inputs (param ∷ value ∷ []) 2).0)) [
          | inl valid ↦ rw valid (Added-from same_writes h)
          | inr invalid ↦ rw invalid (Added-from same_writes same)
        ])
      ])

  -- `write_parameter` requests at most three writes. Each goes to the bus address of the parameter
  -- and carries the registers of the given value or, if the parameter resets an alarm, of twice
  -- the given value.
  pub write_parameter_writes :
      (param value : Text) (w : World (Log b.State))
      → Added
          (IsParamWrite param value)
          w.bus.writes
          3
          (write_parameter (logged b) (param ∷ value ∷ []) w).1.bus.writes
  write_parameter_writes param value w =
      write_parameter-Added (IsParamWrite param value) param value w
        (write_checked-any param value _)

  -- In a call of `write_parameter` with the text "363" as the parameter, for any value: no write
  -- reaches the bus unless the LCM has just reported its fire floor, and the bit of that floor is
  -- clear in the written value.
  pub fire_floor_stays_open :
      (value : Text) (w : World (Log b.State))
      → Added
          (IsFloorWrite b (admit (logged b) w).1 value)
          w.bus.writes
          3
          (write_parameter (logged b) (text "363" ∷ value ∷ []) w).1.bus.writes
  fire_floor_stays_open value w =
      write_parameter-Added (IsFloorWrite b (admit (logged b) w).1 value) (text "363") value w
        (write_checked-floor b value _)

  -- In a call of `write_parameter` with the text "30" as the parameter, for any value: no write
  -- reaches the bus unless the LCM has just reported an OSM speed of 300, and the written speed is
  -- between 150 and 300.
  pub speed_stays_in_range :
      (value : Text) (w : World (Log b.State))
      → Added
          (IsSpeedWrite b (admit (logged b) w).1 value)
          w.bus.writes
          3
          (write_parameter (logged b) (text "30" ∷ value ∷ []) w).1.bus.writes
  speed_stays_in_range value w =
      write_parameter-Added (IsSpeedWrite b (admit (logged b) w).1 value) (text "30") value w
        (write_checked-speed b value _)
