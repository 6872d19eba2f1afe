-- ===== src/Modbus/Write/Checks.antt =====
-- src/liftApi/modbus_handler.py: what the checks of `write_parameter` let through.
use mathlib.Core.Path.{subst}
use gateway_nexy.Base.{
  ℕ, zero, suc, ◌≡◌, inl, inr, refl, true, false, some, List, [], ◌∷◌, arith, Option-cases,
  Bool-cases, ap,
}
use gateway_nexy.Base.Int.{ℤ, pos, negsuc, shl, bit_set, ◌≤ℤ◌}
use gateway_nexy.Base.Text.{Text, text, int_of, str_int}
use gateway_nexy.Codes.{Code, no_err, is_no_err}
use gateway_nexy.Modbus.Bus.{Bus, Log, logged, Write, Added, same, Added-from, Added-map}
use gateway_nexy.Modbus.Registers.{str, parse_int_value}
use gateway_nexy.Modbus.Connection.{World, Result, ok, raised}
use gateway_nexy.Modbus.Read.{read_parameter}
use gateway_nexy.Modbus.Write.{
  is_reset_alarm, check_speed, check_floor_lock, handle_reset_alarms, handle_speed_config,
  handle_floor_lock, after_check, write_checked,
}
use gateway_nexy.Modbus.Write.Effects.{
  IsWriteOf, write_value-Added, handle_reset_alarms-value, handle_speed_config-writes,
  handle_floor_lock-writes,
}

is_no_err-eq : (code : Code) → is_no_err code ≡ true → code ≡ no_err
is_no_err-eq Code.no_err e = refl
is_no_err-eq _ e = cc

check_floor_lock-ok :
    (fire_floor : ℤ) (value : Text)
    → check_floor_lock fire_floor value ≡ ok no_err
    → (k : ℕ) × (v : ℤ) × (fire_floor ≡ pos (suc k))
      × (parse_int_value (str value) ≡ some v)
      × (bit_set v k ≡ false)
unfolding check_floor_lock
check_floor_lock-ok (pos (suc k)) value h = elim (Option-cases (parse_int_value (str value))) [
  | inl e ↦ ground arith
  | inr (v, e) ↦ (k, v, refl, e, ground arith)
]
check_floor_lock-ok (pos zero) value h = cc
check_floor_lock-ok (negsuc n) value h = cc

check_speed-ok :
    (speed : ℤ) (value : Text)
    → check_speed speed value ≡ ok no_err
    → (v : ℤ) × (speed ≡ pos 300) × (int_of value ≡ some v) × (pos 150 ≤ℤ v) × (v ≤ℤ pos 300)
unfolding check_speed
check_speed-ok speed value h = elim (Option-cases (int_of value)) [
  | inl e ↦ ground arith
  | inr (v, e) ↦ (v, ground arith, e, ground arith, ground arith)
]

-- A write of the floor lock after the LCM reported the fire floor `k + 1` in the world `w`: bit `k`
-- of the written value is clear.
pub record IsFloorWrite (b : Bus) (w : World (Log b.State)) (value : Text) (e : Write)
    : Type 0 where
  pub is_write : IsWriteOf (text "363") value e
  pub bit : ℕ
  pub mask : ℤ
  pub reported : (read_parameter (logged b) (text "11" ∷ []) w).0 ≡ (pos (suc bit), no_err)
  pub parsed : parse_int_value (str value) ≡ some mask
  pub unlocked : bit_set mask bit ≡ false

-- A write of the speed after the LCM reported the OSM speed 300 in the world `w`.
pub record IsSpeedWrite (b : Bus) (w : World (Log b.State)) (value : Text) (e : Write)
    : Type 0 where
  pub is_write : IsWriteOf (text "30") value e
  pub speed : ℤ
  pub reported : (read_parameter (logged b) (text "359" ∷ []) w).0 ≡ (pos 300, no_err)
  pub parsed : int_of value ≡ some speed
  pub at_least : pos 150 ≤ℤ speed
  pub at_most : speed ≤ℤ pos 300

-- Any write: the value given or, for the reset of an alarm, twice the value given.
pub data IsParamWrite (param value : Text) (e : Write) : Type 0 where
  as_given : IsWriteOf param value e → IsParamWrite param value e
  doubled :
      (v : ℤ)
      → is_reset_alarm param ≡ true
      → int_of value ≡ some v
      → IsWriteOf param (str_int (shl v 1)) e
      → IsParamWrite param value e

module _ (b : Bus) where
  pub after_check-Added :
      (P : Write → Type 0) (param value : Text) (old : List Write)
      (out : Result Code × World (Log b.State))
      → out.1.bus.writes ≡ old
      → (out.0 ≡ ok no_err
          → (e : Write) → IsWriteOf param (handle_reset_alarms (logged b) param value out.1).0.0 e
          → P e)
      → Added P old 3 (after_check (logged b) param value out).1.bus.writes
  after_check-Added P param value old (raised, w) e f = Added-from e same
  after_check-Added P param value old (ok err, w) e f = elim (Bool-cases (is_no_err err)) [
    | inl yes_err ↦
        rw (yes_err, after_check)
          (Added-from e (
            Added-map (f (ap (λ c. ok c) (is_no_err-eq err yes_err)))
              (write_value-Added b param value w)))
    | inr no_err' ↦ rw (no_err', after_check) (Added-from e same)
  ]

  -- Where the value is not rewritten.
  same_value :
      (param value : Text) (w : World (Log b.State)) (e : Write)
      → is_reset_alarm param ≡ false
      → IsWriteOf param (handle_reset_alarms (logged b) param value w).0.0 e
      → IsWriteOf param value e
  same_value param value w e h p = elim (handle_reset_alarms-value b param value w) [
    | inl q ↦ subst (λ x. IsWriteOf param x e) q p
    | inr (r, v, f, g) ↦ cc
  ]

  handle_floor_lock-ok :
      (value : Text) (w : World (Log b.State))
      → (handle_floor_lock (logged b) value w).0 ≡ ok no_err
      → ((read_parameter (logged b) (text "11" ∷ []) w).0.1 ≡ no_err)
        × (check_floor_lock (read_parameter (logged b) (text "11" ∷ []) w).0.0 value ≡ ok no_err)
  unfolding handle_floor_lock
  handle_floor_lock-ok value w h = ground arith

  handle_speed_config-ok :
      (value : Text) (w : World (Log b.State))
      → (handle_speed_config (logged b) value w).0 ≡ ok no_err
      → ((read_parameter (logged b) (text "359" ∷ []) w).0.1 ≡ no_err)
        × (check_speed (read_parameter (logged b) (text "359" ∷ []) w).0.0 value ≡ ok no_err)
  unfolding handle_speed_config
  handle_speed_config-ok value w h = ground arith

  pub write_checked-floor :
      (value : Text) (w : World (Log b.State))
      → Added
          (IsFloorWrite b w value)
          w.bus.writes
          3
          (write_checked (logged b) (text "363") value w).1.bus.writes
  unfolding write_checked
  write_checked-floor value w =
      let out = handle_floor_lock (logged b) value w in
      after_check-Added (IsFloorWrite b w value) (text "363") value w.bus.writes out
        (handle_floor_lock-writes b value w)
        (λ h e p.
          let (code, checks) = handle_floor_lock-ok value w h in
          let (k, v, floor, parsed, clear) = check_floor_lock-ok _ value checks in
          record {
            is_write = same_value (text "363") value out.1 e refl p;
            bit = k;
            mask = v;
            reported = ground arith;
            parsed = parsed;
            unlocked = clear;
          })

  pub write_checked-speed :
      (value : Text) (w : World (Log b.State))
      → Added
          (IsSpeedWrite b w value)
          w.bus.writes
          3
          (write_checked (logged b) (text "30") value w).1.bus.writes
  unfolding write_checked
  write_checked-speed value w =
      let out = handle_speed_config (logged b) value w in
      after_check-Added (IsSpeedWrite b w value) (text "30") value w.bus.writes out
        (handle_speed_config-writes b value w)
        (λ h e p.
          let (code, checks) = handle_speed_config-ok value w h in
          let (v, speed, parsed, low, high) = check_speed-ok _ value checks in
          record {
            is_write = same_value (text "30") value out.1 e refl p;
            speed = v;
            reported = ground arith;
            parsed = parsed;
            at_least = low;
            at_most = high;
          })
