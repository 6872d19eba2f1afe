-- ===== src/Rs232/Write/Floors.antt =====
-- src/liftApi/rs232_handler.py: the floors that a write locks.
use gateway_nexy.Base.{
  ℕ, zero, suc, ◌+◌, ◌-◌, ◌^◌, ◌<◌, ◌≤◌, Bool, true, false, ◌&&◌, none, some, List, [], ◌∷◌, ◌≡◌,
  refl, ap, arith, elem, le→leb,
}
use gateway_nexy.Base.Int.{pos}
use gateway_nexy.Base.Text.{Text, int_of}
use gateway_nexy.Codes.{Code, no_err, is_no_err, floor_lock_err}
use gateway_nexy.Modbus.Registers.{Val, str}
use gateway_nexy.Thousand.Lookup.{get_param, eq_val}
use gateway_nexy.Rs232.Port.{Port, Rs232, Method, answered, on_answer, Answer, failed}
use gateway_nexy.Rs232.Write.{
  locked_floor_data, is_locked, lock_floors, write_floor_lock, write_to_lift, fire_floor_of,
  fire_floor_param, floor_lock, write_parameter, write_number, store_value,
}

-- The value that locks a list of floors.
abbrev lock_value : List ℕ → ℕ
lock_value [] = 0
lock_value (floor ∷ floors) = 2 ^ (floor - 1) + lock_value floors

-- Of a value below 64, the floors that are locked are those whose bits it has: they give the value.
pub lock_value-locked_floor_data : (v : ℕ) → v < 64 → lock_value (locked_floor_data v) ≡ v
unfolding locked_floor_data
lock_value-locked_floor_data v h = ground arith

-- A floor whose bit a value has.
elem-locked_floor_data :
    (v n : ℕ) → 0 < n → n ≤ 6 → is_locked v n ≡ true → elem n (locked_floor_data v) ≡ true
unfolding locked_floor_data
elem-locked_floor_data v zero h₁ h₂ h = ground arith
elem-locked_floor_data v (suc zero) h₁ h₂ h = ground arith
elem-locked_floor_data v (suc (suc zero)) h₁ h₂ h = ground arith
elem-locked_floor_data v (suc (suc (suc zero))) h₁ h₂ h = ground arith
elem-locked_floor_data v (suc (suc (suc (suc zero)))) h₁ h₂ h = ground arith
elem-locked_floor_data v (suc (suc (suc (suc (suc zero))))) h₁ h₂ h = ground arith
elem-locked_floor_data v (suc (suc (suc (suc (suc (suc zero)))))) h₁ h₂ h = ground arith
elem-locked_floor_data v (suc (suc (suc (suc (suc (suc (suc n))))))) h₁ h₂ h = ground arith

and_false : (b : Bool) → (b && false) ≡ false
and_false true = refl
and_false false = refl

-- An error code ends a method.
on_answer_failed :
    {S A B : Type 0} (m : Method S (Answer A)) (f : A → Method S (Answer B)) (r r' : Rs232 S)
    (code : Code)
    → m r ≡ (some (failed code), r')
    → on_answer m f r ≡ (some (failed code), r')
on_answer_failed m f r r' code e =
    ap (λ (result, r''). elim result [ none ↦ (none, r'') | some a ↦ answered f a r'' ]) e

module _ (p : Port) where
  open p use {State}

  -- Where the fire floor is known.
  lock_floors-fire_floor :
      (r : Rs232 State) (v n : ℕ) (fire : Text)
      → get_param r.lib.database fire_floor_param ≡ (str fire, no_err)
      → int_of fire ≡ some (pos n)
      → 0 < n
      → n ≤ 6
      → is_locked v n ≡ true
      → lock_floors p v r ≡ (some (failed floor_lock_err), r)
  unfolding lock_floors fire_floor_of
  lock_floors-fire_floor r v n fire hg hf h₁ h₂ hl =
      rw (hg, hf, lock_floors, fire_floor_of, elem-locked_floor_data v n h₁ h₂ hl) refl

  write_to_lift-fire_floor :
      (r : Rs232 State) (value_str : Text) (v n : ℕ) (fire : Text) (current_val : Val)
      → get_param r.lib.database fire_floor_param ≡ (str fire, no_err)
      → int_of fire ≡ some (pos n)
      → 0 < n
      → n ≤ 6
      → v < 64
      → is_locked v n ≡ true
      → write_to_lift p floor_lock value_str (pos v) current_val r
        ≡ (some (failed floor_lock_err), r)
  unfolding write_to_lift write_floor_lock
  write_to_lift-fire_floor r value_str v n fire current_val hg hf h₁ h₂ hv hl =
      rw
        (
          write_to_lift,
          write_floor_lock,
          le→leb v 63 (omega arith),
          lock_floors-fire_floor r v n fire hg hf h₁ h₂ hl,
        )
        refl

  -- A value that would lock the fire floor is refused: nothing is sent to the lift and nothing
  -- changes. The fire floor is one of the six that the library knows, and the value is below 64 and
  -- not the one that the parameter has.
  pub write_parameter-fire_floor :
      (r : Rs232 State) (param_str value_str : Text) (v n : ℕ) (fire : Text)
      → int_of param_str ≡ some floor_lock
      → int_of value_str ≡ some (pos v)
      → eq_val (get_param r.lib.database floor_lock).0 (str value_str) ≡ false
      → get_param r.lib.database fire_floor_param ≡ (str fire, no_err)
      → int_of fire ≡ some (pos n)
      → 0 < n
      → n ≤ 6
      → v < 64
      → is_locked v n ≡ true
      → write_parameter p (param_str ∷ value_str ∷ []) r ≡ (some (failed floor_lock_err), r)
  unfolding write_parameter write_number
  write_parameter-fire_floor r param_str value_str v n fire hp hv he hg hf h₁ h₂ hv64 hl =
      rw
        (
          hp,
          hv,
          write_parameter,
          write_number,
          store_value,
          he,
          and_false (is_no_err (get_param r.lib.database floor_lock).1),
        )
        (on_answer_failed
          (write_to_lift p floor_lock value_str (pos v) (get_param r.lib.database floor_lock).0)
          (λ _. store_value p floor_lock value_str) r r floor_lock_err
          (write_to_lift-fire_floor r value_str v n fire (get_param r.lib.database floor_lock).0 hg
            hf h₁ h₂ hv64 hl))
