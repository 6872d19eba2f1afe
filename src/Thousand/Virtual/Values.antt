-- ===== src/Thousand/Virtual/Values.antt =====
-- src/lib/thousand_lib.py: what the virtual signals are computed to.
use gateway_nexy.Base.{◌≡◌, refl, ℕ, ◌+◌, ◌*◌, Bool, true, false, some, List, [], ◌∷◌, ◌++◌, arith}
use gateway_nexy.Base.Int.{ℤ, pos}
use gateway_nexy.Base.IntDict.{lookup}
use gateway_nexy.Base.Text.{Text, text, str_nat, int_of, int_of_bin}
use gateway_nexy.Codes.{no_err, partial_err}
use gateway_nexy.Modbus.Registers.{str}
use gateway_nexy.Thousand.Signals.{
  Signal, Response, unpack_signal, validate_bytes, is_generic, failed_reply,
}
use gateway_nexy.Thousand.Protocol.{Database}
use gateway_nexy.Thousand.Lookup.{ThousandLib, latest_response}
use gateway_nexy.Thousand.Virtual.{
  virtual_value, update_temp, update_battery_state, update_floor_lock, floor_locks, show_values,
}

-- The digit of a floor lock.
abbrev pub lock_digit : Bool → Text
lock_digit true = text "1"
lock_digit false = text "0"

-- The lock of a floor in the database.
abbrev pub HasLock : Database → ℤ → Bool → Type 0
HasLock db p locked = (s : Signal) × (lookup p db ≡ some s) × (s.value ≡ str (lock_digit locked))

abbrev bit : Bool → ℕ
bit true = 1
bit false = 0

-- The number whose bit of place n is the lock of floor n + 1, written out from floor 6 down.
abbrev pub lock_bits : Bool → Bool → Bool → Bool → Bool → Bool → ℕ
lock_bits b1 b2 b3 b4 b5 b6 =
    bit b1 + 2 * bit b2 + 4 * bit b3 + 8 * bit b4 + 16 * bit b5 + 32 * bit b6

show_lock :
    (db : Database) (p : ℤ) (ps : List ℤ) (locked : Bool) (t : Text)
    → HasLock db p locked
    → show_values db ps ≡ some t
    → show_values db (p ∷ ps) ≡ some (lock_digit locked ++ t)
show_lock db p ps locked t (s, found, value) h = rw (found, show_values, h, value) refl

int_of_locks :
    (b1 b2 b3 b4 b5 b6 : Bool)
    → int_of_bin (
        lock_digit b6
        ++ (lock_digit b5
            ++ (lock_digit b4 ++ (lock_digit b3 ++ (lock_digit b2 ++ (lock_digit b1 ++ []))))))
      ≡ some (pos (lock_bits b1 b2 b3 b4 b5 b6))
unfolding int_of_bin
int_of_locks b1 b2 b3 b4 b5 b6 = ground arith

-- When the parameters 146 to 151 hold "0" or "1", the virtual floor lock has no error, and is the
-- decimal text of the number whose bit of weight 2 ^ (n - 1) is the lock of floor n.
pub update_floor_lock-bits :
    (db : Database) (b1 b2 b3 b4 b5 b6 : Bool)
    → HasLock db (pos 146) b1
    → HasLock db (pos 147) b2
    → HasLock db (pos 148) b3
    → HasLock db (pos 149) b4
    → HasLock db (pos 150) b5
    → HasLock db (pos 151) b6
    → update_floor_lock db ≡ some (str_nat (lock_bits b1 b2 b3 b4 b5 b6), no_err)
unfolding update_floor_lock
update_floor_lock-bits db b1 b2 b3 b4 b5 b6 h1 h2 h3 h4 h5 h6 =
    rw (update_floor_lock, shown, int_of_locks b1 b2 b3 b4 b5 b6) refl
  where
    shown :
        show_values db floor_locks
        ≡ some (
            lock_digit b6
            ++ (lock_digit b5
                ++ (lock_digit b4 ++ (lock_digit b3 ++ (lock_digit b2 ++ (lock_digit b1 ++ []))))))
    shown = show_lock db (pos 151) (pos 150 ∷ pos 149 ∷ pos 148 ∷ pos 147 ∷ pos 146 ∷ []) b6 _ h6 (
        show_lock db (pos 150) (pos 149 ∷ pos 148 ∷ pos 147 ∷ pos 146 ∷ []) b5 _ h5 (
          show_lock db (pos 149) (pos 148 ∷ pos 147 ∷ pos 146 ∷ []) b4 _ h4 (
            show_lock db (pos 148) (pos 147 ∷ pos 146 ∷ []) b3 _ h3 (
              show_lock db (pos 147) (pos 146 ∷ []) b2 _ h2
                (show_lock db (pos 146) [] b1 [] h1 refl)))))

module _ (now : ℕ) (lib : ThousandLib) (signal_nr : ℤ) (signal : Signal) (response : Response)
    (found : lookup signal_nr lib.database ≡ some signal)
    (kind : is_generic signal.signal_type ≡ false)
    (bad : validate_bytes signal response ≡ false) where
  update_temp-failed :
      latest_response (text "134") lib.latest_responses ≡ some response
      → update_temp now lib signal_nr ≡ some (text "0", no_err)
  unfolding update_temp unpack_signal int_of str_nat
  update_temp-failed latest = rw (found, update_temp, latest, kind, unpack_signal, bad) refl

  update_battery_state-failed :
      latest_response (text "130") lib.latest_responses ≡ some response
      → update_battery_state now lib signal_nr ≡ some failed_reply
  unfolding update_battery_state unpack_signal
  update_battery_state-failed latest =
      rw (latest, update_battery_state, found, kind, unpack_signal, bad) refl

-- When the battery state and the temperature are not generic texts, and the last responses of the
-- packages 130 and 134 do not hold their bytes, then of the two virtual signals the battery state, 9,
-- fails with "-1" and `PARTIAL_ERR`, but the temperature, 92, is "0" with no error.
pub virtual_value-validate_bytes :
    (now : ℕ) (lib : ThousandLib) (battery temp : Signal) (response_130 response_134 : Response)
    → lookup (pos 9) lib.database ≡ some battery
    → lookup (pos 92) lib.database ≡ some temp
    → latest_response (text "130") lib.latest_responses ≡ some response_130
    → latest_response (text "134") lib.latest_responses ≡ some response_134
    → is_generic battery.signal_type ≡ false
    → is_generic temp.signal_type ≡ false
    → validate_bytes battery response_130 ≡ false
    → validate_bytes temp response_134 ≡ false
    → (virtual_value now lib (pos 9) ≡ some (text "-1", partial_err))
      × (virtual_value now lib (pos 92) ≡ some (text "0", no_err))
unfolding virtual_value
virtual_value-validate_bytes now lib battery temp response_130 response_134 found_9 found_92
      latest_130 latest_134 kind_9 kind_92 bad_9 bad_92 =
    (
      update_battery_state-failed now lib (pos 9) battery response_130 found_9 kind_9 bad_9
          latest_130,
      update_temp-failed now lib (pos 92) temp response_134 found_92 kind_92 bad_92 latest_134,
    )
