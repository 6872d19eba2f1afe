-- ===== src/Ahl/Poll.antt =====
-- src/lib/ahl_lib.py: `AhlLib.poll_params`. The handler is what the method uses of it, the reading
-- of a parameter.
pub mod Rounds
pub mod Changes
pub mod Sweep
use gateway_nexy.Base.{ℕ, Bool, not, List, [], ◌∷◌, ◌++◌, none, some, if◌then◌else◌}
use gateway_nexy.Base.Int.{ℤ, pos, eq_ℤ}
use gateway_nexy.Base.Text.{Text, text, str_nat}
use gateway_nexy.Base.Dict.{lookup}
use gateway_nexy.Codes.{Code, is_no_err}
use gateway_nexy.Ahl.Tables.{decode_change_flags}
use gateway_nexy.Ahl.Database.{Database, set_param}

-- `handler.read_parameter`, with the state that it changes.
pub record Reader : Type 1 where
  pub State : Type 0
  pub read_parameter : List Text → State → (ℤ × Code) × State

-- `AhlLib` as `set_polling_table` and `set_param` change it.
pub record AhlLib : Type 0 where
  pub polling_table : ℕ → List ℕ
  pub database : Database

module _ (r : Reader) where
  open r use {State, read_parameter}

  -- One round of the loop: the parameters reported as changed, the database, the handler.
  unfoldable pub poll_one : ℕ → Database → State → List ℕ × Database × State
  poll_one param db s = elim (lookup param db) [
    | none ↦ ([], db, s)
    | some p ↦
        let ((value, read_code), s') = read_parameter (str_nat param ∷ []) s in
        let ((updated, _), db') = set_param db param value in
        if not (is_no_err read_code) then ([], db, s') else (updated, db', s')
  ]

  unfoldable pub poll_all : List ℕ → Database → State → List ℕ × Database × State
  poll_all [] db s = ([], db, s)
  poll_all (param ∷ params) db s =
      let (updated, db', s') = poll_one param db s in
      let (changed, db'', s'') = poll_all params db' s' in (updated ++ changed, db'', s'')

  -- The parameters to read and the handler after the change flags have been read; `[]` where the
  -- method returns at once.
  unfoldable pub candidates : AhlLib → Bool → State → List ℕ × State
  candidates lib force_read_all s =
      let ((value, code), s') = read_parameter (text "2" ∷ []) s in
      if force_read_all
      then (decode_change_flags lib.polling_table (pos 0x7FFFFFFF), s')
      else if not (is_no_err code)
      then ([], s')
      else if eq_ℤ value (pos 0)
      then ([], s')
      else (decode_change_flags lib.polling_table value, s')

  -- `poll_params`
  unfoldable pub poll_params : AhlLib → Bool → State → List ℕ × AhlLib × State
  poll_params lib force_read_all s =
      let (params, s') = candidates lib force_read_all s in
      let (changed, db, s'') = poll_all params lib.database s' in
      (changed, record lib { database = db }, s'')
