-- ===== src/Ahl/Database.antt =====
-- src/lib/ahl_lib.py: the database of `AhlLib` and the access to it. Of an `AhlParam` the number,
-- the value and the access are kept; the names and units are only for display.
use gateway_nexy.Base.{
  ℕ, Bool, false, Option, none, some, List, [], ◌∷◌, ◌++◌, map, elem, range_from, if◌then◌else◌,
}
use gateway_nexy.Base.Int.{ℤ, negsuc, eq_ℤ}
use gateway_nexy.Base.Dict.{Dict, lookup, update, keys}
use gateway_nexy.Codes.{Code, no_err, param_not_in_db, param_not_set}

pub data Access : Type 0 where
  read_only read_write : Access

-- `value` is `none` until the parameter has been read from the lift.
pub record AhlParam : Type 0 where
  pub value : Option ℤ
  pub access : Access

abbrev pub Database : Type 0
Database = Dict AhlParam

-- The numbers of the parameters: 0 to 381 without 36, 337 and 355.
unfoldable pub param_ids : List ℕ
param_ids = range_from 0 36 ++ range_from 37 300 ++ range_from 338 17 ++ range_from 356 26

abbrev pub writable_ids : List ℕ
writable_ids =
    range_from 5 5
    ++ range_from 12 6
    ++ 32 ∷ 33 ∷ 35 ∷ range_from 37 5
    ++ 44 ∷ 45 ∷ 98 ∷ 107 ∷ 108 ∷ 109 ∷ range_from 123 4
    ++ 353 ∷ 354 ∷ 361 ∷ 363 ∷ 364 ∷ range_from 376 6

new_param : ℕ → ℕ × AhlParam
new_param p =
    (p, record { value = none; access = if elem p writable_ids then read_write else read_only })

-- `__init_database`.
unfoldable pub init_database : Database
unfolding new_param param_ids
init_database = map new_param param_ids

abbrev value_reply : Option ℤ → ℤ × Code
value_reply none = (negsuc 0, param_not_set)
value_reply (some v) = (v, no_err)

-- `get_param`.
unfoldable pub get_param : Database → ℕ → ℤ × Code
get_param db param = elim (lookup param db) [
  | none ↦ (negsuc 0, param_not_in_db)
  | some p ↦ value_reply p.value
]

abbrev pub eq_value : Option ℤ → ℤ → Bool
eq_value none v = false
eq_value (some u) v = eq_ℤ u v

-- `set_param`.
unfoldable pub set_param : Database → ℕ → ℤ → (List ℕ × Code) × Database
set_param db param value = elim (lookup param db) [
  | none ↦ (([], param_not_in_db), db)
  | some p ↦
      if eq_value p.value value
      then (([], no_err), db)
      else ((param ∷ [], no_err), update param (record p { value = some value }) db)
]

-- `available_params`, `get_writable_params` and `get_readable_params`.
abbrev pub available_params : Database → List ℕ
available_params = keys

unfoldable pub get_writable_params : Database → List ℕ
get_writable_params [] = []
get_writable_params ((p, v) ∷ db) =
    let rest = get_writable_params db in elim v.access [ read_write ↦ p ∷ rest | read_only ↦ rest ]

unfoldable pub get_readable_params : Database → List ℕ
get_readable_params [] = []
get_readable_params ((p, v) ∷ db) = p ∷ get_readable_params db
