-- ===== src/Proxy/Access/Cache.antt =====
-- src/liftApi/lift_proxy.py: the cache of an AHL lift after `write_read_param`.
use mathlib.Core.Path.{subst}
use gateway_nexy.Base.{
  ℕ, ◌≡◌, inl, inr, refl, Bool, Option, none, some, List, [], ◌∷◌, elem, if◌then◌else◌, Bool-cases,
  Option-cases,
}
use gateway_nexy.Base.Int.{ℤ, pos, negsuc, eq_ℤ}
use gateway_nexy.Base.Dict.{keys}
use gateway_nexy.Base.Text.{Text, int_of}
use gateway_nexy.Codes.{Code, no_err, param_not_in_db, is_no_err}
use gateway_nexy.Modbus.Registers.{Val, int}
use gateway_nexy.Ahl.Poll.{AhlLib}
use gateway_nexy.Proxy.Devices.{ahl, modbus_handler, Devices}
use gateway_nexy.Proxy.Access.{lp_code, get_param_value, put_ahl, keep_read_back, write_read_param}
use gateway_nexy.Proxy.Access.OnAhl.{with_ahl_lib, get_param-set_param}
use gateway_nexy.Proxy.Machine.{represent}

module _ (d : Devices) (read : List Text → d.State → (ℤ × Code) × d.State) (due : Bool)
    (param value : Text) (n : ℕ) (lib : AhlLib) where
  -- What the cache gives after a verified read-back.
  abbrev pub cached_reply : Val → Option Val × Code
  cached_reply v =
      if elem n (keys lib.database)
      then (some v, no_err)
      else (some (int (negsuc 0)), param_not_in_db)

  CacheRule : Option (ℤ × Option Val × Code) × (with_ahl_lib d read).State → Type 0
  CacheRule (none, s) = Unit
  CacheRule (some (status, none, code), s) = Unit
  CacheRule (some (status, some v, code), s) =
      get_param_value (with_ahl_lib d read) (represent (ahl, due)) (pos n) s ≡ cached_reply v

  keep_read_back-CacheRule :
      (v : ℤ) (code : Code) (s : d.State)
      → int_of param ≡ some (pos n)
      → CacheRule (
          keep_read_back
            (with_ahl_lib d read)
            (represent (ahl, due))
            param
            (some (int v, code))
            (s, lib))
  unfolding keep_read_back CacheRule put_ahl get_param_value lp_code
  keep_read_back-CacheRule v code s is_n = elim (Bool-cases (is_no_err code)) [
    | inl e ↦
        rw (e, keep_read_back, is_n, get_param-set_param lib.database n v)
          (elim (Bool-cases (elem n (keys lib.database))) [
            | inl known ↦ rw known refl
            | inr unknown ↦ rw unknown refl
          ])
    | inr e ↦ rw (e, keep_read_back) tt
  ]

  write_read_param-CacheRule :
      (s : d.State)
      → int_of param ≡ some (pos n)
      → CacheRule
          (write_read_param (with_ahl_lib d read) (represent (ahl, due)) param value (s, lib))
  unfolding write_read_param CacheRule
  write_read_param-CacheRule s is_n =
      elim (Option-cases (d.write_parameter modbus_handler (param ∷ value ∷ []) s).0) [
        | inl e ↦ rw (e, write_read_param) tt
        | inr ((status, code), e) ↦ elim (Bool-cases (eq_ℤ status (pos 0))) [
          | inl e₁ ↦ rw (e, write_read_param, e₁) (keep_read_back-CacheRule _ _ _ is_n)
          | inr e₁ ↦ rw (e, write_read_param, e₁) tt
        ]
      ]

-- On an AHL lift, with the `AhlLib` of src/lib/ahl_lib.py: when `write_read_param` answers with a
-- value that was read back, `get_param_value` gives this value without an error where the number of
-- the parameter is in the database; and where it is not, `get_param_value` gives -1 with
-- `PARAM_NOT_IN_DB`, although the write was answered without an error. The parameter is the text of a
-- number that is not negative.
pub write_read_param-get_param_value :
    (d : Devices) (read : List Text → d.State → (ℤ × Code) × d.State) (due : Bool)
    (param value : Text) (n : ℕ) (status : ℤ) (v : Val) (code : Code) (s s' : d.State × AhlLib)
    → int_of param ≡ some (pos n)
    → write_read_param (with_ahl_lib d read) (represent (ahl, due)) param value s
      ≡ (some (status, some v, code), s')
    → get_param_value (with_ahl_lib d read) (represent (ahl, due)) (pos n) s' ≡ (
        if elem n (keys s.1.database)
        then (some v, no_err)
        else (some (int (negsuc 0)), param_not_in_db))
unfolding CacheRule
write_read_param-get_param_value d read due param value n status v code (s, lib) s' is_n e =
    subst (CacheRule d read due param value n lib) e
      (write_read_param-CacheRule d read due param value n lib s is_n)
