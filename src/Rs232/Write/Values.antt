-- ===== src/Rs232/Write/Values.antt =====
-- src/liftApi/rs232_handler.py: the value that a written parameter has.
use Prim.{Unit, tt}
use gateway_nexy.Base.{
  arith, ℕ, Bool, true, false, ◌&&◌, Option, some, [], ◌∷◌, ◌≡◌, refl, ap, Option-cases, Bool-cases,
  inl, inr, if◌then◌else◌,
}
use gateway_nexy.Base.Int.{ℤ}
use gateway_nexy.Base.IntDict.{lookup, update, lookup-update_self}
use gateway_nexy.Base.Text.{Text, int_of, text_eq-eq}
use gateway_nexy.Codes.{Code, no_err, is_no_err}
use gateway_nexy.Modbus.Registers.{Val, str, int}
use gateway_nexy.Thousand.Signals.{Signal}
use gateway_nexy.Thousand.Protocol.{Database}
use gateway_nexy.Thousand.Lookup.{get_param, eq_val}
use gateway_nexy.Thousand.Doors.{put_value}
use gateway_nexy.Rs232.Port.{Port, Rs232, Method, Answer, answer, failed, ◌>>=◌, on_answer}
use gateway_nexy.Rs232.Vfd.{on_database}
use gateway_nexy.Rs232.Write.{write_to_lift, store_value, write_number, write_parameter}

eq_val-eq : (v : Val) (s : Text) → eq_val v (str s) ≡ true → v ≡ str s
eq_val-eq (str t) s h = ap str (text_eq-eq t s h)
eq_val-eq (int z) s h = ground arith

false_ne_true : false ≡ true → ⊥
false_ne_true h = ground arith

-- A parameter that has a value already.
get_param_has :
    (db : Database) (q : ℤ) (value_str : Text)
    → (is_no_err (get_param db q).1 && eq_val (get_param db q).0 (str value_str)) ≡ true
    → get_param db q ≡ (str value_str, no_err)
unfolding get_param
get_param_has db q value_str h = elim (Option-cases (lookup q db)) [
  | inl e ↦ absurd (false_ne_true (rw (e, get_param) at h))
  | inr (signal, e) ↦ elim (Bool-cases (eq_val signal.value (str []))) [
    | inl e' ↦ absurd (false_ne_true (rw (e, e', get_param) at h))
    | inr e' ↦
        rw (e, e', get_param)
          (ap (λ v. (v, no_err)) (eq_val-eq signal.value value_str (rw (e, e', get_param) at h)))
  ]
]

-- A parameter that was given a value.
get_param-update :
    (db : Database) (q : ℤ) (signal : Signal) (c : ℕ) (s : Text)
    → lookup q db ≡ some signal
    → get_param (update q (record signal { value = str (c ∷ s) }) db) q ≡ (str (c ∷ s), no_err)
unfolding get_param
get_param-update db q signal c s h =
    rw (lookup-update_self q (record signal { value = str (c ∷ s) }) db h, get_param) refl

-- A write that succeeds leaves the value.
abbrev IsStored : {S : Type 0} → ℤ → Text → Option (Answer (Unit {0})) × Rs232 S → Type 0
IsStored q value_str x =
    x.0 ≡ some (answer tt) → get_param x.1.lib.database q ≡ (str value_str, no_err)

none_ne_some : {A : Type 0} {a : A} → Option.none ≡ some a → ⊥
none_ne_some h = ground arith

failed_ne_answer :
    (code : Code) → Path (Option (Answer (Unit {0}))) (some (failed code)) (some (answer tt)) → ⊥
failed_ne_answer code h = ground arith

IsStored-if :
    {S : Type 0} (q : ℤ) (value_str : Text) (b : Bool) (x y : Option (Answer (Unit {0})) × Rs232 S)
    → (b ≡ true → IsStored q value_str x)
    → IsStored q value_str y
    → IsStored q value_str (if b then x else y)
IsStored-if q value_str true x y hx hy = hx refl
IsStored-if q value_str false x y hx hy = hy

module _ (p : Port) where
  open p use {State}

  store_value-IsStored :
      (q : ℤ) (c : ℕ) (s : Text) (r : Rs232 State) → IsStored q (c ∷ s) (store_value p q (c ∷ s) r)
  store_value-IsStored q c s r = elim (Option-cases (lookup q r.lib.database)) [
    | inl e ↦ rw (e, store_value, put_value, on_database) (λ h. absurd (none_ne_some h))
    | inr (signal, e) ↦
        rw (e, store_value, put_value, on_database)
          (λ h. get_param-update r.lib.database q signal c s e)
  ]

  IsStored-after :
      (q : ℤ) (c : ℕ) (s : Text) (m : Method State (Answer (Unit {0}))) (r : Rs232 State)
      → IsStored q (c ∷ s) (on_answer m (λ _. store_value p q (c ∷ s)) r)
  IsStored-after q c s m r = elim (Option-cases (m r).0) [
    | inl e ↦ rw (e, ◌>>=◌) (λ h. absurd (none_ne_some h))
    | inr (failed code, e) ↦ rw (e, ◌>>=◌) (λ h. absurd (failed_ne_answer code h))
    | inr (answer a, e) ↦ rw (e, ◌>>=◌) (store_value-IsStored q c s (m r).1)
  ]

  write_number-IsStored :
      (q : ℤ) (c : ℕ) (s : Text) (v : ℤ) (r : Rs232 State)
      → IsStored q (c ∷ s) (write_number p q (c ∷ s) v r)
  unfolding write_number
  write_number-IsStored q c s v r =
      IsStored-if q (c ∷ s)
        (is_no_err (get_param r.lib.database q).1
          && eq_val (get_param r.lib.database q).0 (str (c ∷ s)))
        (some (answer tt), r)
        (on_answer (write_to_lift p q (c ∷ s) v (get_param r.lib.database q).0)
          (λ _. store_value p q (c ∷ s)) r)
        (λ e h. get_param_has r.lib.database q (c ∷ s) e)
        (IsStored-after q c s (write_to_lift p q (c ∷ s) v (get_param r.lib.database q).0) r)

  empty_value : (v : ℤ) → int_of [] ≡ some v → ⊥
  unfolding int_of
  empty_value v h = ground arith

  -- Where `write_parameter` succeeds, `get_param` gives the text that was written, also where the
  -- parameter had it already. The parameter's number and the value are read by `int`.
  pub get_param-write_parameter :
      (r : Rs232 State) (param_str value_str : Text) (q v : ℤ)
      → int_of param_str ≡ some q
      → int_of value_str ≡ some v
      → (write_parameter p (param_str ∷ value_str ∷ []) r).0 ≡ some (answer tt)
      → get_param (write_parameter p (param_str ∷ value_str ∷ []) r).1.lib.database q
        ≡ (str value_str, no_err)
  unfolding write_parameter
  get_param-write_parameter r param_str [] q v hq hv h = absurd (empty_value v hv)
  get_param-write_parameter r param_str (c ∷ s) q v hq hv h =
      rw (hq, hv, write_parameter)
        (write_number-IsStored q c s v r (rw (hq, hv, write_parameter) at h))
