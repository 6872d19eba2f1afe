-- ===== src/Proxy/Access/OnAhl.antt =====
-- src/liftApi/lift_proxy.py on the library of src/lib/ahl_lib.py: the objects of the proxy, with
-- `AhlLib` in place.
use gateway_nexy.Base.{
  ℕ, ◌≡◌, inl, inr, refl, true, Option, none, some, List, map, elem, if◌then◌else◌, Bool-cases,
  Option-cases,
}
use gateway_nexy.Base.Int.{ℤ, pos, negsuc}
use gateway_nexy.Base.Dict.{lookup, keys, elem-lookup, lookup-update_self}
use gateway_nexy.Base.Text.{Text}
use gateway_nexy.Codes.{Code, no_err, param_not_in_db}
use gateway_nexy.Modbus.Registers.{Val, int, str}
use gateway_nexy.Ahl.Tables.{old_polling_table, new_polling_table}
use gateway_nexy.Ahl.Database.{Database, init_database, eq_value, get_param, set_param}
use gateway_nexy.Ahl.Poll.{Reader, AhlLib, poll_params}
use gateway_nexy.Ahl.Poll.Rounds.{eq_ℤ-eq}
use gateway_nexy.Proxy.Devices.{modbus_handler, rs232_handler, ahl_lib, thousand_lib, Devices}

-- `get_param` and `set_param` of any integer: the keys of the database are not negative, and the
-- values that the Modbus handler reads are integers.
abbrev int_reply : ℤ × Code → Val × Code
int_reply (value, code) = (int value, code)

abbrev pub ahl_get_param : ℤ → Database → Val × Code
ahl_get_param (pos n) db = int_reply (get_param db n)
ahl_get_param (negsuc n) db = (int (negsuc 0), param_not_in_db)

abbrev pub ahl_set_param : ℤ → Val → Database → Database
ahl_set_param (pos n) (int value) db = (set_param db n value).1
ahl_set_param (pos n) (str value) db = db
ahl_set_param (negsuc n) value db = db

-- The objects of `d` with the `AhlLib` beside their state; `read` is `read_parameter` of the Modbus
-- handler.
abbrev pub with_ahl_lib : (d : Devices) → (List Text → d.State → (ℤ × Code) × d.State) → Devices
with_ahl_lib d read = record {
  State = d.State × AhlLib;
  read_parameter = λ handler args s. elim handler [
    | modbus_handler ↦ let (reply, s') = read args s.0 in (some (int_reply reply), (s', s.1))
    | rs232_handler ↦
        let (reply, s') = d.read_parameter rs232_handler args s.0 in (reply, (s', s.1))
  ];
  write_parameter =
      λ handler args s. let (reply, s') = d.write_parameter handler args s.0 in (reply, (s', s.1));
  close = λ handler s. (d.close handler s.0, s.1);
  get_ar_version = λ s. let (reply, s') = d.get_ar_version s.0 in (reply, (s', s.1));
  get_generic_text = λ cmd s. let (reply, s') = d.get_generic_text cmd s.0 in (reply, (s', s.1));
  write_generic_text =
      λ args s. let (reply, s') = d.write_generic_text args s.0 in (reply, (s', s.1));
  new_ahl_lib = λ s.
      (d.new_ahl_lib s.0, record { polling_table = old_polling_table; database = init_database });
  set_polling_table = λ new_table s. (
    d.set_polling_table new_table s.0,
    record s.1 { polling_table = if new_table then new_polling_table else old_polling_table },
  );
  poll_lib = λ lib handler force_read_all s. elim lib [
    | ahl_lib ↦
        let reader : Reader = record { State = d.State; read_parameter = read } in
        let (changed, lib', s') = poll_params reader s.1 force_read_all s.0 in
        (some (map pos changed), (s', lib'))
    | thousand_lib ↦
        let (changed, s') = d.poll_lib thousand_lib handler force_read_all s.0 in
        (changed, (s', s.1))
  ];
  get_param = λ lib param s. elim lib [
    | ahl_lib ↦ ahl_get_param param s.1.database
    | thousand_lib ↦ d.get_param thousand_lib param s.0
  ];
  set_param = λ lib param value s. elim lib [
    | ahl_lib ↦ (s.0, record s.1 { database = ahl_set_param param value s.1.database })
    | thousand_lib ↦ (d.set_param thousand_lib param value s.0, s.1)
  ];
  default_on_change = d.default_on_change;
  default_daily = d.default_daily;
}

eq_value-eq : (o : Option ℤ) (v : ℤ) → eq_value o v ≡ true → o ≡ some v
eq_value-eq none v h = cc
eq_value-eq (some u) v h = rw (eq_ℤ-eq u v h) refl

-- A value that is set is given back where the number is in the database; where it is not, the value
-- is lost.
pub get_param-set_param :
    (db : Database) (param : ℕ) (value : ℤ)
    → get_param (set_param db param value).1 param
      ≡ (if elem param (keys db) then (value, no_err) else (negsuc 0, param_not_in_db))
unfolding get_param set_param
get_param-set_param db param value = elim (Option-cases (lookup param db)) [
  | inl e ↦ rw (elem-lookup param db e, set_param, e, get_param, e) refl
  | inr (p, e) ↦ elim (Bool-cases (eq_value p.value value)) [
    | inl same ↦
        rw
          (elem-lookup param db e, e, set_param, same, get_param, e, eq_value-eq p.value value same)
          refl
    | inr other ↦
        rw
          (
            elem-lookup param db e,
            e,
            set_param,
            other,
            get_param,
            lookup-update_self param (record p { value = some value }) db e,
          )
          refl
  ]
]
