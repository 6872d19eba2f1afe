-- ===== src/Tests/Proxy.antt =====
-- Tests of src/liftApi/lift_proxy.py.
use gateway_nexy.Base.{
  ◌≡◌, ◌⊎◌, refl, ℕ, suc, true, false, none, some, List, [], ◌∷◌, ◌==◌, elem, if◌then◌else◌,
}
use gateway_nexy.Base.Int.{ℤ, pos, negsuc, ltb_ℤ}
use gateway_nexy.Base.Text.{Text, text, int_of}
use gateway_nexy.Codes.{Code, no_err, param_not_in_db}
use gateway_nexy.Modbus.Registers.{Val, int}
use gateway_nexy.Proxy.Devices.{unknown, ahl, Devices}
use gateway_nexy.Proxy.Bind.{create}
use gateway_nexy.Proxy.Access.{get_param_value, write_ar_number, write_read_param}
use gateway_nexy.Proxy.Access.Cache.{write_read_param-get_param_value}
use gateway_nexy.Proxy.Access.OnAhl.{with_ahl_lib}
use gateway_nexy.Ahl.Poll.{AhlLib}
use gateway_nexy.Ahl.Tables.{new_polling_table}
use gateway_nexy.Ahl.Database.{init_database, get_param, set_param}
use gateway_nexy.Base.Dict.{keys}
use gateway_nexy.Base.Json.{
  null, number, fraction, infinity, not_a_number, object, nil, cons, Fields, no_fields, field,
  field_of,
}
use gateway_nexy.Proxy.Twin.{
  converted, refused, overflow, int_of_json, ints_of_json, is_unreadable, get_interval,
  get_interval-positive,
}
use gateway_nexy.Proxy.Polling.{notify, send_event, polling_round}
use gateway_nexy.Proxy.Machine.{
  Op, reidentify, poll, read, represent, exec, run, abstract_step, exec-represent,
}
use gateway_nexy.Proxy.Machine.Log.{logged, first_is_full}
use gateway_nexy.Proxy.Machine.Runs.{lifetime}
use gateway_nexy.Proxy.Machine.Due.{lifetime-first_is_full}

-- An AHL lift with old firmware: parameter 127 does not exist, and the first two polls raise. The state
-- is the number of polls and the cached value.
abbrev old_lift : Devices
old_lift = record {
  State = ℕ × Val;
  read_parameter = λ handler args s. (some (int (pos 7), no_err), s);
  write_parameter = λ handler args s. (some (pos 0, no_err), s);
  close = λ handler s. s;
  get_ar_version = λ s. (none, s);
  get_generic_text = λ name s. (none, s);
  write_generic_text = λ args s. (none, s);
  new_ahl_lib = λ s. s;
  set_polling_table = λ new_table s. s;
  poll_lib =
      λ lib handler force s. ((if s.0 == 2 then some (pos 5 ∷ []) else none), (suc s.0, s.1));
  get_param = λ lib param s. (s.1, no_err);
  set_param = λ lib param value s. (s.0, value);
  default_on_change = λ lib. pos 5 ∷ [];
  default_daily = λ lib. [];
}

exec-represent_example :
    (exec old_lift reidentify (represent (unknown, true)) (0, int (pos 0))).0
    ≡ represent (abstract_step old_lift reidentify (unknown, true) (0, int (pos 0)))
exec-represent_example = exec-represent old_lift reidentify (unknown, true) (0, int (pos 0))

abbrev four_polls : List Op
four_polls = poll false ∷ read (pos 7) ∷ poll false ∷ poll false ∷ poll false ∷ []

-- Three full reads, of which the last one returns, and one that is not full.
old_lift_polls :
    (lifetime (logged old_lift) four_polls ((0, int (pos 0)), [])).1.1
    ≡ (false, false) ∷ (true, true) ∷ (true, false) ∷ (true, false) ∷ []
unfolding lifetime run create
old_lift_polls = refl

lifetime-first_is_full_example :
    first_is_full (lifetime (logged old_lift) four_polls ((0, int (pos 0)), [])).1.1 ≡ true
lifetime-first_is_full_example = lifetime-first_is_full old_lift four_polls (0, int (pos 0))

-- A lift that reads 7 for every parameter, with an `AhlLib`.
abbrev read_seven : List Text → ℕ × Val → (ℤ × Code) × (ℕ × Val)
read_seven args s = ((pos 7, no_err), s)

abbrev fresh : (ℕ × Val) × AhlLib
fresh = ((0, int (pos 0)), record { polling_table = new_polling_table; database = init_database })

abbrev after_write : Text → (ℕ × Val) × AhlLib
after_write param =
    (write_read_param (with_ahl_lib old_lift read_seven) (represent (ahl, false)) param (text "9")
      fresh).1

write_read_param-get_param_value_example :
    get_param_value
      (with_ahl_lib old_lift read_seven)
      (represent (ahl, false))
      (pos 5)
      (after_write (text "5"))
    ≡ (if elem 5 (keys fresh.1.database)
        then (some (int (pos 7)), no_err)
        else (some (int (negsuc 0)), param_not_in_db))
unfolding write_read_param int_of
write_read_param-get_param_value_example =
    write_read_param-get_param_value old_lift read_seven false (text "5") (text "9") 5 (pos 0)
      (int (pos 7)) no_err fresh (after_write (text "5")) refl refl

-- Parameter 5 is in the database; 36 is not, and the value read back is lost.
written_values :
    (get_param_value
        (with_ahl_lib old_lift read_seven)
        (represent (ahl, false))
        (pos 5)
        (after_write (text "5"))
      ≡ (some (int (pos 7)), no_err))
    × (get_param_value
          (with_ahl_lib old_lift read_seven)
          (represent (ahl, false))
          (pos 36)
          (after_write (text "36"))
        ≡ (some (int (negsuc 0)), param_not_in_db))
unfolding write_read_param int_of get_param_value get_param set_param init_database
written_values = (refl, refl)

-- `intervals` is the number 5.
abbrev bad_twin : Fields
bad_twin = field (text "intervals") (number (pos 5)) no_fields

-- `{"intervals": {"dailyTimer": 1e999}}`
abbrev endless_twin : Fields
endless_twin =
    field (text "intervals") (object (field (text "dailyTimer") (infinity false) no_fields))
      no_fields

get_interval-positive_example :
    ((z : ℤ) × (get_interval (some endless_twin) (text "dailyTimer") (pos 86400) ≡ some z)
      × (ltb_ℤ (pos 0) z ≡ true)
      × (is_unreadable (text "dailyTimer") (field_of (text "intervals") endless_twin) ≡ false))
    ⊎ ((get_interval (some endless_twin) (text "dailyTimer") (pos 86400) ≡ none)
        × (is_unreadable (text "dailyTimer") (field_of (text "intervals") endless_twin) ≡ true))
get_interval-positive_example =
    get_interval-positive endless_twin (text "dailyTimer") (pos 86400) refl

-- An infinite interval and an infinite parameter number raise; other values that are no numbers give
-- the defaults.
endless_interval :
    (get_interval (some endless_twin) (text "dailyTimer") (pos 86400) ≡ none)
    × (get_interval (some endless_twin) (text "liftAgentPolling") (pos 5) ≡ some (pos 5))
    × (int_of_json not_a_number ≡ refused)
    × (int_of_json (fraction (pos 11) 1) ≡ converted (pos 5))
    × (ints_of_json (cons null (cons (infinity true) nil)) ≡ refused)
    × (ints_of_json (cons (number (pos 3)) (cons (infinity true) nil)) ≡ overflow)
unfolding get_interval int_of_json ints_of_json
endless_interval = (refl, refl, refl, refl, refl, refl)

-- The third poll returns parameter 5, which goes to the supervisor and to the cloud; the twin has no
-- intervals.
pushed :
    (polling_round old_lift true (some no_fields) (represent (ahl, false)) (2, int (pos 7))).0 ≡ (
      notify ((pos 5, int (pos 7)) ∷ []) ∷ send_event ((pos 5, int (pos 7)) ∷ []) ∷ [],
      some (pos 5),
    )
unfolding polling_round
pushed = refl

-- With the other twin the same round ends the loop.
loop_ends :
    (polling_round old_lift true (some bad_twin) (represent (ahl, false)) (2, int (pos 7))).0.1
    ≡ none
unfolding polling_round
loop_ends = refl

-- A lift that answers nothing stays unknown after the ten attempts.
abbrev silent_lift : Devices
silent_lift = record old_lift { read_parameter = λ handler args s. (none, s) }

still_unknown : create silent_lift (0, int (pos 0)) ≡ (represent (unknown, true), (0, int (pos 0)))
unfolding create
still_unknown = refl

-- The AR number of an AHL lift cannot be written.
ar_is_read_only :
    (write_ar_number old_lift (represent (ahl, true)) (text "AR1") (0, int (pos 0))).0
    ≡ some (none, Code.param_read_only)
unfolding write_ar_number
ar_is_read_only = refl
