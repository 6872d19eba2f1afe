-- ===== src/Rs232/Write.antt =====
-- src/liftApi/rs232_handler.py: the reading and the writing of a parameter.
pub mod Bytes
pub mod Floors
pub mod Values
use gateway_nexy.Base.{
  ℕ, zero, suc, ◌+◌, ◌-◌, ◌*◌, ◌/◌, ◌%◌, ◌^◌, Bool, true, false, not, ◌&&◌, ◌||◌, Option, none,
  some, List, [], ◌∷◌, ltb, leb, ◌==◌, elem, if◌then◌else◌,
}
use gateway_nexy.Base.Int.{ℤ, pos, negsuc, eq_ℤ, leb_ℤ}
use gateway_nexy.Base.IntDict.{lookup}
use gateway_nexy.Base.Json.{Json, number, array, Jsons, nil, cons, Fields}
use gateway_nexy.Base.Text.{Text, text, int_of}
use gateway_nexy.Codes.{
  Code, no_err, is_no_err, args_in_elem_int_err, args_in_len_err, data_err, floor_lock_err,
  no_params_in_db, write_param_not_in_files, write_param_not_supported_by_1k,
}
use gateway_nexy.Modbus.Registers.{Val, str}
use gateway_nexy.Thousand.Signals.{Signal}
use gateway_nexy.Thousand.Protocol.{Database}
use gateway_nexy.Thousand.Lookup.{eq_val, get_param, get_file_for_param, available_params}
use gateway_nexy.Thousand.Doors.{put_value}
use gateway_nexy.Rs232.Port.{
  Port, Rs232, Method, done, raise, lift, ◌>>=◌, ◌>>◌, Answer, answer, failed, on_answer,
}
use gateway_nexy.Rs232.Commands.{show_list}
use gateway_nexy.Rs232.Requests.{
  set_child_lock, set_floor_lock, set_oil_level, read_1k_file, write_1k_file, truthy,
}
use gateway_nexy.Rs232.Versions.{int_val}
use gateway_nexy.Rs232.Vfd.{on_database}
use gateway_nexy.Rs232.Poll.{join_params}

-- `data[i] = value`; `none` is an `IndexError`.
abbrev pub set_item : ℕ → Json → Jsons → Option Jsons
set_item i v nil = none
set_item zero v (cons x xs) = some (cons v xs)
set_item (suc i) v (cons x xs) = elim (set_item i v xs) [ none ↦ none | some ys ↦ some (cons x ys) ]

-- The loop that replaces the bytes of a value, the low one first.
unfoldable pub replace_bytes : ℕ → ℕ → ℕ → Jsons → Option Jsons
replace_bytes start zero v xs = some xs
replace_bytes start (suc n) v xs = elim (set_item start (number (pos (v % 256))) xs) [
  | none ↦ none
  | some ys ↦ replace_bytes (suc start) n (v / 256) ys
]

-- `value_int.to_bytes(byte_size, "little", signed=False)` and the loop; `none` is an
-- `OverflowError` or an `IndexError`.
unfoldable pub replace_param : Signal → ℤ → Jsons → Option Jsons
unfolding replace_bytes
replace_param signal (negsuc v) xs = none
replace_param signal (pos v) xs =
    if ltb v (256 ^ signal.byte_size)
    then replace_bytes signal.byte_start signal.byte_size v xs
    else none

-- Bit `floor - 1` of a value.
abbrev pub is_locked : ℕ → ℕ → Bool
is_locked v floor = v / 2 ^ (floor - 1) % 2 == 1

abbrev floors_from : ℕ → List ℕ → List ℕ
floors_from v [] = []
floors_from v (floor ∷ floors) =
    if is_locked v floor then floor ∷ floors_from v floors else floors_from v floors

-- `locked_floor_data`
unfoldable pub locked_floor_data : ℕ → List ℕ
unfolding floors_from
locked_floor_data v = floors_from v (1 ∷ (2 ∷ (3 ∷ (4 ∷ (5 ∷ (6 ∷ []))))))

abbrev pub to_jsons : List ℕ → Jsons
to_jsons [] = nil
to_jsons (n ∷ ns) = cons (number (pos n)) (to_jsons ns)

-- `int(fire_floor) in locked_floor_data`
abbrev pub is_floor_in : ℤ → List ℕ → Bool
is_floor_in (pos n) floors = elem n floors
is_floor_in (negsuc n) floors = false

-- `read_parameter`; `none` is a `ValueError` or an `IndexError`.
unfoldable pub read_parameter : List Text → Database → Option (Val × Code)
unfolding get_param int_of
read_parameter [] db = none
read_parameter (param ∷ args) db = elim (int_of param) [
  | none ↦ none
  | some q ↦ some (get_param db q)
]

-- `get_available_params`
unfoldable pub get_available_params : Database → Text × Code
unfolding join_params
get_available_params db = elim (available_params db) [
  | [] ↦ (text "0", no_params_in_db)
  | q ∷ qs ↦ (join_params (q ∷ qs), no_err)
]

abbrev pub floor_lock : ℤ
floor_lock = pos 152

abbrev pub oil_level_130 : ℤ
oil_level_130 = pos 10

abbrev pub child_lock_130 : ℤ
child_lock_130 = pos 145

abbrev pub fire_floor_param : ℤ
fire_floor_param = pos 102

module _ {S A : Type 0} where
  abbrev pub no_value : Method S (Answer A) → Method S (Answer (Unit {0}))
  no_value m = on_answer m (λ _. done (answer tt))

-- The value of the fire floor; `none` is an exception of `int`.
unfoldable pub fire_floor_of : Database → Answer (Option ℤ)
unfolding get_param
fire_floor_of db =
    let (fire_floor, code) = get_param db fire_floor_param in
    if is_no_err code then answer (int_val fire_floor) else failed code

module _ (p : Port) where
  open p use {State, repr}

  -- The lock of the floors of a value.
  unfoldable pub lock_floors : ℕ → Method State (Answer (Unit {0}))
  unfolding locked_floor_data set_floor_lock
  lock_floors v r = elim (fire_floor_of r.lib.database) [
    | failed code ↦ (some (failed code), r)
    | answer none ↦ (none, r)
    | answer (some fire_floor) ↦ elim (is_floor_in fire_floor (locked_floor_data v)) [
      | true ↦ (some (failed floor_lock_err), r)
      | false ↦ no_value (set_floor_lock p (show_list repr (to_jsons (locked_floor_data v)))) r
    ]
  ]

  abbrev in_range : ℤ → ℤ → Bool
  in_range v high = leb_ℤ (pos 0) v && leb_ℤ v high

  unfoldable pub write_floor_lock : ℤ → Method State (Answer (Unit {0}))
  unfolding lock_floors
  write_floor_lock (negsuc v) = done (failed data_err)
  write_floor_lock (pos v) = if leb v 63 then lock_floors v else done (failed data_err)

  unfoldable pub write_oil_level : Text → ℤ → Val → Method State (Answer (Unit {0}))
  unfolding set_oil_level
  write_oil_level value_str v current_val =
      if leb_ℤ (pos 0) v && leb_ℤ v (pos 100)
      then no_value (set_oil_level p value_str current_val)
      else done (failed data_err)

  -- The new data of a file; `none` is an exception.
  unfoldable pub new_data : Option Signal → ℤ → Json → Option (Answer Jsons)
  unfolding replace_param
  new_data none v data_out = none
  new_data (some signal) v (array nil) = some (failed data_err)
  new_data (some signal) v (array (cons x xs)) = elim (replace_param signal v (cons x xs)) [
    | none ↦ none
    | some ys ↦ some (answer ys)
  ]
  new_data (some signal) v data_out = if truthy data_out then none else some (failed data_err)

  unfoldable pub ship : ℤ → ℤ → Text → Method State (Answer (Unit {0}))
  unfolding read_1k_file new_data write_1k_file
  ship q v file r =
      on_answer (read_1k_file p (file ∷ []))
        (λ (rsp, data_out). λ r'.
          on_answer (lift (new_data (lookup q r'.lib.database) v data_out))
            (λ ys. write_1k_file p file ys) r')
        r

  -- A parameter of a file.
  unfoldable pub write_in_file : ℤ → ℤ → Method State (Answer (Unit {0}))
  unfolding get_param ship get_file_for_param
  write_in_file q v r =
      if not (is_no_err (get_param r.lib.database q).1)
      then (some (failed write_param_not_supported_by_1k), r)
      else elim (get_file_for_param q) [
        | [] ↦ (some (failed write_param_not_in_files), r)
        | c ∷ file ↦ ship q v (c ∷ file) r
      ]

  -- The branches of `write_parameter`.
  unfoldable pub write_to_lift : ℤ → Text → ℤ → Val → Method State (Answer (Unit {0}))
  unfolding set_child_lock write_floor_lock write_oil_level write_in_file
  write_to_lift q value_str v current_val =
      if eq_ℤ q child_lock_130
      then no_value (set_child_lock p (if eq_ℤ v (pos 0) then text "off" else text "on"))
      else if eq_ℤ q floor_lock
      then write_floor_lock v
      else if eq_ℤ q oil_level_130
      then write_oil_level value_str v current_val
      else write_in_file q v

  -- `self.tl.database[q].value = value`
  abbrev pub store_value : ℤ → Text → Method State (Answer (Unit {0}))
  store_value q value_str = on_database (λ db. elim (put_value q (str value_str) db) [
    | none ↦ none
    | some db' ↦ some (answer tt, db')
  ])

  unfoldable pub write_number : ℤ → Text → ℤ → Method State (Answer (Unit {0}))
  unfolding get_param write_to_lift store_value
  write_number q value_str v r =
      let (current_val, code) = get_param r.lib.database q in
      if is_no_err code && eq_val current_val (str value_str)
      then (some (answer tt), r)
      else (on_answer (write_to_lift q value_str v current_val) (λ _. store_value q value_str) r)

  -- `write_parameter`
  unfoldable pub write_parameter : List Text → Method State (Answer (Unit {0}))
  unfolding write_number int_of
  write_parameter (param_str ∷ value_str ∷ []) = elim (int_of param_str) [
    | none ↦ done (failed args_in_elem_int_err)
    | some q ↦ elim (int_of value_str) [
      | none ↦ done (failed args_in_elem_int_err)
      | some v ↦ write_number q value_str v
    ]
  ]
  write_parameter _ = done (failed args_in_len_err)

-- `close`; an error of the client is only logged.
abbrev pub close : {S : Type 0} → Rs232 S → Rs232 S
close r = record r { available = false }
