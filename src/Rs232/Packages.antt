-- ===== src/Rs232/Packages.antt =====
-- src/liftApi/rs232_handler.py: the packages of the lift, its notifications and the door counters.
use gateway_nexy.Base.{true, false, Option, none, some, List, [], ◌∷◌, map, if◌then◌else◌}
use gateway_nexy.Base.Int.{ℤ}
use gateway_nexy.Base.IntDict.{lookup}
use gateway_nexy.Base.Json.{Json, array, Jsons, nil, Fields, field_of}
use gateway_nexy.Base.Text.{Text, text, text_eq}
use gateway_nexy.Codes.{
  Code, no_err, is_no_err, arg_type_err, data_len_err, data_type_err, status_err,
}
use gateway_nexy.Modbus.Registers.{Val, int}
use gateway_nexy.Thousand.Signals.{Response}
use gateway_nexy.Thousand.Protocol.{Database}
use gateway_nexy.Thousand.Packages.{params_door_open_count}
use gateway_nexy.Thousand.Lookup.{ThousandLib}
use gateway_nexy.Thousand.Doors.{
  door_open_count_recalculate, update_door_closing_time, reset_135_params,
}
use gateway_nexy.Rs232.Port.{
  Port, CounterFile, total_file, previous_file, Method, done, lift, ◌>>=◌, ◌>>◌, Answer, answer,
  failed, on_answer,
}
use gateway_nexy.Rs232.Split.{get_signal, entry_shows, door_closing_time_type}
use gateway_nexy.Rs232.Requests.{first_entry, request, to_response, truthy}
use gateway_nexy.Rs232.Vfd.{on_database}

-- The loop of `__repackage_status`.
unfoldable repackaged : List Fields → Jsons → Jsons × Code
repackaged [] data_last = (data_last, no_err)
repackaged (pkg ∷ status) data_last = elim (field_of (text "data") pkg) [
  | some (array xs) ↦ repackaged status xs
  | some _ ↦ (nil, arg_type_err)
  | none ↦ (nil, arg_type_err)
]

-- `__repackage_status`; the empty text with a code is an empty list here.
unfoldable pub repackage_status : List Fields → Jsons × Code
unfolding repackaged
repackage_status [] = (nil, status_err)
repackage_status (pkg ∷ status) = repackaged (pkg ∷ status) nil

-- `[saved for saved in notifications if str(saved["type"]) == '135']`
abbrev pub of_closing_time : List Fields → List Fields
of_closing_time [] = []
of_closing_time (rsp ∷ saved) =
    if entry_shows (text "type") door_closing_time_type rsp
    then rsp ∷ of_closing_time saved
    else of_closing_time saved

-- A method on the library's attributes; after an exception they are as they were.
abbrev pub on_lib : {S A : Type 0} → (ThousandLib → Option (A × ThousandLib)) → Method S A
on_lib f r = elim (f r.lib) [ none ↦ (none, r) | some (a, lib) ↦ (some a, record r { lib = lib }) ]

unfoldable pub reset_notifications : {S : Type 0} → Method S (Unit {0})
unfolding reset_135_params
reset_notifications r =
    let r' = record r { saved_operation_notifications = [] } in
    on_database (λ db. elim (reset_135_params db) [ none ↦ none | some db' ↦ some (tt, db') ]) r'

module _ (p : Port) where
  open p use {State, unix_time, read_counters, write_counters}

  -- `update_door_closing_time` of the last saved notification.
  unfoldable pub closing_time : List Fields → Method State (List ℤ × Code)
  unfolding repackage_status update_door_closing_time
  closing_time [] r = done ([], no_err) r
  closing_time (rsp ∷ saved) r =
      on_database
        (update_door_closing_time (unix_time r.port)
          (to_response (repackage_status (of_closing_time (rsp ∷ saved))).0))
        r

  -- `get_notification`
  unfoldable pub get_notification : Method State (List ℤ × Code)
  unfolding closing_time
  get_notification r =
      (closing_time r.saved_operation_notifications >>= λ result.
      reset_notifications >> done result)
        r

  -- `get_latest_status`; a status of no items is empty here, which is unpacked as its -1.
  unfoldable pub get_latest_status : Method State (Answer Response)
  unfolding get_signal repackage_status
  get_latest_status = on_answer (get_signal p (text "operation") (text "130")) (λ split.
      let (status_last, err_code) = repackage_status split.status in
      done (if is_no_err err_code then answer (to_response status_last) else failed err_code))

  abbrev pub package_data : Json → Answer Response
  package_data (array xs) =
      if truthy (array xs) then answer (to_response xs) else failed data_type_err
  package_data _ = failed data_type_err

  -- `get_operation_package`
  unfoldable pub get_operation_package : Text → Method State (Answer Response)
  unfolding get_latest_status request
  get_operation_package signal =
      if text_eq signal (text "130")
      then get_latest_status
      else (on_answer (request p (text "operation" ∷ (signal ∷ [])) true (text "operation") signal)
          (λ split. lift (first_entry (text "data") split.wanted) >>= λ v. done (package_data v)))

  -- The counters of a file.
  abbrev pub read_file : CounterFile → Method State (List ℤ)
  read_file counter_file r =
      let (counters, s) = read_counters counter_file r.port in (counters, record r { port = s })

  abbrev pub put_totals : List ℤ → Method State (Unit {0})
  put_totals totals r =
      (some tt, record r { lib = record r.lib { total_open_door_counters = totals } })

  abbrev pub put_previous : List ℤ → Method State (Unit {0})
  put_previous previous r = (
    some tt,
    record r {
      lib = record r.lib {
        previous_open_door_counters = previous;
        reset_saved_open_door_counter = false;
      };
    },
  )

  abbrev pub restored : Method State (Unit {0})
  restored = read_file total_file >>= λ totals.
      put_totals totals >> (read_file previous_file >>= λ previous. put_previous previous)

  -- What is read back where the flag is set.
  abbrev pub restore_counters : Method State (Unit {0})
  restore_counters r = if r.lib.reset_saved_open_door_counter then restored r else (some tt, r)

  -- `get_door_open_count`
  unfoldable pub get_door_open_count : Method State (Answer Json)
  unfolding request
  get_door_open_count =
      restore_counters
      >> on_answer (request p (text "getOpenCount" ∷ []) true (text "getOpenCount") []) (λ split.
        done (elim (first_entry (text "data") split.wanted) [
          | none ↦ failed data_len_err
          | some v ↦ answer v
        ]))

  -- The values of the counters; `none` is a `KeyError`.
  abbrev pub values_of : Database → List ℤ → Option (List Val)
  values_of db [] = some []
  values_of db (q ∷ qs) = elim (lookup q db) [
    | none ↦ none
    | some signal ↦ elim (values_of db qs) [ none ↦ none | some vs ↦ some (signal.value ∷ vs) ]
  ]

  abbrev pub write_file : CounterFile → List Val → Method State Code
  write_file counter_file counters r =
      let (code, s) = write_counters counter_file counters r.port in
      (some code, record r { port = s })

  abbrev pub save_previous : Code → Method State Code
  save_previous code r =
      if r.lib.reset_saved_open_door_counter
      then write_file previous_file (map int r.lib.previous_open_door_counters) r
      else (some code, r)

  abbrev pub save_counters : List ℤ → Method State (List ℤ × Code)
  save_counters changed r =
      (lift (values_of r.lib.database params_door_open_count) >>= λ totals.
      write_file total_file totals >>= λ code.
      save_previous code >>= λ code'. done (changed, code'))
        r

  -- `get_updated_open_door_counter_parameters`
  unfoldable pub get_updated_open_door_counter_parameters : Response → Method State (List ℤ × Code)
  unfolding door_open_count_recalculate
  get_updated_open_door_counter_parameters response r =
      (on_lib (door_open_count_recalculate (unix_time r.port) response) >>= λ (changed, code).
      if is_no_err code then save_counters changed else done ([], code))
        r
