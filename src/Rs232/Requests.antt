-- ===== src/Rs232/Requests.antt =====
-- src/liftApi/rs232_handler.py: requests to the lift.
use gateway_nexy.Base.{
  ℕ, Bool, true, false, not, Option, none, some, List, [], ◌∷◌, ◌==◌, if◌then◌else◌,
}
use gateway_nexy.Base.Int.{pos, negsuc}
use gateway_nexy.Base.Json.{
  Json, null, boolean, number, fraction, infinity, not_a_number, string, array, object, Jsons, nil,
  cons, Fields, no_fields, field, field_of, is_text, is_number, truncated,
}
use gateway_nexy.Base.Text.{Text, text, text_eq, str_int}
use gateway_nexy.Codes.{
  Code, args_in_len_err, cmd_not_supported, data_err, data_len_err, data_type_err, floor_lock_err,
  json_key_err, list_index_err,
}
use gateway_nexy.Modbus.Registers.{Val, str, int}
use gateway_nexy.Thousand.Signals.{Response}
use gateway_nexy.Rs232.Port.{
  Port, Method, done, lift, ◌>>=◌, ◌>>◌, Answer, answer, failed, on_answer,
}
use gateway_nexy.Rs232.Commands.{text_in, generic_texts, show_list, show_item}
use gateway_nexy.Rs232.Serial.{write_serial, pause}
use gateway_nexy.Rs232.Split.{Split, Wanted, frames, logs_frame, get_signal}

-- `resp_wanted[0]`; `none` is an `IndexError`, or the `KeyError` of a frame with logs.
abbrev pub first_frame : Wanted → Option Fields
first_frame (frames []) = none
first_frame (frames (rsp ∷ rest)) = some rsp
first_frame (logs_frame rsp) = none

-- `resp_wanted[0][name]`; `none` is an exception.
abbrev pub first_entry : Text → Wanted → Option Json
first_entry name wanted = elim (first_frame wanted) [ none ↦ none | some rsp ↦ field_of name rsp ]

-- Whether a value is truthy.
abbrev pub truthy : Json → Bool
truthy null = false
truthy (boolean b) = b
truthy (number z) = not (is_number (number z) (pos 0))
truthy (fraction z k) = not (is_number (fraction z k) (pos 0))
truthy (infinity negative) = true
truthy not_a_number = true
truthy (string []) = false
truthy (string _) = true
truthy (array nil) = false
truthy (array _) = true
truthy (object no_fields) = false
truthy (object _) = true

-- A value as an item of a response: of what has no number and no text, -1, which is refused as they
-- are.
abbrev pub to_item : Json → Val
to_item (number z) = int z
to_item (boolean b) = int (if b then pos 1 else pos 0)
to_item (string s) = str s
to_item (fraction z k) = str (str_int (truncated z k))
to_item _ = int (negsuc 0)

abbrev pub to_response : Jsons → Response
to_response nil = []
to_response (cons x xs) = to_item x ∷ to_response xs

-- `s.replace(old, new)` of characters.
abbrev pub replace : ℕ → ℕ → Text → Text
replace old new [] = []
replace old new (c ∷ s) = (if c == old then new else c) ∷ replace old new s

-- `str(value) == s` of a number or a text; `repr` shows the rest.
abbrev pub show_json : (Json → Text) → Json → Text
show_json repr (string s) = s
show_json repr value = show_item repr value

module _ (p : Port) where
  open p use {State, dumps, repr}

  -- A request with its answer, with a pause between or not.
  unfoldable pub request : List Text → Bool → Text → Text → Method State (Answer Split)
  unfolding write_serial get_signal
  request args pauses wanted_cmd wanted_type = on_answer (write_serial p args) (λ _.
      if pauses
      then pause p >> get_signal p wanted_cmd wanted_type
      else get_signal p wanted_cmd wanted_type)

  -- `get_generic_text`
  unfoldable pub get_generic_text : Text → Method State (Answer Json)
  unfolding request
  get_generic_text package_id =
      if not (text_in package_id generic_texts)
      then done (failed cmd_not_supported)
      else (on_answer (request (package_id ∷ []) true package_id [])
          (λ split. lift (first_entry (text "data") split.wanted) >>= λ v. done (answer v)))

  -- The `data` of the first frame, or a code.
  abbrev pub data_or : Code → Wanted → Answer Json
  data_or code wanted = elim (first_entry (text "data") wanted) [
    | none ↦ failed code
    | some v ↦ answer v
  ]

  -- `get_ar_version`
  unfoldable pub get_ar_version : Method State (Answer Json)
  unfolding request
  get_ar_version =
      on_answer (request (text "version" ∷ []) true (text "version") [])
        (λ split. done (data_or data_len_err split.wanted))

  -- What a frame of a file holds. A frame with logs has no 0, which is a `KeyError`.
  abbrev pub file_data : Wanted → Option (Answer (Fields × Json))
  file_data (logs_frame logs) = none
  file_data (frames []) = some (failed list_index_err)
  file_data (frames (rsp ∷ rest)) = elim (field_of (text "err") rsp) [
    | none ↦ some (failed json_key_err)
    | some err_status ↦ elim (is_number err_status (pos 0)) [
      | false ↦ some (failed data_err)
      | true ↦ elim (field_of (text "data") rsp) [
        | none ↦ some (failed json_key_err)
        | some v ↦ some (answer (rsp, v))
      ]
    ]
  ]

  -- `read_1k_file`: the frame and its data.
  unfoldable pub read_1k_file : List Text → Method State (Answer (Fields × Json))
  unfolding request
  read_1k_file (file_name ∷ []) =
      on_answer (request (text "readFile" ∷ (file_name ∷ [])) true (text "readFile") [])
        (λ split. lift (file_data split.wanted))
  read_1k_file _ = done (failed args_in_len_err)

  -- `write_1k_file`, with a file's name and a list.
  unfoldable pub write_1k_file : Text → Jsons → Method State (Answer (Unit {0}))
  unfolding request
  write_1k_file file_name xs =
      on_answer
        (request
          (text "writeFile"
            ∷ (file_name ∷ (dumps (object (field (text "data") (array xs) no_fields)) ∷ [])))
          true (text "writeFile") [])
        (λ split. lift (first_entry (text "err") split.wanted) >>= λ err_status.
          done (if is_number err_status (pos 0) then answer tt else failed data_err))

  -- `write_generic_text`
  unfoldable pub write_generic_text : Text → Text → Method State (Answer Json)
  unfolding request
  write_generic_text package_id new_text =
      if not (text_in package_id generic_texts)
      then done (failed cmd_not_supported)
      else (on_answer (request (package_id ∷ (new_text ∷ [])) true package_id []) (λ split.
          lift (first_entry (text "data") split.wanted) >>= λ v.
          done (if is_text v new_text then answer v else failed data_type_err)))

  abbrev no_result : Answer Split → Answer (Unit {0})
  no_result (failed code) = failed code
  no_result (answer split) = answer tt

  -- `reset_service_memory`
  unfoldable pub reset_service_memory : Method State (Answer (Unit {0}))
  unfolding request
  reset_service_memory =
      request (text "operation" ∷ (text "132" ∷ [])) true (text "operation") (text "132")
      >>= λ result. done (no_result result)

  -- `vfd_clear_table`
  unfoldable pub vfd_clear_table : Method State (Answer (Unit {0}))
  unfolding request
  vfd_clear_table = request (text "vfdClearTable" ∷ []) true (text "vfdClearTable") [] >>= λ result.
      done (no_result result)

  abbrev pub child_lock_answer : Text → Option Json → Answer Text
  child_lock_answer on_off (some (string response)) =
      if text_eq on_off response then answer response else failed data_err
  child_lock_answer on_off (some _) = failed data_type_err
  child_lock_answer on_off none = failed data_err

  -- `set_child_lock`
  unfoldable pub set_child_lock : Text → Method State (Answer Text)
  unfolding request
  set_child_lock on_off =
      if not (text_in on_off (text "on" ∷ (text "off" ∷ [])))
      then done (failed data_err)
      else (on_answer (request (text "childLock" ∷ (on_off ∷ [])) false (text "childLock") [])
          (λ split. done (child_lock_answer on_off (first_entry (text "data") split.wanted))))

  abbrev pub floor_lock_answer : Text → Option Json → Answer Jsons
  floor_lock_answer data_in (some (array response)) =
      if text_eq data_in (show_list repr response) then answer response else failed floor_lock_err
  floor_lock_answer data_in (some _) = failed data_type_err
  floor_lock_answer data_in none = failed data_err

  -- `set_floor_lock`
  unfoldable pub set_floor_lock : Text → Method State (Answer Jsons)
  unfolding request
  set_floor_lock data_in =
      on_answer (request (text "floorLock" ∷ (data_in ∷ [])) false (text "floorLock") [])
        (λ split. done (floor_lock_answer data_in (first_entry (text "data") split.wanted)))

  abbrev show_val : Val → Text
  show_val (str s) = s
  show_val (int z) = str_int z

  abbrev pub oil_level_answer : Val → Option Json → Answer Json
  oil_level_answer previous none = failed data_err
  oil_level_answer previous (some response) =
      if text_eq (show_val previous) (show_json repr response)
      then answer response
      else failed data_err

  -- `set_oil_level`
  unfoldable pub set_oil_level : Text → Val → Method State (Answer Json)
  unfolding request
  set_oil_level data_in previous_oil_level =
      on_answer (request (text "oilLevel" ∷ (data_in ∷ [])) false (text "oilLevel") []) (λ split.
        done (oil_level_answer previous_oil_level (first_entry (text "data") split.wanted)))
