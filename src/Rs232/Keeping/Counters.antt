-- ===== src/Rs232/Keeping/Counters.antt =====
-- src/liftApi/rs232_handler.py: the results, notifications and counters keep the attributes well-formed.
use gateway_nexy.Base.{true, none, some, List, [], ◌∷◌, map, arith, if◌then◌else◌}
use gateway_nexy.Base.Json.{Json, Fields}
use gateway_nexy.Base.Int.{ℤ}
use gateway_nexy.Base.Text.{Text, text}
use gateway_nexy.Codes.{Code, no_err, is_no_err, data_len_err}
use gateway_nexy.Thousand.Signals.{Response}
use gateway_nexy.Thousand.Packages.{params_door_open_count, params_vfd_result}
use gateway_nexy.Thousand.Doors.{
  door_open_count_recalculate, reset_135_params, update_door_closing_time,
}
use gateway_nexy.Modbus.Registers.{Val, int}
use gateway_nexy.Rs232.Port.{
  Port, CounterFile, total_file, previous_file, Method, done, lift, ◌>>=◌, ◌>>◌, Answer, answer,
  failed, on_answer,
}
use gateway_nexy.Rs232.Requests.{read_1k_file, request, first_entry, to_response}
use gateway_nexy.Rs232.Vfd.{
  on_database, update_vfd, vfd_rounds, get_vfd_motor_data, clear_vfd_results, set_of, add_first,
}
use gateway_nexy.Rs232.Packages.{
  on_lib, get_door_open_count, restored, restore_counters, read_file, put_totals, put_previous,
  get_updated_open_door_counter_parameters, save_counters, values_of, write_file, save_previous,
  get_notification, closing_time, reset_notifications, repackage_status, of_closing_time,
}
use gateway_nexy.Rs232.Poll.{as_response, items_of, file_response}
use gateway_nexy.Rs232.Keeping.{
  IsWellFormed, Preserves-bind, Preserves-on_answer, Preserves-if, if_keeps, Keeps,
}
use gateway_nexy.Rs232.Keeping.Requests.{
  Keeps-on_database, Keeps-on_lib, Keeps-after_request, Keeps-read_1k_file,
}

module _ {S : Type 0} where
  pub Keeps-vfd_rounds :
      (saved : List Fields) (params : List ℤ) (err_code : Code)
      → Keeps {S = S} (vfd_rounds saved params err_code)
  unfolding vfd_rounds
  Keeps-vfd_rounds [] params err_code = λ r h. h
  Keeps-vfd_rounds (rsp ∷ saved) params err_code =
      Preserves-bind IsWellFormed (on_database (update_vfd rsp))
        (λ (changed, latest). vfd_rounds saved (add_first params changed) latest)
        (Keeps-on_database (update_vfd rsp))
        (λ (changed, latest). Keeps-vfd_rounds saved (add_first params changed) latest)

  pub Keeps-get_vfd_motor_data : Keeps {S = S} get_vfd_motor_data
  unfolding get_vfd_motor_data
  Keeps-get_vfd_motor_data r h =
      Preserves-bind IsWellFormed (vfd_rounds r.saved_vfd_results [] no_err)
        (λ (params, err_code).
          clear_vfd_results >> done (set_of params params_vfd_result, err_code))
        (Keeps-vfd_rounds r.saved_vfd_results [] no_err)
        (λ (params, err_code) r' h'. record { index = h'.index; results = ground arith }) r h

module _ (p : Port) where
  open p use {State, unix_time}

  Keeps-closing_time : (saved : List Fields) → Keeps (closing_time p saved)
  unfolding closing_time
  Keeps-closing_time [] r h = h
  Keeps-closing_time (rsp ∷ saved) r h =
      Keeps-on_database
        (update_door_closing_time (unix_time r.port)
          (to_response (repackage_status (of_closing_time (rsp ∷ saved))).0))
        r h

  Keeps-reset_notifications : Keeps {S = State} reset_notifications
  unfolding reset_notifications
  Keeps-reset_notifications r h =
      Keeps-on_database
        (λ db. elim (reset_135_params db) [ none ↦ none | some db' ↦ some (tt, db') ])
        (record r { saved_operation_notifications = [] })
        (record { index = h.index; results = h.results })

  pub Keeps-get_notification : Keeps (get_notification p)
  unfolding get_notification
  Keeps-get_notification r h =
      Preserves-bind IsWellFormed (closing_time p r.saved_operation_notifications)
        (λ result. reset_notifications >> done result)
        (Keeps-closing_time r.saved_operation_notifications)
        (λ result.
          Preserves-bind IsWellFormed reset_notifications (λ _. done result)
            Keeps-reset_notifications (λ _ r' h'. h'))
        r h

  Keeps-read_file : (counter_file : CounterFile) → Keeps (read_file p counter_file)
  Keeps-read_file counter_file r h = record { index = h.index; results = h.results }

  Keeps-put_totals : (totals : List ℤ) → Keeps (put_totals p totals)
  Keeps-put_totals totals r h = record { index = h.index; results = h.results }

  Keeps-put_previous : (previous : List ℤ) → Keeps (put_previous p previous)
  Keeps-put_previous previous r h = record { index = h.index; results = h.results }

  Keeps-restored : Keeps (restored p)
  Keeps-restored =
      Preserves-bind IsWellFormed (read_file p total_file)
        (λ totals.
          put_totals p totals
          >> (read_file p previous_file >>= λ previous. put_previous p previous))
        (Keeps-read_file total_file)
        (λ totals.
          Preserves-bind IsWellFormed (put_totals p totals)
            (λ _. read_file p previous_file >>= λ previous. put_previous p previous)
            (Keeps-put_totals totals)
            (λ _.
              Preserves-bind IsWellFormed (read_file p previous_file) (put_previous p)
                (Keeps-read_file previous_file) Keeps-put_previous))

  Keeps-restore_counters : Keeps (restore_counters p)
  Keeps-restore_counters r h =
      if_keeps IsWellFormed r.lib.reset_saved_open_door_counter (restored p r) (some tt, r)
        (Keeps-restored r h) h

  pub Keeps-get_door_open_count : Keeps (get_door_open_count p)
  unfolding get_door_open_count
  Keeps-get_door_open_count =
      Preserves-bind IsWellFormed (restore_counters p)
        (λ _.
          on_answer (request p (text "getOpenCount" ∷ []) true (text "getOpenCount") []) (λ split.
            done (elim (first_entry (text "data") split.wanted) [
              | none ↦ failed data_len_err
              | some v ↦ answer v
            ])))
        Keeps-restore_counters
        (λ _.
          Keeps-after_request p (text "getOpenCount" ∷ []) true (text "getOpenCount") []
            (λ split. done (elim (first_entry (text "data") split.wanted) [
              | none ↦ failed data_len_err
              | some v ↦ answer v
            ]))
            (λ split r h. h))

  Keeps-write_file :
      (counter_file : CounterFile) (counters : List Val)
      → Keeps (write_file p counter_file counters)
  Keeps-write_file counter_file counters r h = record { index = h.index; results = h.results }

  Keeps-save_previous : (code : Code) → Keeps (save_previous p code)
  Keeps-save_previous code r h =
      if_keeps IsWellFormed r.lib.reset_saved_open_door_counter
        (write_file p previous_file (map int r.lib.previous_open_door_counters) r) (some code, r)
        (Keeps-write_file previous_file (map int r.lib.previous_open_door_counters) r h) h

  Keeps-save_counters : (changed : List ℤ) → Keeps (save_counters p changed)
  Keeps-save_counters changed r h =
      Preserves-bind IsWellFormed (lift (values_of p r.lib.database params_door_open_count))
        (λ totals. write_file p total_file totals >>= λ code.
          save_previous p code >>= λ code'. done (changed, code'))
        (λ r' h'. h')
        (λ totals.
          Preserves-bind IsWellFormed (write_file p total_file totals)
            (λ code. save_previous p code >>= λ code'. done (changed, code'))
            (Keeps-write_file total_file totals)
            (λ code.
              Preserves-bind IsWellFormed (save_previous p code) (λ code'. done (changed, code'))
                (Keeps-save_previous code) (λ code' r' h'. h')))
        r h

  abbrev save_or : List ℤ × Code → Method State (List ℤ × Code)
  save_or (changed, code) = if is_no_err code then save_counters p changed else done ([], code)

  Keeps-save_or : (result : List ℤ × Code) → Keeps (save_or result)
  Keeps-save_or (changed, code) =
      Preserves-if IsWellFormed (is_no_err code) (save_counters p changed) (done ([], code))
        (Keeps-save_counters changed) (λ r h. h)

  pub Keeps-counter_parameters :
      (response : Response) → Keeps (get_updated_open_door_counter_parameters p response)
  unfolding get_updated_open_door_counter_parameters
  Keeps-counter_parameters response r h =
      Preserves-bind IsWellFormed (on_lib (door_open_count_recalculate (unix_time r.port) response))
        save_or (Keeps-on_lib (door_open_count_recalculate (unix_time r.port) response))
        Keeps-save_or r h

  pub Keeps-as_response :
      (to : Json → Response) (m : Method State (Answer Json)) → Keeps m → Keeps (as_response p to m)
  Keeps-as_response to m hm =
      Preserves-on_answer IsWellFormed m (λ v. done (answer (to v))) hm (λ v r h. h)

  pub Keeps-file_response : (file_name : Text) → Keeps (file_response p file_name)
  unfolding file_response
  Keeps-file_response file_name =
      Preserves-on_answer IsWellFormed (read_1k_file p (file_name ∷ []))
        (λ (rsp, v). done (answer (items_of v))) (Keeps-read_1k_file p (file_name ∷ []))
        (λ (rsp, v) r h. h)
