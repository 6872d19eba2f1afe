-- ===== src/Rs232/Keeping/Polling.antt =====
-- src/liftApi/rs232_handler.py: a poll keeps the handler's attributes well-formed.
use gateway_nexy.Base.{false, Option, none, some, List, [], ◌∷◌, ◌++◌, if◌then◌else◌}
use gateway_nexy.Base.Text.{Text, text, text_eq}
use gateway_nexy.Codes.{no_err, is_no_err, partial_err}
use gateway_nexy.Thousand.Signals.{Response}
use gateway_nexy.Thousand.Doors.{reset_door_closing_time_params}
use gateway_nexy.Thousand.Updates.{get_updated_params}
use gateway_nexy.Rs232.Port.{Port, Method, done, ◌>>=◌, ◌>>◌, Answer, answer, failed}
use gateway_nexy.Rs232.Commands.{text_in, generic_texts}
use gateway_nexy.Rs232.Serial.{pause}
use gateway_nexy.Rs232.Requests.{get_generic_text, get_ar_version}
use gateway_nexy.Rs232.Vfd.{get_vfd_motor_data}
use gateway_nexy.Rs232.Packages.{
  on_lib, get_door_open_count, get_updated_open_door_counter_parameters, get_notification,
}
use gateway_nexy.Rs232.Versions.{
  check_if_above_or_equal_to_versions, door_open_count_version_limits,
}
use gateway_nexy.Rs232.Poll.{
  Polled, poll_package, as_response, items_of, text_item, is_door_count, file_of, file_or_operation,
  polled_after, is_skipped, package_params, poll_packages, stops_poll, poll_rest, poll_reply,
  with_new, virtual_params, reset_closing_times, poll_all, poll_result, negated,
}
use gateway_nexy.Rs232.Keeping.{IsWellFormed, Preserves-bind, Preserves-if, if_keeps, Keeps}
use gateway_nexy.Rs232.Keeping.Reading.{Keeps-pause}
use gateway_nexy.Rs232.Keeping.Requests.{
  Keeps-on_database, Keeps-on_lib, Keeps-get_generic_text, Keeps-get_ar_version,
  Keeps-get_operation_package,
}
use gateway_nexy.Rs232.Keeping.Counters.{
  Keeps-get_vfd_motor_data, Keeps-get_notification, Keeps-get_door_open_count,
  Keeps-counter_parameters, Keeps-as_response, Keeps-file_response,
}

module _ (p : Port) where
  open p use {State, unix_time}

  Keeps-file_or_operation :
      (file : Option Text) (name : Text) → Keeps (file_or_operation p file name)
  unfolding file_or_operation
  Keeps-file_or_operation (some file_name) name = Keeps-file_response p file_name
  Keeps-file_or_operation none name = Keeps-get_operation_package p name

  Keeps-poll_package : (name : Text) → Keeps (poll_package p name)
  unfolding poll_package
  Keeps-poll_package name =
      Preserves-if IsWellFormed (text_in name generic_texts)
        (as_response p text_item (get_generic_text p name))
        (if text_eq name (text "version")
          then as_response p items_of (get_ar_version p)
          else if is_door_count name
          then as_response p items_of (get_door_open_count p)
          else file_or_operation p (file_of name) name)
        (Keeps-as_response p text_item (get_generic_text p name) (Keeps-get_generic_text p name))
        (Preserves-if IsWellFormed (text_eq name (text "version"))
          (as_response p items_of (get_ar_version p))
          (if is_door_count name
            then as_response p items_of (get_door_open_count p)
            else file_or_operation p (file_of name) name)
          (Keeps-as_response p items_of (get_ar_version p) (Keeps-get_ar_version p))
          (Preserves-if IsWellFormed (is_door_count name)
            (as_response p items_of (get_door_open_count p))
            (file_or_operation p (file_of name) name)
            (Keeps-as_response p items_of (get_door_open_count p) (Keeps-get_door_open_count p))
            (Keeps-file_or_operation (file_of name) name)))

  Keeps-is_skipped : (name : Text) → Keeps (is_skipped p name)
  unfolding is_skipped
  Keeps-is_skipped name r h =
      if_keeps IsWellFormed (is_door_count name)
        (
          negated
              (check_if_above_or_equal_to_versions door_open_count_version_limits r.lib.database),
          r,
        )
        (some false, r) h h

  Keeps-package_params :
      (name : Text) (response : Response) → Keeps (package_params p name response)
  unfolding package_params
  Keeps-package_params name response r h =
      if_keeps IsWellFormed (is_door_count name)
        ((get_updated_open_door_counter_parameters p response >>= λ (new, code). done (new, no_err))
          r)
        (on_lib (get_updated_params (unix_time r.port) name response) r)
        (Preserves-bind IsWellFormed (get_updated_open_door_counter_parameters p response)
          (λ (new, code). done (new, no_err)) (Keeps-counter_parameters p response)
          (λ (new, code) r' h'. h') r h)
        (Keeps-on_lib (get_updated_params (unix_time r.port) name response) r h)

  Keeps-polled_after :
      (name : Text) (polled : Polled) (continue : Polled → Method State (Answer Polled))
      (reply : Answer Response)
      → ((polled' : Polled) → Keeps (continue polled'))
      → Keeps (polled_after p name polled continue reply)
  unfolding polled_after
  Keeps-polled_after name (params, err_code) continue (failed code) hc =
      Preserves-if IsWellFormed (stops_poll code) (done (failed code))
        (continue (params, partial_err)) (λ r h. h) (hc (params, partial_err))
  Keeps-polled_after name (params, err_code) continue (answer response) hc =
      Preserves-bind IsWellFormed (package_params p name response)
        (λ (new, latest).
          if is_no_err latest
          then continue (params ++ new, err_code)
          else continue (params, partial_err))
        (Keeps-package_params name response)
        (λ (new, latest).
          Preserves-if IsWellFormed (is_no_err latest) (continue (params ++ new, err_code))
            (continue (params, partial_err)) (hc (params ++ new, err_code))
            (hc (params, partial_err)))

  Keeps-poll_packages :
      (packages : List Text) (polled : Polled) → Keeps (poll_packages p packages polled)
  unfolding poll_packages
  Keeps-poll_packages [] polled = λ r h. h
  Keeps-poll_packages (name ∷ packages) polled =
      Preserves-bind IsWellFormed (is_skipped p name)
        (λ skipped.
          if skipped
          then poll_packages p packages polled
          else pause p
            >> (poll_package p name >>= polled_after p name polled (poll_packages p packages)))
        (Keeps-is_skipped name)
        (λ skipped.
          Preserves-if IsWellFormed skipped (poll_packages p packages polled)
            (pause p
              >> (poll_package p name >>= polled_after p name polled (poll_packages p packages)))
            (Keeps-poll_packages packages polled)
            (Preserves-bind IsWellFormed (pause p)
              (λ _. poll_package p name >>= polled_after p name polled (poll_packages p packages))
              (Keeps-pause p)
              (λ _.
                Preserves-bind IsWellFormed (poll_package p name)
                  (polled_after p name polled (poll_packages p packages)) (Keeps-poll_package name)
                  (λ reply.
                    Keeps-polled_after name polled (poll_packages p packages) reply
                      (Keeps-poll_packages packages)))))

  Keeps-virtual_params : Keeps (virtual_params p)
  unfolding virtual_params
  Keeps-virtual_params r h =
      Keeps-on_lib (get_updated_params (unix_time r.port) (text "virtual") []) r h

  Keeps-poll_rest : (polled : Polled) → Keeps (poll_rest p polled)
  unfolding poll_rest
  Keeps-poll_rest polled =
      Preserves-bind IsWellFormed (virtual_params p)
        (λ virtual. get_notification p >>= λ notified. get_vfd_motor_data >>= λ motor.
          done (poll_reply (with_new (with_new (with_new polled virtual) notified) motor)))
        Keeps-virtual_params
        (λ virtual.
          Preserves-bind IsWellFormed (get_notification p)
            (λ notified. get_vfd_motor_data >>= λ motor.
              done (poll_reply (with_new (with_new (with_new polled virtual) notified) motor)))
            (Keeps-get_notification p)
            (λ notified.
              Preserves-bind IsWellFormed get_vfd_motor_data
                (λ motor.
                  done (poll_reply (with_new (with_new (with_new polled virtual) notified) motor)))
                Keeps-get_vfd_motor_data (λ motor r h. h)))

  Keeps-poll_result : (result : Answer Polled) → Keeps (poll_result p result)
  unfolding poll_result
  Keeps-poll_result (failed code) = λ r h. h
  Keeps-poll_result (answer polled) = Keeps-poll_rest polled

  Keeps-reset_closing_times : Keeps {S = State} (reset_closing_times p)
  unfolding reset_closing_times
  Keeps-reset_closing_times =
      Keeps-on_database
        (λ db. elim (reset_door_closing_time_params db) [ none ↦ none | some db' ↦ some (tt, db') ])

  pub Keeps-poll_all : (packages : List Text) → Keeps (poll_all p packages)
  unfolding poll_all
  Keeps-poll_all packages =
      Preserves-bind IsWellFormed (reset_closing_times p)
        (λ _. poll_packages p packages ([], no_err) >>= poll_result p) Keeps-reset_closing_times
        (λ _.
          Preserves-bind IsWellFormed (poll_packages p packages ([], no_err)) (poll_result p)
            (Keeps-poll_packages packages ([], no_err)) Keeps-poll_result)
