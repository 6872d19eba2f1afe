-- ===== src/Rs232/Poll.antt =====
-- src/liftApi/rs232_handler.py: the polling of the whole lift.
pub mod Stuck
use gateway_nexy.Base.{
  ℕ, suc, Bool, true, false, not, ◌&&◌, ◌||◌, Option, none, some, List, [], ◌∷◌, ◌++◌, ltb,
  get_elem?, if◌then◌else◌,
}
use gateway_nexy.Base.Int.{ℤ, pos, negsuc}
use gateway_nexy.Base.Json.{Json, string, array}
use gateway_nexy.Base.Text.{Text, text, text_eq, str_int}
use gateway_nexy.Codes.{
  Code, no_err, is_no_err, arg_type_err, args_in_len_err, no_updated_params, partial_err,
}
use gateway_nexy.Modbus.Registers.{Val, str, int}
use gateway_nexy.Thousand.Signals.{Response}
use gateway_nexy.Thousand.Doors.{reset_door_closing_time_params}
use gateway_nexy.Thousand.Updates.{get_updated_params}
use gateway_nexy.Rs232.Port.{
  Port, Rs232, Method, done, raise, lift, ◌>>=◌, ◌>>◌, Answer, answer, failed, on_answer,
}
use gateway_nexy.Rs232.Commands.{text_in, generic_texts}
use gateway_nexy.Rs232.Serial.{pause}
use gateway_nexy.Rs232.Requests.{
  get_generic_text, get_ar_version, read_1k_file, to_response, to_item,
}
use gateway_nexy.Rs232.Versions.{
  check_if_above_or_equal_to_versions, door_open_count_version_limits,
}
use gateway_nexy.Rs232.Vfd.{get_vfd_motor_data, on_database}
use gateway_nexy.Rs232.Packages.{
  get_operation_package, get_door_open_count, get_updated_open_door_counter_parameters,
  get_notification, on_lib,
}

abbrev pub file_packages : List Text
file_packages =
    text "readFileParam"
    ∷ text "readFileIntern"
    ∷ text "readFileNode"
    ∷ text "readFileLock"
    ∷ text "readFileDoor"
    ∷ []

abbrev pub always_polled_packages : List Text
always_polled_packages =
    text "liftRef1"
    ∷ text "liftRef2"
    ∷ text "liftName"
    ∷ text "version"
    ∷ text "130"
    ∷ text "2"
    ∷ text "131"
    ∷ text "134"
    ∷ text "133"
    ∷ text "doorOpenCount"
    ∷ []

-- The file that a package reads.
abbrev pub file_of : Text → Option Text
file_of package_id =
    if text_eq package_id (text "readFileParam")
    then some (text "/aritco/param")
    else if text_eq package_id (text "readFileIntern")
    then some (text "/aritco/intern")
    else if text_eq package_id (text "readFileNode")
    then some (text "/aritco/node")
    else if text_eq package_id (text "readFileLock")
    then some (text "/aritco/lock")
    else if text_eq package_id (text "readFileDoor")
    then some (text "/aritco/door")
    else none

-- The characters of a text, each a text.
abbrev chars_of : Text → Response
chars_of [] = []
chars_of (c ∷ s) = str (c ∷ []) ∷ chars_of s

-- A value whose items are read: a list or a text; of another one no item can be read.
abbrev pub items_of : Json → Response
items_of (array xs) = to_response xs
items_of (string s) = chars_of s
items_of _ = []

-- `[value]` of a generic text; what is no text makes the unpacking raise, as a number does.
abbrev pub text_item : Json → Response
text_item (string s) = str s ∷ []
text_item _ = int (negsuc 0) ∷ []

abbrev pub stops_poll : Code → Bool
stops_poll Code.no_waiting_bytes_err = true
stops_poll Code.serial_com_err = true
stops_poll _ = false

abbrev pub is_door_count : Text → Bool
is_door_count package_id = text_eq package_id (text "doorOpenCount")

-- `'x'.join(str(elem) for elem in params)`
unfoldable pub join_params : List ℤ → Text
join_params [] = []
join_params (q ∷ []) = str_int q
join_params (q ∷ r ∷ params) = str_int q ++ (b'x' ∷ join_params (r ∷ params))

-- What a poll has so far: the parameters and the code.
abbrev pub Polled : Type 0
Polled = List ℤ × Code

-- The new parameters of a step after the packages, which count even with an error.
abbrev pub with_new : Polled → Polled → Polled
with_new (params, err_code) (new, latest) =
    (params ++ new, (if is_no_err latest then err_code else partial_err))

-- The reply of a poll.
unfoldable pub poll_reply : Polled → Val × Code
unfolding join_params
poll_reply ([], err_code) =
    (str (text "0"), (if is_no_err err_code then no_updated_params else err_code))
poll_reply (q ∷ params, err_code) = (str (join_params (q ∷ params)), err_code)

-- The packages of a poll with the next `polled_file_package`; `none` is an `IndexError`.
unfoldable pub polled_packages : Bool → ℕ → Option (List Text × ℕ)
polled_packages true i = some (always_polled_packages ++ file_packages, i)
polled_packages false i = elim (get_elem? file_packages i) [
  | none ↦ none
  | some package_id ↦
      some (always_polled_packages ++ (package_id ∷ []), (if ltb (suc i) 5 then suc i else 0))
]

abbrev pub negated : Option Bool → Option Bool
negated none = none
negated (some reached) = some (not reached)

module _ (p : Port) where
  open p use {State, unix_time}

  abbrev pub as_response :
      (Json → Response) → Method State (Answer Json) → Method State (Answer Response)
  as_response to m = on_answer m (λ v. done (answer (to v)))

  unfoldable pub file_response : Text → Method State (Answer Response)
  unfolding read_1k_file
  file_response file_name =
      on_answer (read_1k_file p (file_name ∷ [])) (λ (rsp, v). done (answer (items_of v)))

  -- A package that is a file, or an operation.
  unfoldable pub file_or_operation : Option Text → Text → Method State (Answer Response)
  unfolding file_response get_operation_package
  file_or_operation (some file_name) package_id = file_response file_name
  file_or_operation none package_id = get_operation_package p package_id

  -- The response of a package.
  unfoldable pub poll_package : Text → Method State (Answer Response)
  unfolding get_generic_text get_ar_version get_door_open_count file_or_operation
  poll_package package_id =
      if text_in package_id generic_texts
      then as_response text_item (get_generic_text p package_id)
      else if text_eq package_id (text "version")
      then as_response items_of (get_ar_version p)
      else if is_door_count package_id
      then as_response items_of (get_door_open_count p)
      else file_or_operation (file_of package_id) package_id

  -- Whether a package is left out.
  unfoldable pub is_skipped : Text → Method State Bool
  unfolding check_if_above_or_equal_to_versions
  is_skipped package_id r =
      if is_door_count package_id
      then (
        negated (check_if_above_or_equal_to_versions door_open_count_version_limits r.lib.database),
        r,
      )
      else (some false, r)

  -- The parameters that a response changes. Of the door counters the code is not used.
  unfoldable pub package_params : Text → Response → Method State Polled
  unfolding get_updated_open_door_counter_parameters get_updated_params
  package_params package_id response r =
      if is_door_count package_id
      then (get_updated_open_door_counter_parameters p response >>= λ (new, code).
            done (new, no_err))
          r
      else on_lib (get_updated_params (unix_time r.port) package_id response) r

  -- What follows the answer to a package.
  unfoldable pub polled_after :
      Text
      → Polled
      → (Polled → Method State (Answer Polled))
      → Answer Response
      → Method State (Answer Polled)
  unfolding package_params
  polled_after package_id (params, err_code) continue (failed code) =
      if stops_poll code then done (failed code) else continue (params, partial_err)
  polled_after package_id (params, err_code) continue (answer response) =
      package_params package_id response >>= λ (new, latest).
      if is_no_err latest
      then continue (params ++ new, err_code)
      else continue (params, partial_err)

  -- The loop over the packages; `failed` where the poll stops.
  unfoldable pub poll_packages : List Text → Polled → Method State (Answer Polled)
  unfolding poll_package is_skipped polled_after
  poll_packages [] polled = done (answer polled)
  poll_packages (package_id ∷ packages) polled = is_skipped package_id >>= λ skipped.
      if skipped
      then poll_packages packages polled
      else pause p
        >> (poll_package package_id >>= polled_after package_id polled (poll_packages packages))

  unfoldable pub virtual_params : Method State Polled
  unfolding get_updated_params
  virtual_params r = on_lib (get_updated_params (unix_time r.port) (text "virtual") []) r

  -- What follows the packages.
  unfoldable pub poll_rest : Polled → Method State (Val × Code)
  unfolding virtual_params get_notification get_vfd_motor_data poll_reply
  poll_rest polled = virtual_params >>= λ virtual. get_notification p >>= λ notified.
      get_vfd_motor_data >>= λ motor.
      done (poll_reply (with_new (with_new (with_new polled virtual) notified) motor))

  unfoldable pub reset_closing_times : Method State (Unit {0})
  unfolding reset_door_closing_time_params
  reset_closing_times =
      on_database
        (λ db. elim (reset_door_closing_time_params db) [ none ↦ none | some db' ↦ some (tt, db') ])

  unfoldable pub poll_result : Answer Polled → Method State (Val × Code)
  unfolding poll_rest
  poll_result (failed code) = done (int (negsuc 0), code)
  poll_result (answer polled) = poll_rest polled

  unfoldable pub poll_all : List Text → Method State (Val × Code)
  unfolding poll_packages poll_result reset_closing_times
  poll_all packages = reset_closing_times >> (poll_packages packages ([], no_err) >>= poll_result)

  unfoldable pub poll_of : Option (List Text × ℕ) → Method State (Val × Code)
  unfolding poll_all
  poll_of none r = (none, r)
  poll_of (some (packages, i)) r = poll_all packages (record r { polled_file_package = i })

  -- `poll_lift`
  unfoldable pub poll_lift : List Text → Method State (Val × Code)
  unfolding polled_packages poll_of
  poll_lift (poll_type ∷ []) r =
      if text_eq poll_type (text "1")
      then poll_of (polled_packages true r.polled_file_package) r
      else if text_eq poll_type (text "0")
      then poll_of (polled_packages false r.polled_file_package) r
      else (some (int (negsuc 0), arg_type_err), r)
  poll_lift _ r = (some (int (negsuc 0), args_in_len_err), r)
