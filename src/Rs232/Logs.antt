-- ===== src/Rs232/Logs.antt =====
-- src/liftApi/rs232_handler.py: the download of a log.
use gateway_nexy.Base.{
  Bool, true, false, not, ◌&&◌, ◌||◌, Option, none, some, List, [], ◌∷◌, if◌then◌else◌,
}
use gateway_nexy.Base.Int.{ℤ, pos}
use gateway_nexy.Base.Json.{Json, object, array, Jsons, nil, cons, Fields}
use gateway_nexy.Base.Text.{Text, text, text_eq, text_starts_with, int_of, int_of_hex}
use gateway_nexy.Codes.{
  Code, no_err, is_no_err, args_in_elem_int_err, args_in_len_err, data_type_err,
  log_file_already_exist, log_file_exception, log_file_io_err, no_updated_params,
}
use gateway_nexy.Thousand.Lookup.{get_param}
use gateway_nexy.Thousand.Virtual.{show_val}
use gateway_nexy.Rs232.Port.{
  Port, Method, done, Answer, answer, failed, on_answer, Written, written, io_error, other_error,
}
use gateway_nexy.Rs232.Split.{Wanted, frames, logs_frame}
use gateway_nexy.Rs232.Requests.{request}

-- `'0x' in s`
abbrev has_0x : Text → Bool
has_0x [] = false
has_0x (c ∷ s) = text_starts_with (c ∷ s) (text "0x") || has_0x s

abbrev is_read : Option ℤ → Bool
is_read none = false
is_read (some z) = true

-- Whether `int` reads an argument.
unfoldable reads_int : Text → Bool
unfolding int_of int_of_hex
reads_int s = is_read (if has_0x s then int_of_hex s else int_of s)

-- `__validate_input_filetype` with two arguments expected.
unfoldable pub validate_input_filetype : List Text → Code
unfolding reads_int
validate_input_filetype (a ∷ b ∷ []) =
    if reads_int a && reads_int b then no_err else args_in_elem_int_err
validate_input_filetype _ = args_in_len_err

abbrev objects_of : List Fields → Jsons
objects_of [] = nil
objects_of (rsp ∷ rest) = cons (object rsp) (objects_of rest)

-- What is written: the frame with logs, or the list of wanted frames.
abbrev logged_value : Wanted → Json
logged_value (logs_frame rsp) = object rsp
logged_value (frames rsps) = array (objects_of rsps)

abbrev log_result : Text → Written → Answer Text
log_result path written = answer path
log_result path io_error = failed log_file_io_err
log_result path other_error = failed log_file_exception

module _ (p : Port) where
  open p use {State, dumps, log_directory, log_path, is_file, write_text}

  -- The writing to a file that does not exist.
  unfoldable pub write_new_log : Text → Wanted → Method State (Answer Text)
  write_new_log path wanted r =
      if is_file path r.port
      then (some (failed log_file_already_exist), r)
      else (let (result, s) = write_text path (dumps (logged_value wanted)) r.port in
          (some (log_result path result), record r { port = s }))

  abbrev log_of_object : Wanted → Method State (Answer Text)
  unfolding write_new_log get_param
  log_of_object wanted r =
      let (object_id, code) = get_param r.lib.database (pos 0) in
      if is_no_err code
      then write_new_log (log_path (show_val object_id) r.port) wanted r
      else (some (failed no_updated_params), r)

  -- `__write_log_to_file`
  unfoldable pub write_log_to_file : Wanted → Method State (Answer Text)
  unfolding log_of_object
  write_log_to_file wanted r =
      let (there, s) = log_directory r.port in
      if there
      then log_of_object wanted (record r { port = s })
      else (some (failed log_file_io_err), record r { port = s })

  abbrev log_request : Text → Text → Method State (Answer Text)
  unfolding request write_log_to_file
  log_request file_type blocks =
      if not (text_eq file_type (text "0x10"))
      then done (failed data_type_err)
      else (on_answer (request p (text "logfile" ∷ (blocks ∷ [])) true (text "logfile") [])
          (λ split. write_log_to_file split.wanted))

  -- `get_logfile`: the file's name.
  unfoldable pub get_logfile : List Text → Method State (Answer Text)
  unfolding validate_input_filetype log_request
  get_logfile (file_type ∷ blocks ∷ []) =
      if is_no_err (validate_input_filetype (file_type ∷ (blocks ∷ [])))
      then log_request file_type blocks
      else done (failed args_in_elem_int_err)
  get_logfile args = done (failed (validate_input_filetype args))
