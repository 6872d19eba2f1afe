-- ===== src/Rs232/Split.antt =====
-- src/liftApi/rs232_handler.py: `__split_response` and `get_signal_from_serial_buffer`.
pub mod Kinds
pub mod Queue
pub mod Sorting
pub mod Decoding
use gateway_nexy.Base.{
  ℕ, zero, suc, ◌+◌, Bool, true, false, not, ◌&&◌, ◌||◌, Option, none, some, List, [], ◌∷◌, ◌++◌,
  length, ltb, if◌then◌else◌,
}
use gateway_nexy.Base.Json.{Json, Fields, field_of, has_field, is_text, shows_as}
use gateway_nexy.Base.Text.{Text, text, text_eq, is_space}
use gateway_nexy.Codes.{Code, arg_type_err, partial_err, serial_com_err}
use gateway_nexy.Rs232.Port.{
  Port, Rs232, Method, done, raise, ◌>>=◌, ◌>>◌, Answer, answer, failed, on_answer,
}
use gateway_nexy.Rs232.Frames.{Frame, valid, invalid, raised, decode_and_validate}
use gateway_nexy.Rs232.Serial.{read_serial, pause, serial_total_timeout}

-- `rsp_wanted`: a list of frames, or a frame with logs that has taken its place.
pub data Wanted : Type 0 where
  frames : List Fields → Wanted
  logs_frame : Fields → Wanted

-- The three lists.
pub record Split : Type 0 where
  pub status : List Fields
  pub wanted : Wanted
  pub other : List Fields

abbrev pub no_split : Split
no_split = record { status = []; wanted = frames []; other = [] }

abbrev pub skip_spaces : Text → Text
skip_spaces [] = []
skip_spaces (c ∷ rsp) = elim (is_space c) [ true ↦ skip_spaces rsp | false ↦ c ∷ rsp ]

abbrev pub status_type : Text
status_type = text "130"

abbrev pub door_closing_time_type : Text
door_closing_time_type = text "135"

-- `str(frame[name]) == s`, with `false` where there is no such entry.
abbrev pub entry_shows : Text → Text → Fields → Bool
entry_shows name s fields = elim (field_of name fields) [ none ↦ false | some v ↦ shows_as v s ]

abbrev pub max_saved_vfd_results : ℕ
max_saved_vfd_results = 50

-- `append` to a `deque(maxlen=50)`
abbrev pub without_first : List Fields → List Fields
without_first [] = []
without_first (_ ∷ saved) = saved

unfoldable pub push_vfd : Fields → List Fields → List Fields
push_vfd fields saved =
    if ltb (length saved) max_saved_vfd_results
    then saved ++ (fields ∷ [])
    else without_first (saved ++ (fields ∷ []))

-- Where a frame goes.
pub data Place : Type 0 where
  to_logs to_vfd to_status to_saved to_wanted to_other : Place

-- A frame with no logs and no result of the frequency converter.
abbrev pub place_of_cmd : Text → Text → Fields → Place
place_of_cmd wanted_cmd wanted_type fields =
    if entry_shows (text "cmd") (text "operation") fields
      && (entry_shows (text "type") door_closing_time_type fields
          || entry_shows (text "type") status_type fields)
    then if entry_shows (text "type") status_type fields then to_status else to_saved
    else if entry_shows (text "cmd") wanted_cmd fields
    then if not (text_eq wanted_type []) && entry_shows (text "type") wanted_type fields
      then to_wanted
      else if not (has_field (text "type") fields)
      then to_wanted
      else to_other
    else to_other

unfoldable pub place_of : Text → Text → Fields → Place
place_of wanted_cmd wanted_type fields =
    if has_field (text "logs") fields
    then to_logs
    else if entry_shows (text "cmd") (text "vfdResult") fields
    then to_vfd
    else place_of_cmd wanted_cmd wanted_type fields

-- `rsp_wanted.append(rsp)`, which a dict does not have.
abbrev pub add_wanted : Fields → Split → Option Split
add_wanted fields split = elim split.wanted [
  | frames wanted ↦ some (record split { wanted = frames (wanted ++ (fields ∷ [])) })
  | logs_frame logs ↦ none
]

module _ {S : Type 0} where
  unfoldable pub put_frame : Place → Fields → Split → Method S Split
  unfolding push_vfd
  put_frame to_logs fields split r = (some (record split { wanted = logs_frame fields }), r)
  put_frame to_vfd fields split r =
      (some split, record r { saved_vfd_results = push_vfd fields r.saved_vfd_results })
  put_frame to_status fields split r =
      (some (record split { status = split.status ++ (fields ∷ []) }), r)
  put_frame to_saved fields split r = (
    some split,
    record r { saved_operation_notifications = r.saved_operation_notifications ++ (fields ∷ []) },
  )
  put_frame to_wanted fields split r = (add_wanted fields split, r)
  put_frame to_other fields split r =
      (some (record split { other = split.other ++ (fields ∷ []) }), r)

  -- The loop over the frames.
  unfoldable pub sort_frames : Text → Text → List Fields → Split → Method S Split
  unfolding put_frame
  sort_frames wanted_cmd wanted_type [] split = done split
  sort_frames wanted_cmd wanted_type (fields ∷ rsp_dec) split =
      put_frame (place_of wanted_cmd wanted_type fields) fields split >>= λ split'.
      sort_frames wanted_cmd wanted_type rsp_dec split'

-- What the loop that validates gives: the frames before the first one with a code, and that code;
-- `none` is an exception.
abbrev pub Validated : Type 0
Validated = List Fields × Option Code

abbrev pub with_frame : Fields → Option Validated → Option Validated
with_frame rsp none = none
with_frame rsp (some (rsp_dec, code)) = some (rsp ∷ rsp_dec, code)

unfoldable pub validate_frames : (Text → Option Json) → List Json → Option Validated
unfolding decode_and_validate
validate_frames loads [] = some ([], none)
validate_frames loads (rsp ∷ rsp_json) = elim (decode_and_validate loads rsp) [
  | raised ↦ none
  | invalid code ↦ some ([], some code)
  | valid fields ↦ with_frame fields (validate_frames loads rsp_json)
]

-- The frames of a response, one after the other; `none` is an exception of `raw_decode`.
unfoldable pub decode_frames : (Text → Option (Json × Text)) → ℕ → Text → Option (List Json)
decode_frames raw_decode fuel [] = some []
decode_frames raw_decode zero (c ∷ rsp) = none
decode_frames raw_decode (suc fuel) (c ∷ rsp) = elim (raw_decode (c ∷ rsp)) [
  | none ↦ none
  | some (value, rest) ↦ elim (decode_frames raw_decode fuel (skip_spaces rest)) [
    | none ↦ none
    | some values ↦ some (value ∷ values)
  ]
]

abbrev pub is_missing : Wanted → Bool
is_missing (frames []) = true
is_missing _ = false

abbrev pub no_frames : List Fields → Bool
no_frames [] = true
no_frames (_ ∷ _) = false

-- Whether the serial buffer is read again.
abbrev pub reads_again : Text → Split → Bool
reads_again wanted_type split =
    if text_eq wanted_type status_type then no_frames split.status else is_missing split.wanted

module _ (p : Port) where
  open p use {State, now, loads, raw_decode}

  unfoldable pub sorted : Text → Text → Option Validated → Method State (Answer Split)
  unfolding sort_frames
  sorted wanted_cmd wanted_type none r = raise r
  sorted wanted_cmd wanted_type (some (rsp_dec, code)) r =
      (sort_frames wanted_cmd wanted_type rsp_dec no_split >>= λ split.
      done (elim code [ none ↦ answer split | some c ↦ failed c ]))
        r

  -- What follows the decoding.
  unfoldable pub split_frames : Text → Text → Option (List Json) → Method State (Answer Split)
  unfolding validate_frames sorted
  split_frames wanted_cmd wanted_type none = done (failed arg_type_err)
  split_frames wanted_cmd wanted_type (some rsp_json) =
      sorted wanted_cmd wanted_type (validate_frames loads rsp_json)

  -- `__split_response`; with a code the lists are left out.
  unfoldable pub split_response : Text → Text → Text → Method State (Answer Split)
  unfolding decode_frames split_frames
  split_response [] wanted_cmd wanted_type = done (failed arg_type_err)
  split_response (c ∷ cs) wanted_cmd wanted_type =
      if text_eq wanted_cmd (text "operation") && text_eq wanted_type []
      then done (failed arg_type_err)
      else split_frames wanted_cmd wanted_type (decode_frames raw_decode (length (c ∷ cs)) (c ∷ cs))

  -- The rounds that are left, with what other frames were found and whether the wanted ones are
  -- missing.
  unfoldable pub signal_rounds :
      ℕ → ℕ → Text → Text → List Fields → Bool → Method State (Answer Split)
  unfolding read_serial split_response
  signal_rounds zero deadline wanted_cmd wanted_type other_out missing = done (
      failed (
        if text_eq wanted_cmd (text "getOpenCount") && missing
        then partial_err
        else serial_com_err))
  signal_rounds (suc n) deadline wanted_cmd wanted_type other_out missing =
      on_answer (read_serial p deadline) (λ full_resp.
        on_answer (split_response full_resp wanted_cmd wanted_type) (λ split.
          if reads_again wanted_type split
          then pause p
            >> signal_rounds n deadline wanted_cmd wanted_type (other_out ++ split.other)
                (is_missing split.wanted)
          else done (answer (record split { other = other_out ++ split.other }))))

  -- `get_signal_from_serial_buffer`
  unfoldable pub get_signal : Text → Text → Method State (Answer Split)
  unfolding signal_rounds
  get_signal wanted_cmd wanted_type r =
      signal_rounds 5 (now r.port + serial_total_timeout) wanted_cmd wanted_type [] true r
