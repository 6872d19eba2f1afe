-- ===== src/Rs232/Split/Kinds.antt =====
-- src/liftApi/rs232_handler.py: the frames by their entries, each kind for itself, and where
-- `__split_response` puts them.
use gateway_nexy.Base.{
  Bool, true, false, not, ◌&&◌, ◌||◌, Option, none, some, [], ◌≡◌, sym, ap, inl, inr, Bool-cases,
  arith, if◌then◌else◌, ◌∙◌,
}
use gateway_nexy.Base.Json.{
  Json, null, boolean, number, fraction, infinity, not_a_number, string, array, object, Fields,
  field_of, has_field, shows_as,
}
use gateway_nexy.Base.Text.{Text, text, text_eq, text_eq-eq, str_int}
use gateway_nexy.Rs232.Split.{
  Place, to_logs, to_vfd, to_status, to_saved, to_wanted, to_other, place_of, entry_shows,
}

-- Two places are the same.
abbrev pub same_place : Place → Place → Bool
same_place to_logs to_logs = true
same_place to_vfd to_vfd = true
same_place to_status to_status = true
same_place to_saved to_saved = true
same_place to_wanted to_wanted = true
same_place to_other to_other = true
same_place _ _ = false

-- A result of the frequency converter.
abbrev pub is_result : Fields → Bool
is_result rsp = entry_shows (text "cmd") (text "vfdResult") rsp

abbrev is_operation : Text → Fields → Bool
is_operation type rsp =
    entry_shows (text "cmd") (text "operation") rsp && entry_shows (text "type") type rsp

abbrev pub is_status : Fields → Bool
is_status rsp = is_operation (text "130") rsp

-- A door closing time.
abbrev pub is_notification : Fields → Bool
is_notification rsp = is_operation (text "135") rsp

-- Any other frame with the wanted command, and with the wanted type or no type.
abbrev pub is_wanted : Text → Text → Fields → Bool
is_wanted wanted_cmd wanted_type rsp =
    entry_shows (text "cmd") wanted_cmd rsp
    && (not (has_field (text "type") rsp)
        || (not (text_eq wanted_type []) && entry_shows (text "type") wanted_type rsp))
    && not (is_result rsp || is_status rsp || is_notification rsp)

abbrev pub is_other : Text → Text → Fields → Bool
is_other wanted_cmd wanted_type rsp =
    not (
      is_result rsp || is_status rsp || is_notification rsp || is_wanted wanted_cmd wanted_type rsp)

abbrev pub has_logs : Fields → Bool
has_logs rsp = has_field (text "logs") rsp

-- The kind that goes to a place.
abbrev pub is_kind : Place → Text → Text → Fields → Bool
is_kind to_logs wanted_cmd wanted_type rsp = has_logs rsp
is_kind to_vfd wanted_cmd wanted_type rsp = is_result rsp
is_kind to_status wanted_cmd wanted_type rsp = is_status rsp
is_kind to_saved wanted_cmd wanted_type rsp = is_notification rsp
is_kind to_wanted wanted_cmd wanted_type rsp = is_wanted wanted_cmd wanted_type rsp
is_kind to_other wanted_cmd wanted_type rsp = is_other wanted_cmd wanted_type rsp

shows_as-eq : (v : Json) (s t : Text) → shows_as v s ≡ true → shows_as v t ≡ true → s ≡ t
shows_as-eq (string u) s t h h' = sym (text_eq-eq u s h) ∙ text_eq-eq u t h'
shows_as-eq (number z) s t h h' = sym (text_eq-eq (str_int z) s h) ∙ text_eq-eq (str_int z) t h'
shows_as-eq null s t h h' = cc
shows_as-eq (boolean b) s t h h' = cc
shows_as-eq (fraction z k) s t h h' = cc
shows_as-eq (infinity negative) s t h h' = cc
shows_as-eq not_a_number s t h h' = cc
shows_as-eq (array xs) s t h h' = cc
shows_as-eq (object entries) s t h h' = cc

abbrev value_shows : Text → Option Json → Bool
value_shows s value = elim value [ none ↦ false | some v ↦ shows_as v s ]

value_shows-eq :
    (value : Option Json) (s t : Text)
    → value_shows s value ≡ true
    → value_shows t value ≡ true
    → s ≡ t
value_shows-eq none s t h h' = cc
value_shows-eq (some v) s t h h' = shows_as-eq v s t h h'

false-ne-true : {P : Type 0} → true ≡ false → P
false-ne-true e = cc

-- No frame is of two of the first three kinds.
result_or_operation :
    (rsp : Fields) → entry_shows (text "cmd") (text "operation") rsp ≡ true → is_result rsp ≡ false
result_or_operation rsp h = elim (Bool-cases (is_result rsp)) [
  | inr e ↦ e
  | inl e ↦ false-ne-true (
      ap (text_eq (text "operation"))
        (value_shows-eq (field_of (text "cmd") rsp) (text "operation") (text "vfdResult") h e))
]

status_or_notification :
    (rsp : Fields)
    → entry_shows (text "type") (text "130") rsp ≡ true
    → entry_shows (text "type") (text "135") rsp ≡ false
status_or_notification rsp h = elim (Bool-cases (entry_shows (text "type") (text "135") rsp)) [
  | inr e ↦ e
  | inl e ↦ false-ne-true (
      ap (text_eq (text "130"))
        (value_shows-eq (field_of (text "type") rsp) (text "130") (text "135") h e))
]

-- The place by what a frame shows: a result, an operation, the types 130 and 135, the wanted command,
-- the wanted type, any type.
abbrev place_by : Bool → Bool → Bool → Bool → Bool → Bool → Bool → Place
place_by result op status notif cmd type typed =
    if result
    then to_vfd
    else if op && (notif || status)
    then if status then to_status else to_saved
    else if cmd
    then if type then to_wanted else if not typed then to_wanted else to_other
    else to_other

abbrev wanted_by : Bool → Bool → Bool → Bool → Bool → Bool → Bool → Bool
wanted_by result op status notif cmd type typed =
    cmd && (not typed || type) && not (result || (op && status) || (op && notif))

abbrev kind_by : Place → Bool → Bool → Bool → Bool → Bool → Bool → Bool → Bool
kind_by to_logs result op status notif cmd type typed = false
kind_by to_vfd result op status notif cmd type typed = result
kind_by to_status result op status notif cmd type typed = op && status
kind_by to_saved result op status notif cmd type typed = op && notif
kind_by to_wanted result op status notif cmd type typed =
    wanted_by result op status notif cmd type typed
kind_by to_other result op status notif cmd type typed =
    not
      (result || (op && status) || (op && notif) || wanted_by result op status notif cmd type typed)

place_by-kind_by :
    (at : Place) (result op status notif cmd type typed : Bool)
    → (op ≡ true → result ≡ false)
    → (status ≡ true → notif ≡ false)
    → same_place (place_by result op status notif cmd type typed) at
      ≡ kind_by at result op status notif cmd type typed
place_by-kind_by to_logs result op status notif cmd type typed h h' = ground arith
place_by-kind_by to_vfd result op status notif cmd type typed h h' = ground arith
place_by-kind_by to_status result op status notif cmd type typed h h' = ground arith
place_by-kind_by to_saved result op status notif cmd type typed h h' = ground arith
place_by-kind_by to_wanted result op status notif cmd type typed h h' = ground arith
place_by-kind_by to_other result op status notif cmd type typed h h' = ground arith

place_of-kind_by :
    (at : Place) (wanted_cmd wanted_type : Text) (rsp : Fields)
    → has_logs rsp ≡ false
    → same_place (place_of wanted_cmd wanted_type rsp) at
      ≡ kind_by at
          (is_result rsp)
          (entry_shows (text "cmd") (text "operation") rsp)
          (entry_shows (text "type") (text "130") rsp)
          (entry_shows (text "type") (text "135") rsp)
          (entry_shows (text "cmd") wanted_cmd rsp)
          (not (text_eq wanted_type []) && entry_shows (text "type") wanted_type rsp)
          (has_field (text "type") rsp)
unfolding place_of
place_of-kind_by at wanted_cmd wanted_type rsp h = rw h (
    place_by-kind_by at (is_result rsp) (entry_shows (text "cmd") (text "operation") rsp)
      (entry_shows (text "type") (text "130") rsp) (entry_shows (text "type") (text "135") rsp)
      (entry_shows (text "cmd") wanted_cmd rsp)
      (not (text_eq wanted_type []) && entry_shows (text "type") wanted_type rsp)
      (has_field (text "type") rsp) (result_or_operation rsp) (status_or_notification rsp))

-- A frame with no logs goes to the place of its kind, and to no other.
pub place_of-is_kind :
    (at : Place) (wanted_cmd wanted_type : Text) (rsp : Fields)
    → has_logs rsp ≡ false
    → same_place (place_of wanted_cmd wanted_type rsp) at ≡ is_kind at wanted_cmd wanted_type rsp
place_of-is_kind to_logs wanted_cmd wanted_type rsp h =
    place_of-kind_by to_logs wanted_cmd wanted_type rsp h ∙ sym h
place_of-is_kind to_vfd wanted_cmd wanted_type rsp h =
    place_of-kind_by to_vfd wanted_cmd wanted_type rsp h
place_of-is_kind to_status wanted_cmd wanted_type rsp h =
    place_of-kind_by to_status wanted_cmd wanted_type rsp h
place_of-is_kind to_saved wanted_cmd wanted_type rsp h =
    place_of-kind_by to_saved wanted_cmd wanted_type rsp h
place_of-is_kind to_wanted wanted_cmd wanted_type rsp h =
    place_of-kind_by to_wanted wanted_cmd wanted_type rsp h
place_of-is_kind to_other wanted_cmd wanted_type rsp h =
    place_of-kind_by to_other wanted_cmd wanted_type rsp h
