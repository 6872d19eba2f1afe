-- ===== src/Rs232/Vfd.antt =====
-- src/liftApi/rs232_handler.py: the frequency converter's requests and results.
use gateway_nexy.Base.{false, Option, none, some, List, [], ◌∷◌, ◌++◌, if◌then◌else◌}
use gateway_nexy.Base.Int.{ℤ, pos}
use gateway_nexy.Base.IntDict.{elem}
use gateway_nexy.Base.Json.{Json, string, number, Fields, field_of, is_number}
use gateway_nexy.Base.Text.{Text, text}
use gateway_nexy.Codes.{
  Code, no_err, is_no_err, args_in_len_err, json_value_type_err, vfd_id_err, vfd_no_pwr_err,
  vfd_timeout_err,
}
use gateway_nexy.Thousand.Protocol.{Database}
use gateway_nexy.Thousand.Packages.{params_vfd_result}
use gateway_nexy.Thousand.Vfd.{update_vfd_params}
use gateway_nexy.Rs232.Port.{Port, Method, done, ◌>>=◌, ◌>>◌, Answer, answer, failed, on_answer}
use gateway_nexy.Rs232.Split.{Wanted}
use gateway_nexy.Rs232.Requests.{first_entry, replace, request, truthy}

-- `response.replace(",", "-")` of a text; of another value itself, and -1 where it is empty.
abbrev shown_vfd_id : Option Json → Json
shown_vfd_id none = number (ℤ.negsuc 0)
shown_vfd_id (some (string s)) =
    if truthy (string s) then string (replace b',' b'-' s) else number (ℤ.negsuc 0)
shown_vfd_id (some v) = if truthy v then v else number (ℤ.negsuc 0)

-- The error of a frame, where -1 stands for a missing one: `0`, `1`, `2` or another.
abbrev vfd_err : Option Json → Code → Code → Code
vfd_err none err_1 err_2 = json_value_type_err
vfd_err (some e) err_1 err_2 =
    if is_number e (pos 0)
    then no_err
    else if is_number e (pos 1)
    then err_1
    else if is_number e (pos 2)
    then err_2
    else json_value_type_err

-- Of a frame: an entry, then its error.
abbrev error_after : Text → Wanted → Option Json
error_after name wanted = elim (first_entry name wanted) [
  | none ↦ none
  | some _ ↦ first_entry (text "error") wanted
]

-- `id` and `data` of a saved result; `none` is an exception.
abbrev pub vfd_result : Fields → Option (Json × Json)
vfd_result rsp = elim (field_of (text "id") rsp) [
  | none ↦ none
  | some id ↦ elim (field_of (text "data") rsp) [ none ↦ none | some v ↦ some (id, v) ]
]

module _ (p : Port) where
  open p use {State}

  -- `set_vfd_id_1k`: the response and its code, which may both be given.
  unfoldable pub set_vfd_id_1k : List Text → Method State (Answer (Json × Code))
  unfolding request
  set_vfd_id_1k (in_data ∷ []) =
      on_answer
        (request p (text "vfdId" ∷ (replace b'-' b',' in_data ∷ [])) false (text "vfdId") [])
        (λ split. done (
          answer (
            shown_vfd_id (first_entry (text "data") split.wanted),
            vfd_err (error_after (text "data") split.wanted) vfd_timeout_err vfd_no_pwr_err,
          )))
  set_vfd_id_1k _ = done (failed args_in_len_err)

  abbrev coded : Code → Answer (Unit {0})
  coded code = if is_no_err code then answer tt else failed code

  -- `set_vfd_read_1k`
  unfoldable pub set_vfd_read_1k : List Text → Method State (Answer (Unit {0}))
  unfolding request
  set_vfd_read_1k (id ∷ in_data ∷ interval ∷ []) =
      on_answer
        (request p (text "vfdRead" ∷ (id ∷ (replace b'-' b',' in_data ∷ (interval ∷ [])))) false
          (text "vfdRead") [])
        (λ split.
          done
            (coded (vfd_err (error_after (text "id") split.wanted) vfd_id_err json_value_type_err)))
  set_vfd_read_1k _ = done (failed args_in_len_err)

-- An id as a number; the ids from 4 on are not used.
abbrev vfd_number : Json → ℤ
vfd_number id =
    if is_number id (pos 0)
    then pos 0
    else if is_number id (pos 1)
    then pos 1
    else if is_number id (pos 2)
    then pos 2
    else if is_number id (pos 3)
    then pos 3
    else pos 4

-- `update_vfd_params` of a frame; data that is no text has no `split`.
unfoldable pub update_of : Option (Json × Json) → Database → Option ((List ℤ × Code) × Database)
unfolding update_vfd_params
update_of none db = none
update_of (some (id, string s)) db = update_vfd_params (vfd_number id) s db
update_of (some (id, v)) db =
    if is_number (number (vfd_number id)) (pos 4) then some (([], vfd_id_err), db) else none

unfoldable pub update_vfd : Fields → Database → Option ((List ℤ × Code) × Database)
unfolding update_of
update_vfd rsp db = update_of (vfd_result rsp) db

-- `params.append(param[0])` where there is one.
abbrev pub add_first : List ℤ → List ℤ → List ℤ
add_first params [] = params
add_first params (p ∷ ps) = params ++ (p ∷ [])

-- `set(params)`, in the order in which Python goes through these numbers.
abbrev pub set_of : List ℤ → List ℤ → List ℤ
set_of params [] = []
set_of params (q ∷ qs) = if elem q params then q ∷ set_of params qs else set_of params qs

module _ {S : Type 0} where
  -- A method on the database.
  abbrev pub on_database : {A : Type 0} → (Database → Option (A × Database)) → Method S A
  on_database f r = elim (f r.lib.database) [
    | none ↦ (none, r)
    | some (a, db) ↦ (some a, record r { lib = record r.lib { database = db } })
  ]

  -- The loop over the saved results.
  unfoldable pub vfd_rounds : List Fields → List ℤ → Code → Method S (List ℤ × Code)
  unfolding update_vfd
  vfd_rounds [] params err_code = done (params, err_code)
  vfd_rounds (rsp ∷ saved) params err_code = on_database (update_vfd rsp) >>= λ (changed, latest).
      vfd_rounds saved (add_first params changed) latest

  abbrev pub clear_vfd_results : Method S (Unit {0})
  clear_vfd_results r = (some tt, record r { saved_vfd_results = [] })

  -- `get_vfd_motor_data`
  unfoldable pub get_vfd_motor_data : Method S (List ℤ × Code)
  unfolding vfd_rounds
  get_vfd_motor_data r =
      (vfd_rounds r.saved_vfd_results [] no_err >>= λ (params, err_code).
      clear_vfd_results >> done (set_of params params_vfd_result, err_code))
        r
