-- ===== src/Rs232/Keeping/Requests.antt =====
-- src/liftApi/rs232_handler.py: requests keep the handler's attributes well-formed.
use gateway_nexy.Base.{
  Bool, true, not, Option, List, [], ◌∷◌, Option-cases, inl, inr, if◌then◌else◌,
}
use gateway_nexy.Base.Text.{Text, text, text_eq}
use gateway_nexy.Codes.{Code, is_no_err, cmd_not_supported}
use gateway_nexy.Thousand.Protocol.{Database}
use gateway_nexy.Thousand.Lookup.{ThousandLib}
use gateway_nexy.Rs232.Port.{Port, Method, done, lift, ◌>>=◌, Answer, answer, failed, on_answer}
use gateway_nexy.Rs232.Commands.{text_in, generic_texts}
use gateway_nexy.Rs232.Split.{Split, get_signal}
use gateway_nexy.Rs232.Requests.{
  request, first_entry, get_generic_text, get_ar_version, read_1k_file, file_data, data_or,
  to_response,
}
use gateway_nexy.Rs232.Vfd.{on_database}
use gateway_nexy.Rs232.Packages.{
  on_lib, get_latest_status, get_operation_package, package_data, repackage_status,
}
use gateway_nexy.Rs232.Keeping.{
  IsWellFormed, Preserves-bind, Preserves-on_answer, Preserves-if, Keeps,
}
use gateway_nexy.Rs232.Keeping.Reading.{Keeps-request, Keeps-get_signal}

module _ {S A : Type 0} where
  pub Keeps-on_database : (f : Database → Option (A × Database)) → Keeps {S = S} (on_database f)
  Keeps-on_database f r h = elim (Option-cases (f r.lib.database)) [
    | inl e ↦ rw (e, on_database) h
    | inr ((a, db), e) ↦ rw (e, on_database) (record { index = h.index; results = h.results })
  ]

  pub Keeps-on_lib : (f : ThousandLib → Option (A × ThousandLib)) → Keeps {S = S} (on_lib f)
  Keeps-on_lib f r h = elim (Option-cases (f r.lib)) [
    | inl e ↦ rw (e, on_lib) h
    | inr ((a, lib), e) ↦ rw (e, on_lib) (record { index = h.index; results = h.results })
  ]

module _ (p : Port) where
  open p use {State, dumps, repr}

  -- A request and what follows.
  pub Keeps-after_request :
      {A : Type 0} (args : List Text) (pauses : Bool) (wanted_cmd wanted_type : Text)
      (f : Split → Method State (Answer A))
      → ((split : Split) → Keeps (f split))
      → Keeps (on_answer (request p args pauses wanted_cmd wanted_type) f)
  Keeps-after_request args pauses wanted_cmd wanted_type f hf =
      Preserves-on_answer IsWellFormed (request p args pauses wanted_cmd wanted_type) f
        (Keeps-request p args pauses wanted_cmd wanted_type) hf

  pub Keeps-get_generic_text : (name : Text) → Keeps (get_generic_text p name)
  unfolding get_generic_text
  Keeps-get_generic_text name =
      Preserves-if IsWellFormed (not (text_in name generic_texts)) (done (failed cmd_not_supported))
        (on_answer (request p (name ∷ []) true name [])
          (λ split. lift (first_entry (text "data") split.wanted) >>= λ v. done (answer v)))
        (λ r h. h)
        (Keeps-after_request (name ∷ []) true name []
          (λ split. lift (first_entry (text "data") split.wanted) >>= λ v. done (answer v))
          (λ split.
            Preserves-bind IsWellFormed (lift (first_entry (text "data") split.wanted))
              (λ v. done (answer v)) (λ r h. h) (λ v r h. h)))

  pub Keeps-get_ar_version : Keeps (get_ar_version p)
  unfolding get_ar_version
  Keeps-get_ar_version =
      Keeps-after_request (text "version" ∷ []) true (text "version") []
        (λ split. done (data_or p Code.data_len_err split.wanted)) (λ split r h. h)

  pub Keeps-read_1k_file : (args : List Text) → Keeps (read_1k_file p args)
  unfolding read_1k_file
  Keeps-read_1k_file [] = λ r h. h
  Keeps-read_1k_file (file_name ∷ []) =
      Keeps-after_request (text "readFile" ∷ (file_name ∷ [])) true (text "readFile") []
        (λ split. lift (file_data p split.wanted)) (λ split r h. h)
  Keeps-read_1k_file (a ∷ b ∷ args) = λ r h. h

  pub Keeps-get_operation_package : (signal : Text) → Keeps (get_operation_package p signal)
  unfolding get_operation_package get_latest_status
  Keeps-get_operation_package signal =
      Preserves-if IsWellFormed (text_eq signal (text "130")) (get_latest_status p)
        (on_answer (request p (text "operation" ∷ (signal ∷ [])) true (text "operation") signal)
          (λ split. lift (first_entry (text "data") split.wanted) >>= λ v. done (package_data p v)))
        (Preserves-on_answer IsWellFormed (get_signal p (text "operation") (text "130"))
          (λ split.
            let (status_last, err_code) = repackage_status split.status in
            done (if is_no_err err_code then answer (to_response status_last) else failed err_code))
          (Keeps-get_signal p (text "operation") (text "130")) (λ split r h. h))
        (Keeps-after_request (text "operation" ∷ (signal ∷ [])) true (text "operation") signal
          (λ split. lift (first_entry (text "data") split.wanted) >>= λ v. done (package_data p v))
          (λ split.
            Preserves-bind IsWellFormed (lift (first_entry (text "data") split.wanted))
              (λ v. done (package_data p v)) (λ r h. h) (λ v r h. h)))
