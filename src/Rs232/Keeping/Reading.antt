-- ===== src/Rs232/Keeping/Reading.antt =====
-- src/liftApi/rs232_handler.py: reading and writing keep the handler's attributes well-formed.
use gateway_nexy.Base.{
  ℕ, ◌-◌, zero, suc, ◌+◌, Bool, true, false, not, ◌&&◌, Option, none, some, List, [], ◌∷◌, ◌++◌,
  length, if◌then◌else◌,
}
use gateway_nexy.Base.Json.{Json, Fields}
use gateway_nexy.Base.Text.{Text, text, text_eq}
use gateway_nexy.Codes.{serial_com_err, arg_type_err}
use gateway_nexy.Rs232.Port.{Port, Method, done, ◌>>◌, Answer, answer, failed, on_answer}
use gateway_nexy.Rs232.Commands.{
  Command, operation, text_value, plain, time_set, set, logfile, read_file, write_file, vfd_read,
  Checked, accepted, refused, raised, validate_serial_inputs, message,
}
use gateway_nexy.Rs232.Serial.{
  serial_total_timeout, read_serial, read_rounds, write_serial, pause, sent, versions_for,
  write_checked,
}
use gateway_nexy.Rs232.Split.{
  Split, Place, to_logs, to_vfd, to_status, to_saved, to_wanted, to_other, put_frame, sort_frames,
  place_of, split_response, sorted, Validated, signal_rounds, get_signal, reads_again, is_missing,
  decode_frames, validate_frames, split_frames, no_split,
}
use gateway_nexy.Rs232.Requests.{request}
use gateway_nexy.Rs232.Keeping.{
  IsWellFormed, Preserves-bind, Preserves-on_answer, Preserves-if, if_keeps, Keeps, length-push_vfd,
}

module _ {S : Type 0} where
  Keeps-put_frame :
      (at : Place) (rsp : Fields) (split : Split) → Keeps {S = S} (put_frame at rsp split)
  unfolding put_frame
  Keeps-put_frame to_logs rsp split r h = h
  Keeps-put_frame to_vfd rsp split r h = record {
    index = h.index;
    results = length-push_vfd rsp r.saved_vfd_results h.results;
  }
  Keeps-put_frame to_status rsp split r h = h
  Keeps-put_frame to_saved rsp split r h = record { index = h.index; results = h.results }
  Keeps-put_frame to_wanted rsp split r h = h
  Keeps-put_frame to_other rsp split r h = h

  pub Keeps-sort_frames :
      (wanted_cmd wanted_type : Text) (rsp_dec : List Fields) (split : Split)
      → Keeps {S = S} (sort_frames wanted_cmd wanted_type rsp_dec split)
  unfolding sort_frames
  Keeps-sort_frames wanted_cmd wanted_type [] split = λ r h. h
  Keeps-sort_frames wanted_cmd wanted_type (rsp ∷ rsp_dec) split =
      Preserves-bind IsWellFormed (put_frame (place_of wanted_cmd wanted_type rsp) rsp split)
        (λ split'. sort_frames wanted_cmd wanted_type rsp_dec split')
        (Keeps-put_frame (place_of wanted_cmd wanted_type rsp) rsp split)
        (λ split'. Keeps-sort_frames wanted_cmd wanted_type rsp_dec split')

module _ (p : Port) where
  open p use {State, now, loads, raw_decode, repr}

  pub Keeps-read_serial : (deadline : ℕ) → Keeps (read_serial p deadline)
  unfolding read_serial
  Keeps-read_serial deadline r h =
      if_keeps IsWellFormed (not r.available) (some (failed serial_com_err), r)
        (let (result, s) = read_rounds p (suc (deadline - now r.port)) deadline [] 0 r.port in
          (result, record r { port = s }))
        h (record { index = h.index; results = h.results })

  Keeps-sorted :
      (wanted_cmd wanted_type : Text) (validated : Option Validated)
      → Keeps (sorted p wanted_cmd wanted_type validated)
  unfolding sorted
  Keeps-sorted wanted_cmd wanted_type none = λ r h. h
  Keeps-sorted wanted_cmd wanted_type (some (rsp_dec, code)) =
      Preserves-bind IsWellFormed (sort_frames wanted_cmd wanted_type rsp_dec no_split)
        (λ split. done (elim code [ none ↦ answer split | some c ↦ failed c ]))
        (Keeps-sort_frames wanted_cmd wanted_type rsp_dec no_split) (λ split r h. h)

  Keeps-split_frames :
      (wanted_cmd wanted_type : Text) (decoded : Option (List Json))
      → Keeps (split_frames p wanted_cmd wanted_type decoded)
  unfolding split_frames
  Keeps-split_frames wanted_cmd wanted_type none = λ r h. h
  Keeps-split_frames wanted_cmd wanted_type (some rsp_json) =
      Keeps-sorted wanted_cmd wanted_type (validate_frames loads rsp_json)

  pub Keeps-split_response :
      (rsp wanted_cmd wanted_type : Text) → Keeps (split_response p rsp wanted_cmd wanted_type)
  unfolding split_response
  Keeps-split_response [] wanted_cmd wanted_type = λ r h. h
  Keeps-split_response (c ∷ cs) wanted_cmd wanted_type =
      Preserves-if IsWellFormed (text_eq wanted_cmd (text "operation") && text_eq wanted_type [])
        (done (failed arg_type_err))
        (split_frames p wanted_cmd wanted_type
          (decode_frames raw_decode (length (c ∷ cs)) (c ∷ cs)))
        (λ r h. h)
        (Keeps-split_frames wanted_cmd wanted_type
          (decode_frames raw_decode (length (c ∷ cs)) (c ∷ cs)))

  pub Keeps-pause : Keeps (pause p)
  Keeps-pause r h = record { index = h.index; results = h.results }

  -- What a round does with its frames.
  abbrev next : ℕ → ℕ → Text → Text → List Fields → Split → Method State (Answer Split)
  next n deadline wanted_cmd wanted_type other_out split =
      if reads_again wanted_type split
      then pause p
        >> signal_rounds p n deadline wanted_cmd wanted_type (other_out ++ split.other)
            (is_missing split.wanted)
      else done (answer (record split { other = other_out ++ split.other }))

  Keeps-signal_rounds :
      (n deadline : ℕ) (wanted_cmd wanted_type : Text) (other_out : List Fields) (missing : Bool)
      → Keeps (signal_rounds p n deadline wanted_cmd wanted_type other_out missing)
  unfolding signal_rounds
  Keeps-signal_rounds zero deadline wanted_cmd wanted_type other_out missing = λ r h. h
  Keeps-signal_rounds (suc n) deadline wanted_cmd wanted_type other_out missing =
      Preserves-on_answer IsWellFormed (read_serial p deadline)
        (λ full_resp.
          on_answer (split_response p full_resp wanted_cmd wanted_type)
            (next n deadline wanted_cmd wanted_type other_out))
        (Keeps-read_serial deadline)
        (λ full_resp.
          Preserves-on_answer IsWellFormed (split_response p full_resp wanted_cmd wanted_type)
            (next n deadline wanted_cmd wanted_type other_out)
            (Keeps-split_response full_resp wanted_cmd wanted_type)
            (λ split.
              Preserves-if IsWellFormed (reads_again wanted_type split)
                (pause p
                  >> signal_rounds p n deadline wanted_cmd wanted_type (other_out ++ split.other)
                      (is_missing split.wanted))
                (done (answer (record split { other = other_out ++ split.other })))
                (Preserves-bind IsWellFormed (pause p)
                  (λ _.
                    signal_rounds p n deadline wanted_cmd wanted_type (other_out ++ split.other)
                      (is_missing split.wanted))
                  Keeps-pause
                  (λ _.
                    Keeps-signal_rounds n deadline wanted_cmd wanted_type (other_out ++ split.other)
                      (is_missing split.wanted)))
                (λ r h. h)))

  pub Keeps-get_signal :
      (wanted_cmd wanted_type : Text) → Keeps (get_signal p wanted_cmd wanted_type)
  unfolding get_signal
  Keeps-get_signal wanted_cmd wanted_type r h =
      Keeps-signal_rounds 5 (now r.port + serial_total_timeout) wanted_cmd wanted_type [] true r h

  Keeps-versions_for : (cmd : Command) → Keeps (versions_for p cmd)
  unfolding versions_for
  Keeps-versions_for (operation type v) r h = h
  Keeps-versions_for (text_value cmd v) r h = h
  Keeps-versions_for (plain cmd) r h = h
  Keeps-versions_for (time_set v) r h = h
  Keeps-versions_for (set cmd v) r h = h
  Keeps-versions_for (logfile v) r h = h
  Keeps-versions_for (read_file name) r h = h
  Keeps-versions_for (write_file name xs) r h = h
  Keeps-versions_for (vfd_read id v interval) r h = h

  Keeps-sent : (msg : Text) → Keeps (sent p msg)
  Keeps-sent msg r h = record { index = h.index; results = h.results }

  Keeps-write_checked : (checked : Checked) → Keeps (write_checked p checked)
  unfolding write_checked
  Keeps-write_checked raised = λ r h. h
  Keeps-write_checked (refused code) = λ r h. h
  Keeps-write_checked (accepted cmd) =
      Preserves-bind IsWellFormed (versions_for p cmd)
        (λ versions. sent p (message repr versions cmd)) (Keeps-versions_for cmd)
        (λ versions. Keeps-sent (message repr versions cmd))

  pub Keeps-write_serial : (args : List Text) → Keeps (write_serial p args)
  unfolding write_serial
  Keeps-write_serial args r h =
      if_keeps IsWellFormed (not r.available) (some (failed serial_com_err), r) _ h
        (Keeps-write_checked (validate_serial_inputs loads args) r h)

  pub Keeps-request :
      (args : List Text) (pauses : Bool) (wanted_cmd wanted_type : Text)
      → Keeps (request p args pauses wanted_cmd wanted_type)
  unfolding request
  Keeps-request args true wanted_cmd wanted_type =
      Preserves-on_answer IsWellFormed (write_serial p args)
        (λ _. pause p >> get_signal p wanted_cmd wanted_type) (Keeps-write_serial args)
        (λ _.
          Preserves-bind IsWellFormed (pause p) (λ _. get_signal p wanted_cmd wanted_type)
            Keeps-pause (λ _. Keeps-get_signal wanted_cmd wanted_type))
  Keeps-request args false wanted_cmd wanted_type =
      Preserves-on_answer IsWellFormed (write_serial p args)
        (λ _. get_signal p wanted_cmd wanted_type) (Keeps-write_serial args)
        (λ _. Keeps-get_signal wanted_cmd wanted_type)
