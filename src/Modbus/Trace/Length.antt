-- ===== src/Modbus/Trace/Length.antt =====
-- src/liftApi/modbus_handler.py: what `generate_trace_log` has read when its loop ends.
use gateway_nexy.Base.{
  ◌≡◌, ◌⊎◌, inl, inr, refl, ap, ℕ, zero, suc, ◌+◌, ◌-◌, ◌*◌, ◌≤◌, Bool, true, false, none, some,
  length, length-append, length-take, length-drop, arith, Bool-cases, Option-cases, if◌then◌else◌,
}
use gateway_nexy.Base.Text.{Text}
use gateway_nexy.Codes.{Code, no_err, is_no_err}
use gateway_nexy.Modbus.Connection.{World}
use gateway_nexy.Modbus.Trace.{
  Bytes, LogType, nr_records, file_number, record_length, log_size, exp_rsp_len, FileReply, Loop,
  take_record, kept, validate_read_file_response, record_err, payload_err, length_err, response_err,
  first_err,
}
use gateway_nexy.Modbus.Trace.Download.{FileBus, Outcome, restarted, read_records, read_log}

-- The bytes of a record that are no payload of the log.
abbrev overhead : ℕ → ℕ
overhead zero = 37
overhead (suc n) = 5

length-kept : (idx : ℕ) (d : Bytes) → length (kept idx d) ≡ length d - (5 + idx)
unfolding kept
length-kept idx d = rw (length-drop, length-take) (omega arith)

no_err_cases :
    (x : Bool) (a b : Code)
    → is_no_err a ≡ x
    → is_no_err (if x then b else a) ≡ true
    → (x ≡ true) × (is_no_err b ≡ true)
no_err_cases true a b e h = (refl, h)
no_err_cases false a b e h = cc

is_no_err-first_err :
    (a b : Code) → is_no_err (first_err a b) ≡ true → (is_no_err a ≡ true) × (is_no_err b ≡ true)
is_no_err-first_err a b h = no_err_cases (is_no_err a) a b refl h

is_no_err-length_err : (d : Bytes) (len : ℕ) → is_no_err (length_err d len) ≡ true → length d ≡ len
is_no_err-length_err d len h = ground arith

-- The checks without an error find the expected length.
record_err-length :
    (d : Bytes) (len : ℕ) (is_error : Bool)
    → is_no_err (record_err d len is_error) ≡ true
    → length d ≡ len
unfolding record_err
record_err-length d len is_error h =
    is_no_err-length_err d len
      (is_no_err-first_err (length_err d len) (response_err is_error)
        (is_no_err-first_err (payload_err d) (first_err (length_err d len) (response_err is_error))
          h).1).0

-- A checked record without an error has the expected length, and its index is that of the payload.
validate_read_file_response-length :
    (storage : Text) (n : ℕ) (is_error : Bool) (d : Bytes) (len : ℕ) (name : Text) (err : Code)
    (idx : ℕ) (name' : Text)
    → validate_read_file_response storage n (some is_error) (some d) len name
      ≡ some (err, idx, name')
    → is_no_err err ≡ true
    → (length d ≡ len) × (5 + idx ≡ overhead n)
unfolding validate_read_file_response
validate_read_file_response-length storage n is_error d len name err idx name' e h =
    let size = record_err-length d len is_error in ground (arith, size)

-- An accepted record adds its payload.
take_record-bytes :
    (storage : Text) (n len : ℕ) (reply : FileReply) (v v' : Loop)
    → take_record storage n len reply v ≡ (true, v')
    → (length v'.bytes ≡ length v.bytes + (len - overhead n)) × (v'.last_err ≡ no_err)
take_record-bytes storage n len FileReply.failed v v' h = unfold take_record in ground arith
take_record-bytes storage n len (FileReply.answered none d) v v' h =
    unfold take_record validate_read_file_response in ground arith
take_record-bytes storage n len (FileReply.answered (some b) none) v v' h =
    unfold take_record validate_read_file_response in ground arith
take_record-bytes storage n len (FileReply.answered (some b) (some d)) v v' h =
    elim (Option-cases (validate_read_file_response storage n (some b) (some d) len v.filename)) [
      | inl e ↦ unfold take_record in ground arith
      | inr ((err, idx, name), e) ↦
          let size =
            validate_read_file_response-length storage n b d len v.filename err idx name e in
          let payload = length-kept idx d in
          let joined = length-append v.bytes (kept idx d) in
          unfold take_record in ground (arith, size, payload, joined)
    ]

-- The bytes that the loop has with so many records left.
abbrev Partial : LogType → ℕ → Loop → Type 0
Partial t zero v = (length v.bytes ≡ log_size t) × (v.last_err ≡ no_err)
Partial t (suc k) v = (nr_records t ≡ suc k) ⊎ (length v.bytes + 32 ≡ 230 * (nr_records t - suc k))

take_record-Partial :
    (storage : Text) (t : LogType) (k : ℕ) (reply : FileReply) (v v' : Loop)
    → suc k ≤ nr_records t
    → Partial t (suc k) v
    → take_record storage
        (nr_records t - suc k)
        (exp_rsp_len t k)
        reply
        (restarted (nr_records t - suc k) v)
      ≡ (true, v')
    → Partial t k v'
take_record-Partial storage t zero reply v v' bound p h =
    let step =
      take_record-bytes storage (nr_records t - 1) (exp_rsp_len t 0) reply
        (restarted (nr_records t - 1) v) v' h in
    unfold exp_rsp_len in ground (arith, step)
take_record-Partial storage t (suc k) reply v v' bound p h =
    let n = nr_records t - suc (suc k) in
    let step = take_record-bytes storage n (exp_rsp_len t (suc k)) reply (restarted n v) v' h in
    unfold exp_rsp_len in ground (arith, step)

Partial-start : (t : LogType) (v : Loop) → Partial t (nr_records t) v
Partial-start LogType.trace_buffer v = inl refl
Partial-start LogType.sram v = inl refl

-- All of the log and no error, or an error.
abbrev pub Ended : LogType → Outcome → Type 0
Ended t o =
    ((v : Loop) × (o ≡ Outcome.all_read v) × (length v.bytes ≡ log_size t) × (v.last_err ≡ no_err))
    ⊎ ((err : Code) × (o ≡ Outcome.too_many_errors err) × (is_no_err err ≡ false))

module _ (f : FileBus) (t : LogType) where
  read_records-Ended :
      (again : Loop → World f.bus.State → Outcome × World f.bus.State) (k : ℕ) (v : Loop)
      (w : World f.bus.State)
      → ((v' : Loop) (w' : World f.bus.State) → Ended t (again v' w').0)
      → k ≤ nr_records t
      → Partial t k v
      → Ended t (read_records f t again k v w).0
  unfolding read_records
  read_records-Ended again zero v w h bound p = inl (v, refl, p.0, p.1)
  read_records-Ended again (suc k) v w h bound p =
      let n = nr_records t - suc k in
      let (reply, s) = f.read_file (file_number t) n record_length (exp_rsp_len t k) w.bus in
      let w' = record w { bus = s } in
      let r = take_record f.storage_path n (exp_rsp_len t k) reply (restarted n v) in
      elim (Bool-cases r.0) [
        | inl e ↦
            rw (e, read_records)
              (read_records-Ended again k r.1 w' h (omega arith)
                (take_record-Partial f.storage_path t k reply v r.1 bound p (ap (λ b. (b, r.1)) e)))
        | inr e ↦ rw (e, read_records) (h r.1 w')
      ]

  -- Whatever the lift answers, the loop ends with as many bytes as the log has and no error, or
  -- with an error code.
  pub read_log_ends : (e : ℕ) (v : Loop) (w : World f.bus.State) → Ended t (read_log f t e v w).0
  unfolding read_log
  read_log_ends zero v w = inr (_, refl, ground arith)
  read_log_ends (suc e) v w =
      read_records-Ended (read_log f t e) (nr_records t) v w (read_log_ends e) (omega arith)
        (Partial-start t v)
