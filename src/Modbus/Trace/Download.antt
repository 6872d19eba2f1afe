-- ===== src/Modbus/Trace/Download.antt =====
-- src/liftApi/modbus_handler.py: the loop of `generate_trace_log`, `_save_log` and `log_generate`.
use gateway_nexy.Base.{
  ℕ, zero, suc, ◌-◌, Bool, true, false, not, Option, none, some, List, [], ◌∷◌, ◌++◌, elem, ◌==◌,
  if◌then◌else◌,
}
use gateway_nexy.Base.Int.{ℤ, shr, low_bits}
use gateway_nexy.Base.Text.{Text, text, str_nat}
use gateway_nexy.Codes.{
  Code, no_err, link_err, log_type_err, log_err_cnt, log_save_err, disk_limit_err, is_no_err,
}
use gateway_nexy.Modbus.Bus.{Bus}
use gateway_nexy.Modbus.Connection.{World, Result, ok, raised, checked}
use gateway_nexy.Modbus.Read.{validate_inputs, is_zero, head_text, read_parameter}
use gateway_nexy.Modbus.Trace.{
  Bytes, LogType, log_type_of, nr_records, file_number, record_length, err_cnt_max, exp_rsp_len,
  FileReply, Loop, take_record,
}

-- The requests of file records, and the files: what the methods use of the request class, of the
-- disk handler and of the operating system.
pub record FileBus : Type 1 where
  pub bus : Bus
  -- `ReadFileRecord.prepare_request` and `run`: the file, the record, its length and the length of
  -- the response
  pub read_file : ℕ → ℕ → ℕ → ℕ → bus.State → FileReply × bus.State
  -- `disk_handler.get_trace_log_path()`
  pub storage_path : Text
  -- `os.path.abspath(os.path.dirname(path))`
  pub folder_of : Text → Text
  -- the time in a file name
  pub timestamp : bus.State → Text × bus.State
  -- the folder, the name and the bytes of a file to be written; `false` is an exception
  pub save_file : Text → Text → Bytes → bus.State → Bool × bus.State
  pub check_enough_free_space : bus.State → Bool × bus.State

-- What the loop ends with.
pub data Outcome : Type 0 where
  all_read : Loop → Outcome
  too_many_errors : Code → Outcome

-- `os.path.basename`
abbrev base_name : Text → Text
base_name [] = []
base_name (c ∷ s) =
    let rest = base_name s in if elem 47 s then rest else if c == 47 then s else c ∷ s

-- `s.split(".")[0]`
abbrev before_dot : Text → Text
before_dot [] = []
before_dot (c ∷ s) = let rest = before_dot s in if c == 46 then [] else c ∷ rest

-- `s.split(".")[1]`; `none` is an `IndexError`.
abbrev after_dot : Text → Option Text
after_dot [] = none
after_dot (c ∷ s) = let rest = after_dot s in if c == 46 then some (before_dot s) else rest

-- `a.b.c` of a version number.
abbrev version_text : ℤ → Text
version_text v =
    str_nat (low_bits (shr v 16) 8)
    ++ 46 ∷ (str_nat (low_bits (shr v 8) 8) ++ 46 ∷ str_nat (low_bits v 8))

-- The reset at record 0.
abbrev pub restarted : ℕ → Loop → Loop
restarted zero v = record v { bytes = []; filename = [] }
restarted (suc n) v = v

module _ (f : FileBus) where
  open f use {
    bus, read_file, storage_path, folder_of, timestamp, save_file, check_enough_free_space,
  }

  -- The records from the one that has so many after it, and what is done after an error.
  unfoldable pub read_records :
      LogType
      → (Loop → World bus.State → Outcome × World bus.State)
      → ℕ
      → Loop
      → World bus.State
      → Outcome × World bus.State
  read_records t again zero v w = (Outcome.all_read v, w)
  read_records t again (suc k) v w =
      let n = nr_records t - suc k in
      let (reply, s) = read_file (file_number t) n record_length (exp_rsp_len t k) w.bus in
      let w' = record w { bus = s } in
      let (accepted, v') = take_record storage_path n (exp_rsp_len t k) reply (restarted n v) in
      elim accepted [ true ↦ read_records t again k v' w' | false ↦ again v' w' ]

  -- The loop with the errors left; every error leads back to record 0.
  unfoldable pub read_log : LogType → ℕ → Loop → World bus.State → Outcome × World bus.State
  unfolding read_records
  read_log t zero v w =
      (Outcome.too_many_errors (if is_no_err v.last_err then log_err_cnt else v.last_err), w)
  read_log t (suc e) v w = read_records t (read_log t e) (nr_records t) v w

  -- `_save_log`
  unfoldable pub save_log : Text → Bytes → World bus.State → (Bool × Text) × World bus.State
  save_log path bytes w =
      let name = base_name path in
      let ((version, code), w') = read_parameter bus (text "77" ∷ []) w in
      let version_str = if is_no_err code then version_text version else [] in
      let (time, s) = timestamp w'.bus in
      let w'' = record w' { bus = s } in
      elim (after_dot name) [
        | none ↦ ((false, name), w'')
        | some extension ↦
            let name' =
              before_dot name ++ text "_v" ++ version_str ++ text "_" ++ time ++ 46 ∷ extension in
            let (saved, s') = save_file (folder_of path) name' bytes s in
            ((saved, name'), record w' { bus = s' })
      ]

  -- The end of `generate_trace_log`: the value is the file name, or -1 where there is none.
  unfoldable pub save_outcome : Outcome → World bus.State → (Option Text × Code) × World bus.State
  save_outcome (Outcome.too_many_errors err) w = ((none, err), w)
  save_outcome (Outcome.all_read v) w =
      let ((saved, name), w') = save_log v.filename v.bytes w in
      let (enough, s) = check_enough_free_space w'.bus in
      let w'' = record w' { bus = s } in
      if not saved
      then ((none, log_save_err), w')
      else if not enough
      then ((some name, (if is_no_err v.last_err then disk_limit_err else v.last_err)), w'')
      else ((some name, v.last_err), w'')

  -- `generate_trace_log`; without a client its assertion fails.
  unfoldable pub generate_trace_log :
      LogType → World bus.State → Result (Option Text × Code) × World bus.State
  unfolding read_log save_outcome
  generate_trace_log t w =
      let (outcome, w') =
        read_log t err_cnt_max (record { bytes = []; filename = []; last_err = no_err }) w in
      let (result, w'') = save_outcome outcome w' in
      if w.has_client then (ok result, w'') else (raised, w)

  unfoldable pub log_generate_body :
      List Text → World bus.State → Result (Option Text × Code) × World bus.State
  log_generate_body args w =
      let (value, code) = validate_inputs args 2 in
      if not (is_zero value) then (ok (none, code), w) else elim (log_type_of (head_text args)) [
        | none ↦ (ok (none, log_type_err), w)
        | some t ↦ generate_trace_log t w
      ]

  -- `log_generate`
  unfoldable pub log_generate :
      List Text → World bus.State → Result (Option Text × Code) × World bus.State
  unfolding log_generate_body
  log_generate args = checked bus (ok (none, link_err)) (log_generate_body args)
