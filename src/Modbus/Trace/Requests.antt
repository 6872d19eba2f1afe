-- ===== src/Modbus/Trace/Requests.antt =====
-- src/liftApi/modbus_handler.py: how many file records `generate_trace_log` asks for.
use gateway_nexy.Base.{ℕ, zero, suc, ◌+◌, ◌-◌, ◌*◌, ◌≤◌, inl, inr, arith, Bool-cases}
use gateway_nexy.Modbus.Bus.{Log, logged}
use gateway_nexy.Modbus.Connection.{World}
use gateway_nexy.Modbus.Trace.{
  LogType, nr_records, file_number, record_length, exp_rsp_len, Loop, take_record,
}
use gateway_nexy.Modbus.Trace.Download.{FileBus, Outcome, restarted, read_records, read_log}

-- The same interface with the requests of file records counted.
abbrev pub counted : FileBus → FileBus
counted f = record {
  bus = logged f.bus;
  read_file = λ file n len rsp s.
      let (reply, i) = f.read_file file n len rsp s.inner in
      (reply, record s { inner = i; reads = suc s.reads });
  storage_path = f.storage_path;
  folder_of = f.folder_of;
  timestamp = λ s. let (time, i) = f.timestamp s.inner in (time, record s { inner = i });
  save_file = λ folder name bytes s.
      let (saved, i) = f.save_file folder name bytes s.inner in (saved, record s { inner = i });
  check_enough_free_space =
      λ s. let (enough, i) = f.check_enough_free_space s.inner in (enough, record s { inner = i });
}

module _ (f : FileBus) (t : LogType) where
  read_records-reads :
      (again : Loop → World (Log f.bus.State) → Outcome × World (Log f.bus.State)) (m k : ℕ)
      (v : Loop) (w : World (Log f.bus.State))
      → ((v' : Loop) (w' : World (Log f.bus.State)) → (again v' w').1.bus.reads ≤ w'.bus.reads + m)
      → (read_records (counted f) t again k v w).1.bus.reads ≤ w.bus.reads + (k + m)
  unfolding read_records
  read_records-reads again m zero v w h = omega arith
  read_records-reads again m (suc k) v w h =
      let n = nr_records t - suc k in
      let (reply, s) =
        (counted f).read_file (file_number t) n record_length (exp_rsp_len t k) w.bus in
      let w' = record w { bus = s } in
      let r = take_record f.storage_path n (exp_rsp_len t k) reply (restarted n v) in
      elim (Bool-cases r.0) [
        | inl e ↦
            rw (e, read_records) (let others = read_records-reads again m k r.1 w' h in omega arith)
        | inr e ↦ rw (e, read_records) (let others = h r.1 w' in omega arith)
      ]

  -- With so many errors left, the loop makes at most that many times the number of records of
  -- requests.
  pub read_log-reads :
      (e : ℕ) (v : Loop) (w : World (Log f.bus.State))
      → (read_log (counted f) t e v w).1.bus.reads ≤ w.bus.reads + e * nr_records t
  unfolding read_log
  read_log-reads zero v w = omega arith
  read_log-reads (suc e) v w =
      let h =
        read_records-reads (read_log (counted f) t e) (e * nr_records t) (nr_records t) v w
          (read_log-reads e) in
      ground (arith, h)
