-- ===== src/Tests/Transfers.antt =====
-- Tests of the file transfers of src/liftApi/modbus_handler.py, with a lift that answers nothing and
-- one that accepts every record.
use gateway_nexy.Base.{◌≡◌, refl, ℕ, suc, ◌≤◌, true, false, some, List, [], ◌∷◌, ◌++◌}
use gateway_nexy.Base.Int.{pos}
use gateway_nexy.Base.Text.{text}
use gateway_nexy.Codes.{no_err, log_run_err}
use gateway_nexy.Modbus.Registers.{ReadReply, WriteReply}
use gateway_nexy.Modbus.Bus.{Bus, Log}
use gateway_nexy.Modbus.Connection.{World}
use gateway_nexy.Modbus.Trace.{
  LogType, FileReply, Loop, take_record, exp_rsp_len, validate_read_file_response, record_err,
}
use gateway_nexy.Modbus.Trace.Download.{FileBus, Outcome, read_log, read_records}
use gateway_nexy.Modbus.Trace.Length.{Ended, read_log_ends}
use gateway_nexy.Modbus.Trace.Requests.{counted, read_log-reads}
use gateway_nexy.Modbus.Upgrade.{
  UpgradeBus, WriteFileReply, get_record_data, write_record, write_records, write_package,
  write_checked_package, validate_up_file, validate_up_header,
}
use gateway_nexy.Modbus.Upgrade.Transfer.{
  joined, Fit, tracked, sent, write_records-reads, transfer_is_complete,
}

abbrev no_bus : Bus
no_bus = record {
  State = ℕ;
  port_exists = λ s. (true, s);
  connect = λ s. s;
  close_client = λ s. s;
  read_registers = λ addr s. (ReadReply.failed, s);
  write_registers = λ addr values s. (WriteReply.failed, s);
  sync = λ s. s;
}

abbrev silent_lift : FileBus
silent_lift = record {
  bus = no_bus;
  read_file = λ file n len rsp s. (FileReply.failed, s);
  storage_path = text "/data/logs";
  folder_of = λ path. text "/data/logs";
  timestamp = λ s. (text "20260101_000000", s);
  save_file = λ folder name bytes s. (true, s);
  check_enough_free_space = λ s. (true, s);
}

abbrev idle_loop : Loop
idle_loop = record { bytes = []; filename = []; last_err = no_err }

abbrev idle_world : World (Log ℕ)
idle_world = record {
  modbus_link = true;
  closed = false;
  has_client = true;
  bus = record { inner = 0; writes = []; reads = 0 };
}

abbrev plain_world : World ℕ
plain_world = record { modbus_link = true; closed = false; has_client = true; bus = 0 }

silent_log :
    (read_log silent_lift LogType.trace_buffer 10 idle_loop plain_world).0
    ≡ Outcome.too_many_errors log_run_err
unfolding read_log read_records take_record
silent_log = refl

read_log_ends_example :
    Ended LogType.trace_buffer
      (read_log silent_lift LogType.trace_buffer 10 idle_loop plain_world).0
read_log_ends_example = read_log_ends silent_lift LogType.trace_buffer 10 idle_loop plain_world

read_log-reads_example :
    (read_log (counted silent_lift) LogType.trace_buffer 10 idle_loop idle_world).1.bus.reads ≤ 100
read_log-reads_example = read_log-reads silent_lift LogType.trace_buffer 10 idle_loop idle_world

-- A record of a log: its header, a text and two bytes of a checksum.
last_record :
    (take_record
      (text "/data")
      9
      (exp_rsp_len LogType.trace_buffer 0)
      (FileReply.answered (some false) (some (10 ∷ 20 ∷ 10 ∷ (text "0123456789" ++ 0 ∷ 0 ∷ []))))
      idle_loop).1.bytes
    ≡ text "0123456789"
unfolding take_record exp_rsp_len validate_read_file_response record_err
last_record = refl

abbrev firmware : List ℕ
firmware = text "the package of aritco"

abbrev willing_lift : UpgradeBus
willing_lift = record {
  bus = no_bus;
  upgrade_package_path = text "/data/up";
  read_file = λ path s. (some firmware, s);
  hex_dump = λ path s. (some (text "..aritco.."), s);
  write_data = λ n bytes s. (WriteFileReply.answered false false, suc s);
}

package_written :
    (write_package (tracked willing_lift) (text "up_1.UP") (text "/data/up/up_1.UP") idle_world).0
    ≡ (pos 0, no_err)
unfolding write_package get_record_data write_checked_package write_records write_record
    validate_up_file validate_up_header
package_written = refl

transfer_is_complete_example :
    (file : List ℕ) × (records : List (List ℕ)) × (some firmware ≡ some file)
    × (validate_up_file (text "up_1.UP") ≡ true)
    × (joined records ≡ file)
    × Fit records
    × ((write_package
          (tracked willing_lift)
          (text "up_1.UP")
          (text "/data/up/up_1.UP")
          idle_world).1.bus.writes
        ≡ sent 0 records [])
transfer_is_complete_example =
    transfer_is_complete willing_lift (text "up_1.UP") (text "/data/up/up_1.UP") idle_world
      package_written

write_records-reads_example :
    (write_records (tracked willing_lift) 0 (firmware ∷ firmware ∷ []) idle_world).1.bus.reads ≤ 40
write_records-reads_example =
    write_records-reads willing_lift 0 (firmware ∷ firmware ∷ []) idle_world
