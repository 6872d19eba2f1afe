-- ===== src/Modbus/Upgrade.antt =====
-- src/liftApi/modbus_handler.py: `write_upgrade_package`, the transfer of a firmware package.
pub mod Transfer
use gateway_nexy.Base.{
  ℕ, zero, suc, ◌+◌, ◌-◌, Bool, true, false, not, ◌&&◌, ◌||◌, Option, none, some, List, [], ◌∷◌,
  ◌++◌, length, take, drop, map, leb, if◌then◌else◌,
}
use gateway_nexy.Base.Int.{ℤ, pos, negsuc}
use gateway_nexy.Base.Text.{Text, text, text_eq, text_starts_with}
use gateway_nexy.Codes.{
  Code, no_err, link_err, file_empty, file_not_found, file_name_err, file_header_err,
  file_transfer_err,
}
use gateway_nexy.Modbus.Bus.{Bus}
use gateway_nexy.Modbus.Connection.{World, Result, ok, raised, checked, Reply}

abbrev pub Bytes : Type 0
Bytes = List ℕ

-- `max_write_record_length`: the PDU less the two headers.
abbrev pub max_write_record_length : ℕ
max_write_record_length = 253 - 2 - 7

-- What a write of a file record gives: an exception, or a response with its `isError` and that of
-- the `WriteFileRecordResponse` made of it.
pub data WriteFileReply : Type 0 where
  failed : WriteFileReply
  answered : (is_error : Bool) (is_error_inside : Bool) → WriteFileReply

-- The requests of file records, the files and the shell, as far as the method uses them.
pub record UpgradeBus : Type 1 where
  pub bus : Bus
  -- `disk_handler.get_upgrade_package_path()`
  pub upgrade_package_path : Text
  -- a file's bytes; `none` is a `FileNotFoundError`
  pub read_file : Text → bus.State → Option Bytes × bus.State
  -- the output of `xxd -l 16`; `none` is an exception
  pub hex_dump : Text → bus.State → Option Text × bus.State
  -- `_write_data`: the request of one record
  pub write_data : ℕ → Bytes → bus.State → WriteFileReply × bus.State

-- The records of a file, read one after the other; the first argument bounds their number.
unfoldable pub records_of : ℕ → Bytes → List Bytes
records_of zero file = []
records_of (suc n) [] = []
records_of (suc n) (b ∷ file) =
    take max_write_record_length (b ∷ file) ∷ records_of n (drop max_write_record_length (b ∷ file))

-- `_get_record_data_from_file` of a file with these bytes: every record but the last is full, so
-- there are no more records than bytes.
unfoldable pub get_record_data : Option Bytes → Option (List Bytes) × Code
unfolding records_of
get_record_data none = (none, file_not_found)
get_record_data (some []) = (none, file_empty)
get_record_data (some (b ∷ file)) = (some (records_of (suc (length file)) (b ∷ file)), no_err)

-- `s.lower()` of a letter.
abbrev lower : ℕ → ℕ
lower c = if leb b'A' c && leb c b'Z' then c + 32 else c

abbrev contains : Text → Text → Bool
contains needle [] = text_eq needle []
contains needle (c ∷ s) = text_starts_with (c ∷ s) needle || contains needle s

-- `_validate_up_file`
unfoldable pub validate_up_file : Text → Bool
validate_up_file filename =
    leb 5 (length filename)
    && leb (length filename) (14 + 10)
    && text_eq (map lower (drop (length filename - 2) filename)) (text "up")

-- `_validate_up_header` of what the shell command gave.
unfoldable pub validate_up_header : Option Text → Bool
validate_up_header none = false
validate_up_header (some standard_out) = contains (text "aritco") standard_out

-- `_validate_write_file_response`, or an exception of the write.
abbrev pub write_accepted : WriteFileReply → Bool
write_accepted WriteFileReply.failed = false
write_accepted (WriteFileReply.answered is_error is_error_inside) =
    not is_error && not is_error_inside

-- The path of a file in a folder.
abbrev path_join : Text → Text → Text
path_join folder name = if text_starts_with name (text "/") then name else folder ++ 47 ∷ name

abbrev pub max_tries : ℕ
max_tries = 20

module _ (u : UpgradeBus) where
  open u use {bus, upgrade_package_path, read_file, hex_dump, write_data}

  -- One record with the tries left, and what follows it.
  unfoldable pub write_record :
      (World bus.State → Bool × World bus.State)
      → ℕ
      → ℕ
      → Bytes
      → World bus.State
      → Bool × World bus.State
  write_record next zero n bytes w = (false, w)
  write_record next (suc tries) n bytes w =
      let (reply, s) = write_data n bytes w.bus in
      elim (write_accepted reply) [
        | true ↦ next (record w { bus = s })
        | false ↦ write_record next tries n bytes (record w { bus = s })
      ]

  -- The loop over the records from a number on: whether all of them were accepted.
  unfoldable pub write_records : ℕ → List Bytes → World bus.State → Bool × World bus.State
  unfolding write_record
  write_records n [] w = (true, w)
  write_records n (bytes ∷ records) w =
      write_record (write_records (suc n) records) max_tries n bytes w

  -- The checks of the package and the loop, after the file is read and after the hex dump.
  unfoldable pub write_checked_package :
      Text → Option Text → List Bytes → World bus.State → World bus.State → Reply × World bus.State
  unfolding write_records
  write_checked_package filename standard_out records w' w'' =
      let (done, w₁) = write_records 0 records w'' in
      if not (validate_up_file filename)
      then ((pos 1, file_name_err), w')
      else if not (validate_up_header standard_out)
      then ((pos 1, file_header_err), w'')
      else if not done
      then ((pos 1, file_transfer_err), w₁)
      else ((pos 0, no_err), w₁)

  unfoldable pub write_package : Text → Text → World bus.State → Reply × World bus.State
  unfolding write_checked_package get_record_data
  write_package filename file_path w =
      let (file, s) = read_file file_path w.bus in
      let (standard_out, s') = hex_dump file_path s in
      let w' = record w { bus = s } in
      let (data_list, code) = get_record_data file in
      elim data_list [
        | none ↦ ((pos 1, code), w')
        | some records ↦
            write_checked_package filename standard_out records w' (record w { bus = s' })
      ]

  -- The arguments: a list of names, and a folder if one is given.
  unfoldable pub write_upgrade_package_body :
      List Text → Option Text → World bus.State → Result Reply × World bus.State
  unfolding write_package
  write_upgrade_package_body [] up_folder w = (raised, w)
  write_upgrade_package_body (filename ∷ names) up_folder w =
      let folder = elim up_folder as (λ x. Text) [ none ↦ upgrade_package_path | some f ↦ f ] in
      let (reply, w') = write_package filename (path_join folder filename) w in (ok reply, w')

  -- `write_upgrade_package`
  unfoldable pub write_upgrade_package :
      List Text → Option Text → World bus.State → Result Reply × World bus.State
  unfolding write_upgrade_package_body
  write_upgrade_package filename_list up_folder =
      checked bus (ok (negsuc 0, link_err)) (write_upgrade_package_body filename_list up_folder)
