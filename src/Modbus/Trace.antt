-- ===== src/Modbus/Trace.antt =====
-- src/liftApi/modbus_handler.py: the download of a trace log, `log_generate` and
-- `generate_trace_log`, with `_validate_read_file_response`.
mod Utf8
pub mod Download
pub mod Length
pub mod Requests
use gateway_nexy.Base.{
  ℕ, zero, suc, ◌+◌, ◌-◌, ◌*◌, ◌%◌, Bool, true, false, not, ◌&&◌, ◌||◌, Option, none, some, List,
  [], ◌∷◌, ◌++◌, length, take, drop, get_or, leb, ltb, ◌==◌, if◌then◌else◌,
}
use gateway_nexy.Base.Int.{ℤ, pos, negsuc}
use gateway_nexy.Base.Text.{Text, text, text_eq, text_starts_with}
use gateway_nexy.Codes.{
  Code, no_err, link_err, log_type_err, log_err_cnt, log_save_err, log_run_err, log_no_ld_err,
  log_rec_len_err, log_rsp_err, log_ld_parse_err, log_fname_err, log_attr_err, disk_limit_err,
  is_no_err,
}
use gateway_nexy.Modbus.Trace.Utf8.{utf8_decode}

abbrev pub Bytes : Type 0
Bytes = List ℕ

-- `LogSizes`
abbrev pub header_size : ℕ
header_size = 3

abbrev pub crc_size : ℕ
crc_size = 2

abbrev pub filename_size : ℕ
filename_size = 32

abbrev pub record_length : ℕ
record_length = 0x73

-- The two kinds of log, `0x06` and `0x02`.
pub data LogType : Type 0 where
  trace_buffer : LogType
  sram : LogType

abbrev pub log_type_of : Text → Option LogType
log_type_of t =
    if text_eq t (text "0x06")
    then some LogType.trace_buffer
    else if text_eq t (text "0x02")
    then some LogType.sram
    else none

abbrev pub log_size : LogType → ℕ
log_size LogType.trace_buffer = 2048
log_size LogType.sram = 16 * 2048

abbrev pub nr_records : LogType → ℕ
nr_records LogType.trace_buffer = 10
nr_records LogType.sram = 143

abbrev pub file_number : LogType → ℕ
file_number LogType.trace_buffer = 0x1700
file_number LogType.sram = 0x1703

-- `err_cnt_max`
abbrev pub err_cnt_max : ℕ
err_cnt_max = 10

-- The entry of `exp_rsp_len` with so many records after it.
unfoldable pub exp_rsp_len : LogType → ℕ → ℕ
exp_rsp_len t zero = (log_size t + filename_size) % (record_length * 2) + header_size + crc_size
exp_rsp_len t (suc k) = record_length * 2 + header_size + crc_size

-- What `ReadFileRecord.run` gives: an exception, or a response and data. A response may have no
-- `isError`, and the data may be no bytes.
pub data FileReply : Type 0 where
  failed : FileReply
  answered : (is_error : Option Bool) (data_tmp : Option Bytes) → FileReply

-- `bytes.find`, where the needle is in the text.
abbrev find : Text → Bytes → Option ℕ
find needle [] = if text_eq needle [] then some 0 else none
find needle (c ∷ s) =
    let rest = find needle s in
    if text_starts_with (c ∷ s) needle
    then some 0
    else elim rest [ none ↦ none | some i ↦ some (suc i) ]

abbrev pub needle : Text
needle = text ".sw_traces"

-- `os.path.join` of the storage path and a name.
abbrev path_join : Text → Text → Text
path_join folder name = if text_starts_with name (text "/") then name else folder ++ 47 ∷ name

-- The first error of the checks of one record, in the order of the source.
abbrev first_err : Code → Code → Code
first_err err next = if is_no_err err then next else err

abbrev pub payload_err : Bytes → Code
payload_err data_tmp =
    if leb (length data_tmp) (header_size + crc_size)
    then log_no_ld_err
    else if get_or data_tmp 0 0 == 10
        && get_or data_tmp 1 0 == 20
        && get_or data_tmp 2 0 == length data_tmp - header_size - crc_size
    then no_err
    else log_ld_parse_err

abbrev pub length_err : Bytes → ℕ → Code
length_err data_tmp exp_len = if length data_tmp == exp_len then no_err else log_rec_len_err

abbrev pub response_err : Bool → Code
response_err is_error = if is_error then log_rsp_err else no_err

-- What the check of a record gives: the code (no error where the record is valid), the index of the
-- payload and the file name; `none` where the name cannot be decoded.
abbrev pub Checked : Type 0
Checked = Option (Code × ℕ × Text)

-- The checks of a record that do not look at the file name.
unfoldable pub record_err : Bytes → ℕ → Bool → Code
record_err data_tmp exp_len is_error =
    first_err (payload_err data_tmp)
      (first_err (length_err data_tmp exp_len) (response_err is_error))

-- Where the file name ends in the first record.
unfoldable pub name_end : Bytes → Option ℕ
name_end data_fname = elim (find needle data_fname) [
  | none ↦ none
  | some i ↦ some (i + length needle)
]

-- `_validate_read_file_response`, with the storage path and the last file name.
unfoldable pub validate_read_file_response :
    Text → ℕ → Option Bool → Option Bytes → ℕ → Text → Checked
validate_read_file_response storage record_number none data_tmp exp_len filename =
    some (log_attr_err, 0, filename)
validate_read_file_response storage record_number (some is_error) none exp_len filename =
    some (log_attr_err, 0, filename)
validate_read_file_response storage record_number (some is_error) (some data_tmp) exp_len filename =
    let err = record_err data_tmp exp_len is_error in
    let data_fname = take filename_size (drop header_size data_tmp) in
    if not (record_number == 0) then some (err, 0, filename) else elim (name_end data_fname) [
      | none ↦ some (first_err err log_fname_err, 0, filename)
      | some end ↦ elim (utf8_decode (take end data_fname)) [
        | none ↦ none
        | some name ↦ some (err, filename_size, path_join storage name)
      ]
    ]

-- The part of a record that is kept: `data_tmp[header + idx : -crc]`.
unfoldable pub kept : ℕ → Bytes → Bytes
kept idx data_tmp = drop (header_size + idx) (take (length data_tmp - crc_size) data_tmp)

-- The variables of the loop.
pub record Loop : Type 0 where
  pub bytes : Bytes
  pub filename : Text
  pub last_err : Code

-- One round of the loop: the variables, and whether the record was accepted.
unfoldable pub take_record : Text → ℕ → ℕ → FileReply → Loop → Bool × Loop
unfolding kept
take_record storage record_number exp_len FileReply.failed v =
    (false, record v { last_err = log_run_err })
take_record storage record_number exp_len (FileReply.answered is_error data_tmp) v =
    elim (validate_read_file_response storage record_number is_error data_tmp exp_len v.filename) [
      | none ↦ (false, v)
      | some (err, idx, filename) ↦
          if is_no_err err
          then (
            true,
            record v {
              bytes = v.bytes ++ kept idx (elim data_tmp [ none ↦ [] | some d ↦ d ]);
              filename = filename;
              last_err = no_err;
            },
          )
          else (false, record v { filename = filename; last_err = err })
    ]
