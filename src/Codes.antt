-- ===== src/Codes.antt =====
-- src/lib/error_signals.py: the codes of the lift components. They travel as the names of the enum
-- members, and a name of one enum is compared with a name of another, so one type lists the names
-- of `MbCode`, `Rs232Code` and `LpCode`.
use gateway_nexy.Base.{Bool, true, false}

-- The names of the members other than `SOURCE`.
pub data Code : Type 0 where
  no_err arg_err arg_int_err com_err reg_err lcm_err log_type_err log_err_cnt log_save_err : Code
  log_run_err log_no_ld_err log_rec_len_err log_rsp_err log_ld_parse_err log_fname_err : Code
  log_attr_err file_empty file_not_found file_transfer_err link_err disk_limit_err : Code
  file_name_err file_header_err custom_speed_err floor_lock_err param_not_in_db : Code
  param_not_set init_err identify_err param_read_only poll_err log_err file_err : Code
  partial_err data_err no_updated_params data_len_err cmd_not_supported json_key_err : Code
  package_not_supported vfd_id_err : Code
  arg_type_err args_in_elem_attr_err args_in_len_err args_in_elem_int_err serial_com_err : Code
  json_err json_value_type_err status_err no_waiting_bytes_err data_type_err : Code
  no_params_in_db log_file_exception log_file_io_err log_file_already_exist : Code
  list_index_err write_param_not_supported_by_1k write_param_not_in_files : Code
  serial_decode_err vfd_timeout_err vfd_no_pwr_err : Code

-- `code == X.NO_ERR.name`.
abbrev pub is_no_err : Code → Bool
is_no_err Code.no_err = true
is_no_err _ = false

-- `code == MbCode.LCM_ERR.name`.
abbrev pub is_lcm_err : Code → Bool
is_lcm_err Code.lcm_err = true
is_lcm_err _ = false
