-- ===== src/Lib.antt =====
-- The gateway application of Aritco lifts: models of its Python sources and proofs about them.
--
-- The program connects a lift to Azure IoT Hub. AHL lifts speak Modbus over RS485
-- (src/liftApi/modbus_handler.py, class ModBusHandler), and their parameters are kept in a database
-- with change flags (src/lib/ahl_lib.py, class AhlLib), which polls through the handler. Lifts of the
-- 1000 series speak packages over RS232, and their signals are kept by src/lib/thousand_lib.py (class
-- ThousandLib). src/liftApi/lift_proxy.py (class LiftProxy) finds out which of the two lifts is
-- connected, binds its handler and library, and is where all others read, write and poll. Beside
-- them, a mobile app sets up WiFi over Bluetooth (src/bluetoothApi): the class WifiController keeps
-- the status that the app reads, and sends it ticks.
--
-- Base: the shared notation. Python's integers (Base/Int.antt), texts as lists of code points with
--   `str` and `int` (Base/Text.antt), JSON values (Base/Json.antt), dicts (Base/Dict.antt, Base/IntDict.antt), `|`
--   (Base/Bits.antt). Texts are ASCII.
-- Codes: the names of the error codes of src/lib/error_signals.py.
-- Modbus: src/liftApi/modbus_handler.py. Registers has the grammar of values, the packing into two
--   16-bit registers and the checks of replies (parse_int_value, _pack_value, _convert_param_addr,
--   _validate_read_param_response, _validate_write_param_response). Bus is the interface to
--   pymodbus, the device file and the shell, and the same with a log of the requests. Connection
--   has the flags, close and the decorator check_modbus_connection; Read has read_parameter; Write
--   has write_parameter with the checks for speed, floor lock, alarm resets and reboot. The loops
--   run for the three rounds of the source, as recursion on the rounds left. Trace has the download
--   of a log (log_generate, generate_trace_log, _validate_read_file_response, _save_log), Upgrade
--   the transfer of a firmware package (write_upgrade_package); their loops are recursions on the
--   records left, inside or around one on the errors left. The records of a file are cut off with
--   its length as the bound, which is enough since every record takes at least one byte.
-- Ahl: src/lib/ahl_lib.py. Tables has the polling tables and decode_change_flags, Database the
--   parameters with get_param and set_param, Poll has poll_params over any reader of parameters.
--   Names and units of parameters are left out: they are only displayed.
-- Thousand: src/lib/thousand_lib.py. Signals has the class Signal and __unpack_signal with what it
--   calls, Packages the enums, Protocol __init_database, Lookup the attributes with get_param and
--   set_param, Virtual the virtual signals, Updates get_updated_params, Doors the door counters and
--   closing times, Vfd the motor data of update_vfd_params and the default lists, Poll poll_params
--   over a poll of the handler. An exception that leaves a method is none, and the state before it
--   is then not followed.
-- Rs232: src/liftApi/rs232_handler.py, class Rs232Handler. Port is the interface to the serial
--   port, the clock, json and the files, with the attributes that change and the form of a
--   method: its result, or none for an exception, and the state after it. Commands has
--   __validate_serial_inputs and the messages, Frames __decode_and_validate_serial_response,
--   Serial write_serial and read_serial, Split __split_response and
--   get_signal_from_serial_buffer, Versions check_if_above_or_equal_to_versions, Requests the
--   requests, Vfd the frequency converter, Packages the packages, notifications and door
--   counters, Poll poll_lift, Write read_parameter and write_parameter, Logs get_logfile,
--   Production get_and_save_prod_loader_params. The loop of read_serial has as fuel the time to
--   its deadline in halves of a second, since it sleeps one half in every round but the last;
--   frames are decoded with the length of the response as fuel, since each takes a character or
--   more. Of a method that answers with a code the rest of the result is left out. What a
--   method of ThousandLib changes before it raises is not followed. A float in a response
--   counts as the text of its whole part, which bit operations refuse like the float, and a
--   null, list or dict, an infinity or NaN as -1, all of which the bytes refuse.
-- Proxy: src/liftApi/lift_proxy.py and src/liftApi/lift_identifier.py. Devices is the interface to
--   the two handlers and libraries, whose operations may raise. Bind has identify_lift, _bind and
--   create, with its ten attempts as recursion on the attempts left; Access the reads and writes, with
--   OnAhl the objects of the proxy with the AhlLib of Ahl in place;
--   Twin _get_interval and _get_param_push_list on the device twin; Polling
--   poll_params and one round of each loop; Machine the abstract machine and the runs of any
--   operations. What holds the handler lock is one step. The source of a code is left out.
-- Wifi: src/bluetoothApi. Status has state.py with both JSON texts, Json what they use of
--   json.dumps and repr, Controller the methods of controller.py cut at the points where they wait,
--   Events the step of the event loop and its runs, with the invariants and the overlaps of calls.
--   The results of the CLI and the clock come with the events.
-- Tests: evaluations on concrete inputs, and instances of the theorems.
--
-- Every method is a function from the state before to its result and the state after. Logging is
-- left out. The Modbus driver has no awaits; its methods are taken to run one at a time.
-- Not modelled: the time synchronisation and command line of the RS232 driver; the handlers of cloud
-- requests; cancellation and the timeout of reports; the cloud client, BLE server, file system,
-- start-up and logging, which are calls of other libraries; and the vendored BLE SDK.
pub mod Base
pub mod Codes
pub mod Modbus
pub mod Ahl
pub mod Thousand
pub mod Rs232
pub mod Proxy
pub mod Wifi
pub mod Tests
