-- ===== src/Rs232/Serial.antt =====
-- src/liftApi/rs232_handler.py: `write_serial` and `read_serial`.
pub mod Reading
use gateway_nexy.Base.{
  ℕ, zero, suc, ◌+◌, ◌-◌, Bool, true, false, not, ◌&&◌, Option, none, some, List, [], ◌∷◌, ◌++◌,
  reverse, ltb, ◌==◌, if◌then◌else◌,
}
use gateway_nexy.Base.Text.{Text, text, text_starts_with}
use gateway_nexy.Codes.{Code, no_err, serial_com_err, serial_decode_err, no_waiting_bytes_err}
use gateway_nexy.Thousand.Lookup.{ThousandLib}
use gateway_nexy.Rs232.Port.{
  Port, Rs232, Method, done, raise, lift, ◌>>=◌, Answer, answer, failed, Waiting, bytes,
  serial_exception, decode_error,
}
use gateway_nexy.Rs232.Commands.{
  Command, logfile, Checked, accepted, refused, raised, validate_serial_inputs, message,
}
use gateway_nexy.Rs232.Versions.{check_if_above_or_equal_to_versions, logfile_length_version_limits}

-- `time.sleep(self.serial_timeout)` is half a second, `serial_total_timeout` twenty halves.
abbrev pub serial_total_timeout : ℕ
serial_total_timeout = 20

-- `rsp.endswith('}')`
abbrev pub ends_frame : Text → Bool
ends_frame [] = false
ends_frame (c ∷ []) = c == b'}'
ends_frame (c ∷ d ∷ rsp) = ends_frame (d ∷ rsp)

-- `rsp[rsp.find('{'):]`; `none` where there is none.
unfoldable pub from_frame_start : Text → Option Text
from_frame_start [] = none
from_frame_start (c ∷ rsp) =
    let rest = from_frame_start rsp in if c == b'{' then some (c ∷ rsp) else rest

abbrev pub whole_from : Option Text → Answer Text
whole_from none = failed serial_decode_err
whole_from (some frame) = answer frame

-- What a whole response gives.
unfoldable pub whole_response : Text → Answer Text
unfolding from_frame_start
whole_response rsp = whole_from (from_frame_start rsp)

-- The end of the loop.
abbrev pub given_up : Text → Answer Text
given_up [] = failed no_waiting_bytes_err
given_up (c ∷ rsp) = failed serial_decode_err

abbrev pub nr_retries : ℕ
nr_retries = 5

module _ (p : Port) where
  open p use {State, write, read, now, sleep, loads, repr}

  -- The loop goes on with what was read, the number of tries and the state.
  abbrev pub Reading : Type 0
  Reading = Text → ℕ → State → Option (Answer Text) × State

  -- New bytes start the tries again; after the last try there is no sleep.
  abbrev pub keep_reading : Reading → Text → ℕ → Text → State → Option (Answer Text) × State
  keep_reading continue rsp i [] s =
      if ltb (suc i) nr_retries then continue rsp (suc i) (sleep s) else continue rsp (suc i) s
  keep_reading continue rsp i (c ∷ more) s = continue (rsp ++ (c ∷ more)) 0 (sleep s)

  unfoldable pub read_more : Reading → Text → ℕ → Waiting → State → Option (Answer Text) × State
  unfolding whole_response
  read_more continue rsp i serial_exception s = (some (failed serial_com_err), s)
  read_more continue rsp i decode_error s = (some (failed serial_decode_err), s)
  read_more continue rsp i (bytes more) s =
      if ends_frame (rsp ++ more)
      then (some (whole_response (rsp ++ more)), s)
      else keep_reading continue rsp i more s

  -- The loop of `read_serial` with what was read and the number of tries; `none` where the fuel has
  -- run out.
  unfoldable pub read_rounds : ℕ → ℕ → Text → ℕ → State → Option (Answer Text) × State
  unfolding read_more
  read_rounds zero deadline rsp i s = (none, s)
  read_rounds (suc fuel) deadline rsp i s =
      if ltb i nr_retries && ltb (now s) deadline
      then read_more (read_rounds fuel deadline) rsp i (read s).0 (read s).1
      else (some (given_up rsp), s)

  -- `read_serial`
  unfoldable pub read_serial : ℕ → Method State (Answer Text)
  unfolding read_rounds
  read_serial deadline r =
      if not r.available
      then (some (failed serial_com_err), r)
      else (let (result, s) = read_rounds (suc (deadline - now r.port)) deadline [] 0 r.port in
          (result, record r { port = s }))

  -- Whether a log request may have a length; other commands do not ask.
  unfoldable pub versions_for : Command → Method State Bool
  unfolding check_if_above_or_equal_to_versions
  versions_for (logfile v) r =
      (check_if_above_or_equal_to_versions logfile_length_version_limits r.lib.database, r)
  versions_for cmd r = (some true, r)

  abbrev pub sent : Text → Method State (Answer (Unit {0}))
  sent msg r =
      let (written, s) = write msg r.port in
      ((if written then some (answer tt) else none), record r { port = s })

  -- What follows the check of a command.
  unfoldable pub write_checked : Checked → Method State (Answer (Unit {0}))
  unfolding message versions_for
  write_checked raised = raise
  write_checked (refused code) = done (failed code)
  write_checked (accepted cmd) = versions_for cmd >>= λ versions. sent (message repr versions cmd)

  -- `write_serial`; of its result only the code is used.
  unfoldable pub write_serial : List Text → Method State (Answer (Unit {0}))
  unfolding validate_serial_inputs write_checked
  write_serial args r =
      if not r.available
      then (some (failed serial_com_err), r)
      else write_checked (validate_serial_inputs loads args) r

  -- `time.sleep(self.serial_timeout)`
  abbrev pub pause : Method State (Unit {0})
  pause r = (some tt, record r { port = sleep r.port })
