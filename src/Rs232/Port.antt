-- ===== src/Rs232/Port.antt =====
-- What src/liftApi/rs232_handler.py uses of the serial port, the clock, `json` and the counter files,
-- and the state of `Rs232Handler`.
use gateway_nexy.Base.{ℕ, Bool, Option, none, some, List}
use gateway_nexy.Base.Int.{ℤ}
use gateway_nexy.Base.Text.{Text}
use gateway_nexy.Base.Json.{Json, Fields}
use gateway_nexy.Codes.{Code}
use gateway_nexy.Modbus.Registers.{Val}
use gateway_nexy.Thousand.Lookup.{ThousandLib}

-- What the waiting bytes are: a text, empty where none wait; a `SerialException`; no UTF-8.
pub data Waiting : Type 0 where
  bytes : Text → Waiting
  serial_exception : Waiting
  decode_error : Waiting

-- The two files with door counters.
pub data CounterFile : Type 0 where
  total_file previous_file : CounterFile

-- What the writing of a file gives: done, an `IOError`, another exception.
pub data Written : Type 0 where
  written io_error other_error : Written

pub record Port : Type 1 where
  pub State : Type 0
  -- `client.write`; `false` is an exception
  pub write : Text → State → Bool × State
  -- `client.in_waiting` and `client.read`
  pub read : State → Waiting × State
  -- `time.monotonic`, in halves of a second, and `time.sleep(0.5)`
  pub now : State → ℕ
  pub sleep : State → State
  -- `int(time.time())`
  pub unix_time : State → ℕ
  -- `JSONDecoder.raw_decode` with the text that is left, `json.loads` and `json.dumps`
  pub raw_decode : Text → Option (Json × Text)
  pub loads : Text → Option Json
  pub dumps : Json → Text
  -- `str` of a value in a list
  pub repr : Json → Text
  -- the reading and the writing of a counter file; `none` is an exception
  pub read_counters : CounterFile → State → Option (List ℤ) × State
  -- whether the directory of logs is there or can be made, the path of the log of an object at this
  -- time, whether it exists, and the writing of it
  pub log_directory : State → Bool × State
  pub log_path : Text → State → Text
  pub is_file : Text → State → Bool
  pub write_text : Text → Text → State → Written × State
  pub write_counters : CounterFile → List Val → State → Code × State

-- The attributes of `Rs232Handler` that change. `available` says that `client` is not `None`.
pub record Rs232 (S : Type 0) : Type 0 where
  pub available : Bool
  pub polled_file_package : ℕ
  pub saved_operation_notifications : List Fields
  pub saved_vfd_results : List Fields
  pub lib : ThousandLib
  pub port : S

-- A method: its result, where `none` is an exception, and the state after it.
abbrev pub Method : Type 0 → Type 0 → Type 0
Method S A = Rs232 S → Option A × Rs232 S

abbrev pub done : {S A : Type 0} → A → Method S A
done a r = (some a, r)

abbrev pub raise : {S A : Type 0} → Method S A
raise r = (none, r)

infixl 5 ◌>>=◌ ◌>>◌
abbrev pub ◌>>=◌ : {S A B : Type 0} → Method S A → (A → Method S B) → Method S B
◌>>=◌ m f r = let (result, r') = m r in elim result [ none ↦ (none, r') | some a ↦ f a r' ]

abbrev pub ◌>>◌ : {S B : Type 0} → Method S (Unit {0}) → Method S B → Method S B
m >> k = m >>= λ _. k

-- A value that may be an exception.
abbrev pub lift : {S A : Type 0} → Option A → Method S A
lift result r = (result, r)

-- What a method answers: a value with `NO_ERR`, or another code. The value that comes with another
-- code is left out.
pub data Answer (A : Type 0) : Type 0 where
  answer : A → Answer A
  failed : Code → Answer A

-- `if err_code != NO_ERR: return ..., err_code`
abbrev pub answered : {S A B : Type 0} → (A → Method S (Answer B)) → Answer A → Method S (Answer B)
answered f (answer a) = f a
answered f (failed code) = done (failed code)

abbrev pub on_answer :
    {S A B : Type 0} → Method S (Answer A) → (A → Method S (Answer B)) → Method S (Answer B)
on_answer m f = m >>= answered f
