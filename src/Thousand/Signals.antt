-- ===== src/Thousand/Signals.antt =====
-- src/lib/thousand_lib.py: a signal and how its value is unpacked from a lift's response. `none` is
-- an exception that leaves the method. The names of signals are left out: they are only logged.
pub mod LittleEndian
use gateway_nexy.Base.{
  ℕ, zero, suc, ◌+◌, ◌-◌, ◌*◌, ◌/◌, ◌%◌, ◌^◌, Bool, true, false, ◌&&◌, ◌||◌, Option, none, some,
  List, [], ◌∷◌, map, leb, ltb, ◌==◌, length, take, drop, get_elem?, if◌then◌else◌,
}
use gateway_nexy.Base.Int.{ℤ, pos, negsuc, leb_ℤ, sub_ℕ}
use gateway_nexy.Base.Text.{Text, text, str_nat, str_int, int_of}
use gateway_nexy.Codes.{Code, no_err, partial_err}
use gateway_nexy.Modbus.Registers.{Val, str, int}

-- The kinds of signal; the three kinds of generic text are unpacked alike.
pub data SignalType : Type 0 where
  uint wtime byte string time generic_text vfd : SignalType

-- `Signal`
pub record Signal : Type 0 where
  pub value : Val
  pub bit_start : ℕ
  pub bit_size : ℕ
  pub byte_start : ℕ
  pub byte_size : ℕ
  pub signal_type : SignalType

-- What the lift has answered: numbers, or the texts of a generic text.
abbrev pub Response : Type 0
Response = List Val

abbrev is_byte : ℤ → Bool
is_byte z = leb_ℤ (pos 0) z && leb_ℤ z (pos 255)

-- `int(v)` is a byte.
abbrev pub reads_byte : Val → Bool
reads_byte (int z) = is_byte z
reads_byte (str s) = elim (int_of s) [ none ↦ false | some z ↦ is_byte z ]

abbrev pub are_bytes : ℕ → Response → Bool
are_bytes zero response = true
are_bytes (suc n) [] = false
are_bytes (suc n) (v ∷ response) = reads_byte v && are_bytes n response

-- `__validate_bytes`; `false` is an exception.
unfoldable pub validate_bytes : Signal → Response → Bool
validate_bytes signal response = are_bytes signal.byte_size (drop signal.byte_start response)

-- A value that bit operations take; a negative number does not get past `__validate_bytes`.
abbrev pub byte_of : Val → Option ℕ
byte_of (int (pos n)) = some n
byte_of (int (negsuc n)) = none
byte_of (str s) = none

abbrev pub byte_at : Response → ℕ → Option ℕ
byte_at response i = elim (get_elem? response i) [ none ↦ none | some v ↦ byte_of v ]

-- The loop of `__unpack_uint` with the indices left; the low byte of the shifted value is free, so
-- that `|` adds the next byte.
unfoldable pub uint_from : Response → ℕ → ℕ → ℕ → Option ℕ
uint_from response start zero acc = some acc
uint_from response start (suc i) acc = elim (byte_at response (start + i)) [
  | none ↦ none
  | some b ↦ uint_from response start i (acc * 256 + b)
]

-- `__unpack_uint`
unfoldable pub unpack_uint : Signal → Response → Option ℕ
unfolding uint_from
unpack_uint signal response = uint_from response signal.byte_start signal.byte_size 0

-- The seconds since the alarm of a timer that ticks down from a week, as a time.
abbrev pub weekly_time : ℕ → ℕ → ℤ
weekly_time now unpacked =
    if unpacked == 0 then pos 0 else sub_ℕ (now + unpacked) (60 * 60 * 24 * 7)

-- `__unpack_weekly_timer`, where `now` is what `int(time.time())` gives.
unfoldable pub unpack_weekly_timer : ℕ → Signal → Response → Option ℤ
unfolding unpack_uint
unpack_weekly_timer now signal response = elim (unpack_uint signal response) [
  | none ↦ none
  | some unpacked ↦ some (weekly_time now unpacked)
]

-- `__unpack_byte`
unfoldable pub unpack_byte : Signal → Response → Option ℕ
unpack_byte signal response = elim (byte_at response signal.byte_start) [
  | none ↦ none
  | some b ↦ some (b / 2 ^ signal.bit_start % 2 ^ signal.bit_size)
]

-- `unsupported_chars`: the space and the comma.
abbrev pub is_unsupported : ℕ → Bool
is_unsupported c = c == 32 || c == 44

abbrev keep_char : ℕ → Option Text → Option Text
keep_char c none = none
keep_char c (some s) = some (if is_unsupported c then s else c ∷ s)

-- The loop of `__unpack_string`.
unfoldable pub string_from : ℕ → Response → Option Text
string_from zero response = some []
string_from (suc n) [] = none
string_from (suc n) (v ∷ response) =
    let rest = string_from n response in
    elim (byte_of v) [ none ↦ none | some c ↦ if c == 0 then some [] else keep_char c rest ]

-- `__unpack_string`
unfoldable pub unpack_string : Signal → Response → Option Text
unfolding string_from
unpack_string signal response = string_from signal.byte_size (drop signal.byte_start response)

abbrev no_separator : ℕ → ℕ
no_separator c = if c == b',' || c == b'_' then 32 else c

-- `s[:n - 1]`; for n = 0 it leaves out the last character.
abbrev cut_before : ℕ → Text → Text
cut_before zero s = take (length s - 1) s
cut_before (suc n) s = take n s

-- `__unpack_generic_text`
unfoldable pub unpack_generic_text : Signal → Response → Option Text
unpack_generic_text signal response = elim (get_elem? response signal.byte_start) [
  | none ↦ none
  | some (int z) ↦ none
  | some (str s) ↦ some (
      map no_separator
        (if leb signal.byte_size (length s) then cut_before signal.byte_size s else s))
]

-- `__unpack_as_epoch_time`
unfoldable pub unpack_as_epoch_time : Signal → Response → Option ℕ
unfolding unpack_uint
unpack_as_epoch_time signal response = elim (unpack_uint signal response) [
  | none ↦ none
  | some s_since_2001 ↦ some (978307200 + s_since_2001)
]

-- `"-1"` with `PARTIAL_ERR`.
abbrev pub failed_reply : Text × Code
failed_reply = (text "-1", partial_err)

abbrev pub reply_of : {A : Type 0} → (A → Text) → Option A → Option (Text × Code)
reply_of show none = none
reply_of show (some a) = some (show a, no_err)

abbrev pub same_text : Text → Text
same_text s = s

-- The value of a signal whose bytes have been checked.
unfoldable pub unpack_checked : ℕ → SignalType → Signal → Response → Option (Text × Code)
unfolding unpack_uint unpack_weekly_timer unpack_byte unpack_string unpack_generic_text
    unpack_as_epoch_time
unpack_checked now SignalType.uint signal response = reply_of str_nat (unpack_uint signal response)
unpack_checked now SignalType.wtime signal response =
    reply_of str_int (unpack_weekly_timer now signal response)
unpack_checked now SignalType.byte signal response = reply_of str_nat (unpack_byte signal response)
unpack_checked now SignalType.string signal response =
    reply_of same_text (unpack_string signal response)
unpack_checked now SignalType.time signal response =
    reply_of str_nat (unpack_as_epoch_time signal response)
unpack_checked now SignalType.generic_text signal response =
    reply_of same_text (unpack_generic_text signal response)
unpack_checked now SignalType.vfd signal response = some failed_reply

abbrev pub is_generic : SignalType → Bool
is_generic SignalType.generic_text = true
is_generic _ = false

-- `__unpack_signal`
unfoldable pub unpack_signal : ℕ → Signal → Response → Option (Text × Code)
unfolding validate_bytes unpack_checked
unpack_signal now signal response =
    if is_generic signal.signal_type || validate_bytes signal response
    then unpack_checked now signal.signal_type signal response
    else some failed_reply
