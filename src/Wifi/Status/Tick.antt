-- ===== src/Wifi/Status/Tick.antt =====
-- src/bluetoothApi/state.py: `to_tick_json` read back, and its size.
use mathlib.Core.List.{append_assoc}
use gateway_nexy.Base.{
  ◌≡◌, refl, ◌≤◌, true, Option, some, [], ◌∷◌, ◌++◌, length, drop, length-append, arith, leb, ◌&&◌,
  if◌then◌else◌,
}
use gateway_nexy.Base.Int.{ℤ, pos}
use gateway_nexy.Base.Text.{Text, str_nat, int_of, all_digits, is_digit}
use gateway_nexy.Base.Text.Decimal.{int_of-str_nat, all_digits-str_nat, is_digit-str_nat}
use gateway_nexy.Wifi.Json.{json_text, json_object, json_chars, json_char, json_join}
use gateway_nexy.Wifi.Status.{Phase, Status, phase_value, to_tick_json}

-- The digits at the front of a text.
abbrev pub leading_digits : Text → Text
leading_digits [] = []
leading_digits (c ∷ s) =
    let rest = leading_digits s in if leb b'0' c && leb c b'9' then c ∷ rest else []

-- The sequence number in a tick: the number after `{"seq":`.
unfoldable pub tick_seq : Text → Option ℤ
tick_seq tick = int_of (leading_digits (drop 7 tick))

leading_digits-append : (s t : Text) → all_digits s ≡ true → leading_digits (s ++ 44 ∷ t) ≡ s
leading_digits-append [] t h = refl
leading_digits-append (c ∷ s) t h = ground (arith, leading_digits-append s t)

-- The app reads the status's sequence number in its tick.
pub tick_seq-to_tick_json : (s : Status) → tick_seq (to_tick_json s) ≡ some (pos s.seq)
unfolding tick_seq to_tick_json json_object json_join
tick_seq-to_tick_json s =
    rw append_assoc (
      rw (leading_digits-append (str_nat s.seq) _ (all_digits-str_nat s.seq))
        (int_of-str_nat s.seq))

length_digits : (s : Text) → is_digit s ≡ true → 1 ≤ length s
length_digits [] h = ground arith
length_digits (c ∷ s) h = omega arith

length-phase_value : (p : Phase) → 6 ≤ length (json_text (phase_value p))
unfolding json_text json_chars json_char phase_value
length-phase_value p = ground arith

-- A tick has at least 44 bytes.
pub length-to_tick_json : (s : Status) → 44 ≤ length (to_tick_json s)
unfolding to_tick_json json_object json_join
length-to_tick_json s =
    let seq = length_digits (str_nat s.seq) (is_digit-str_nat s.seq) in
    let ms = length_digits (str_nat s.last_updated_ms) (is_digit-str_nat s.last_updated_ms) in
    let phase = length-phase_value s.phase in simp length-append (omega arith)
