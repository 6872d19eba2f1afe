-- ===== src/Wifi/Overflow.antt =====
-- src/bluetoothApi: a status that is larger than the 512 bytes of a characteristic.
use gateway_nexy.Base.{
  ◌≡◌, ℕ, ◌+◌, ◌≤◌, ◌<◌, false, some, [], ◌∷◌, ◌++◌, length, length-append, arith, elem, not, ◌&&◌,
  if◌then◌else◌,
}
use gateway_nexy.Base.Text.{Text, text, text_eq}
use gateway_nexy.Wifi.Json.{
  json_text, json_object, json_chars, json_char, json_join, repr, repr_char, repr_chars,
}
use gateway_nexy.Wifi.Status.{Status, ErrorCode, to_json, json_error, code_value}
use gateway_nexy.Wifi.Controller.{Controller, request_connect, set_error, commit, emit}

length-json_char : (c : ℕ) → 1 ≤ length (json_char c)
unfolding json_char
length-json_char c = ground arith

length-json_chars : (s : Text) → length s ≤ length (json_chars s)
unfolding json_chars
length-json_chars [] = omega arith
length-json_chars (c ∷ s) =
    let first = length-json_char c in
    let rest = length-json_chars s in simp length-append (omega arith)

length-json_text : (s : Text) → length s ≤ length (json_text s)
unfolding json_text
length-json_text s = let chars = length-json_chars s in simp length-append (omega arith)

length-repr_char : (q c : ℕ) → 1 ≤ length (repr_char q c)
length-repr_char q c = ground arith

length-repr_chars : (q : ℕ) (s : Text) → length s ≤ length (repr_chars q s)
length-repr_chars q [] = omega arith
length-repr_chars q (c ∷ s) =
    let first = length-repr_char q c in
    let rest = length-repr_chars q s in simp length-append (omega arith)

length-repr : (s : Text) → length s ≤ length (repr s)
unfolding repr
length-repr s =
    let chars = length-repr_chars (if elem 39 s && not (elem 34 s) then 34 else 39) s in
    simp length-append (omega arith)

-- The message of an error is in the status.
to_json-message :
    (s : Status) (code message : Text)
    → s.error ≡ some (record { code = code; message = message })
    → 92 + length message ≤ length (to_json s)
unfolding to_json json_object json_join json_error
to_json-message s code message e =
    let inner = length-json_text message in rw e (simp length-append (omega arith))

set_error-latest :
    (code : ErrorCode) (message : Text) (now : ℕ) (c : Controller)
    → (set_error code message now c).latest_status_json
      ≡ to_json (set_error code message now c).status
unfolding set_error commit emit
set_error-latest code message now c = ground arith

length-set_error :
    (code : ErrorCode) (message : Text) (now : ℕ) (c : Controller)
    → 92 + length message ≤ length (set_error code message now c).latest_status_json
length-set_error code message now c = rw (set_error-latest code message now c) (
    to_json-message (set_error code message now c).status (code_value code) message
      (unfold set_error commit emit in ground arith))

-- A connection request for an unknown interface whose name has at least 407 characters leaves a
-- status of more than 512 bytes.
pub unknown_iface_overflows :
    (psk iface : Text) (now : ℕ) (c : Controller)
    → text_eq iface (text "wlan0") ≡ false
    → text_eq iface (text "ppp0") ≡ false
    → 407 ≤ length iface
    → 512 < length (request_connect psk iface now c).latest_status_json
unfolding request_connect
unknown_iface_overflows psk iface now c h₁ h₂ long =
    let shown = length-repr iface in
    rw (h₁, h₂)
      (ground (
        arith,
        length-set_error ErrorCode.invalid_request (text "unknown iface " ++ repr iface) now c,
      ))
