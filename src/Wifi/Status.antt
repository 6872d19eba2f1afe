-- ===== src/Wifi/Status.antt =====
-- src/bluetoothApi/state.py: the status and its two serializations.
pub mod Size
pub mod Tick
use gateway_nexy.Base.{ℕ, Option, none, some, List, [], ◌∷◌, map}
use gateway_nexy.Base.Int.{ℤ}
use gateway_nexy.Base.Text.{Text, text, str_nat, str_int}
use gateway_nexy.Wifi.Json.{json_text, json_field, json_object, json_list}

-- `MAX_NETWORKS_IN_STATUS`
abbrev pub max_networks_in_status : ℕ
max_networks_in_status = 4

pub data Phase : Type 0 where
  idle : Phase
  scanning : Phase
  connecting : Phase
  connected : Phase
  disconnected : Phase
  error : Phase

pub data ErrorCode : Type 0 where
  psk_too_short : ErrorCode
  psk_wrong : ErrorCode
  ssid_not_found : ErrorCode
  timeout : ErrorCode
  invalid_request : ErrorCode

pub record NetworkInfo : Type 0 where
  pub ssid : Text
  pub rssi : ℤ
  pub security : Text

pub record ConnectionInfo : Type 0 where
  pub ssid : Text
  pub rssi : ℤ
  pub ip : Text

pub record StatusError : Type 0 where
  pub code : Text
  pub message : Text

pub record Status : Type 0 where
  pub seq : ℕ
  pub phase : Phase
  pub iface : Option Text
  pub current : Option ConnectionInfo
  pub networks : List NetworkInfo
  pub error : Option StatusError
  pub last_updated_ms : ℕ

-- `Status(last_updated_ms=now)`
abbrev pub new_status : ℕ → Status
new_status now = record {
  seq = 0;
  phase = Phase.idle;
  iface = none;
  current = none;
  networks = [];
  error = none;
  last_updated_ms = now;
}

-- `phase.value`
unfoldable pub phase_value : Phase → Text
phase_value Phase.idle = text "idle"
phase_value Phase.scanning = text "scanning"
phase_value Phase.connecting = text "connecting"
phase_value Phase.connected = text "connected"
phase_value Phase.disconnected = text "disconnected"
phase_value Phase.error = text "error"

-- `code.value`
unfoldable pub code_value : ErrorCode → Text
code_value ErrorCode.psk_too_short = text "PSK_TOO_SHORT"
code_value ErrorCode.psk_wrong = text "PSK_WRONG"
code_value ErrorCode.ssid_not_found = text "SSID_NOT_FOUND"
code_value ErrorCode.timeout = text "TIMEOUT"
code_value ErrorCode.invalid_request = text "INVALID_REQUEST"

-- `None` as `null`.
abbrev pub json_option : {A : Type 0} → (A → Text) → Option A → Text
json_option show none = text "null"
json_option show (some a) = show a

unfoldable pub json_network : NetworkInfo → Text
json_network n = json_object (
    json_field (text "ssid") (json_text n.ssid)
    ∷ json_field (text "rssi") (str_int n.rssi)
    ∷ json_field (text "security") (json_text n.security)
    ∷ [])

unfoldable pub json_connection : ConnectionInfo → Text
json_connection c = json_object (
    json_field (text "ssid") (json_text c.ssid)
    ∷ json_field (text "rssi") (str_int c.rssi)
    ∷ json_field (text "ip") (json_text c.ip)
    ∷ [])

unfoldable pub json_error : StatusError → Text
json_error e = json_object (
    json_field (text "code") (json_text e.code)
    ∷ json_field (text "message") (json_text e.message)
    ∷ [])

-- `to_json`
unfoldable pub to_json : Status → Text
unfolding phase_value json_network json_connection json_error
to_json s = json_object (
    json_field (text "seq") (str_nat s.seq)
    ∷ json_field (text "phase") (json_text (phase_value s.phase))
    ∷ json_field (text "iface") (json_option json_text s.iface)
    ∷ json_field (text "current") (json_option json_connection s.current)
    ∷ json_field (text "networks") (json_list (map json_network s.networks))
    ∷ json_field (text "error") (json_option json_error s.error)
    ∷ json_field (text "last_updated_ms") (str_nat s.last_updated_ms)
    ∷ [])

-- `to_tick_json`
unfoldable pub to_tick_json : Status → Text
unfolding phase_value
to_tick_json s = json_object (
    json_field (text "seq") (str_nat s.seq)
    ∷ json_field (text "phase") (json_text (phase_value s.phase))
    ∷ json_field (text "last_updated_ms") (str_nat s.last_updated_ms)
    ∷ [])
