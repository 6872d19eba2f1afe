-- ===== src/Wifi/Status/Size.antt =====
-- src/bluetoothApi/state.py: the size of the full status, for the 512 bytes of a characteristic.
use gateway_nexy.Base.{
  ◌≡◌, ◌+◌, ◌*◌, ◌≤◌, Option, none, some, List, [], ◌∷◌, length, map, length-append, arith,
}
use gateway_nexy.Base.Text.{Text, str_nat, str_int}
use gateway_nexy.Wifi.Json.{
  json_text, json_object, json_chars, json_char, json_join, json_list, json_more,
}
use gateway_nexy.Wifi.Status.{
  Phase, Status, NetworkInfo, ConnectionInfo, phase_value, to_json, json_network, json_connection,
  json_option,
}

-- The texts of a network as the budget counts them: 32 characters of SSID, `-100`, `WPA2`.
pub record SmallNetwork (n : NetworkInfo) : Type 0 where
  pub ssid : length (json_text n.ssid) ≤ 34
  pub rssi : length (str_int n.rssi) ≤ 4
  pub security : length (json_text n.security) ≤ 6

pub record SmallConnection (c : ConnectionInfo) : Type 0 where
  pub ssid : length (json_text c.ssid) ≤ 34
  pub rssi : length (str_int c.rssi) ≤ 4
  pub ip : length (json_text c.ip) ≤ 17

abbrev pub AllSmall : List NetworkInfo → Type 0
AllSmall [] = Unit
AllSmall (n ∷ ns) = SmallNetwork n × AllSmall ns

-- A short text, or none.
abbrev pub SmallText : Option Text → Type 0
SmallText none = Unit
SmallText (some t) = length (json_text t) ≤ 7

abbrev pub SmallCurrent : Option ConnectionInfo → Type 0
SmallCurrent none = Unit
SmallCurrent (some c) = SmallConnection c

phase_value_max : (p : Phase) → length (json_text (phase_value p)) ≤ 14
unfolding json_text json_chars json_char phase_value
phase_value_max p = ground arith

json_network_max : (n : NetworkInfo) → SmallNetwork n → length (json_network n) ≤ 73
unfolding json_network json_object json_join
json_network_max n h =
    let ssid = h.ssid in
    let rssi = h.rssi in let security = h.security in simp length-append (omega arith)

json_connection_max : (c : ConnectionInfo) → SmallConnection c → length (json_connection c) ≤ 78
unfolding json_connection json_object json_join
json_connection_max c h =
    let ssid = h.ssid in let rssi = h.rssi in let ip = h.ip in simp length-append (omega arith)

json_more_max :
    (ns : List NetworkInfo)
    → AllSmall ns
    → length (json_more (map json_network ns)) ≤ 74 * length ns
json_more_max [] h = omega arith
json_more_max (n ∷ ns) (h, hs) =
    let first = json_network_max n h in
    let others = json_more_max ns hs in simp length-append (omega arith)

json_list_max :
    (ns : List NetworkInfo)
    → AllSmall ns
    → length (json_list (map json_network ns)) ≤ 2 + 74 * length ns
unfolding json_list json_join
json_list_max [] h = omega arith
json_list_max (n ∷ ns) (h, hs) =
    let first = json_network_max n h in
    let others = json_more_max ns hs in simp length-append (omega arith)

json_iface_max : (t : Option Text) → SmallText t → length (json_option json_text t) ≤ 7
json_iface_max none h = omega arith
json_iface_max (some t) h = h

json_current_max :
    (c : Option ConnectionInfo) → SmallCurrent c → length (json_option json_connection c) ≤ 78
json_current_max none h = omega arith
json_current_max (some c) h = json_connection_max c h

-- A status without an error fits the 512 bytes, where it has at most four networks, where the SSIDs,
-- quoted and escaped, have at most 34 characters, the signal strengths four, the quoted security
-- labels six, the quoted interface seven, the quoted address 17, the sequence number ten digits and
-- the time 13.
pub to_json_fits :
    (s : Status)
    → length s.networks ≤ 4
    → AllSmall s.networks
    → SmallText s.iface
    → SmallCurrent s.current
    → s.error ≡ none
    → length (str_nat s.seq) ≤ 10
    → length (str_nat s.last_updated_ms) ≤ 13
    → length (to_json s) ≤ 512
unfolding to_json json_object json_join
to_json_fits s count networks iface current error seq ms =
    let phase_max = phase_value_max s.phase in
    let networks_max = json_list_max s.networks networks in
    let iface_max = json_iface_max s.iface iface in
    let current_max = json_current_max s.current current in
    rw error (simp length-append (omega arith))
