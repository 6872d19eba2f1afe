-- ===== src/Tests/Wifi.antt =====
-- Runs of the WiFi model on concrete values.
use gateway_nexy.Base.{
  ◌≡◌, refl, ◌≢◌, ◌⊎◌, ℕ, zero, suc, ◌≤◌, ◌<◌, true, false, none, some, [], ◌∷◌, length, map, arith,
}
use gateway_nexy.Base.Int.{pos, negsuc}
use gateway_nexy.Base.Text.{Text, text, str_nat}
use gateway_nexy.Wifi.Json.{json_text, json_char, json_chars, json_object, json_list, json_join}
use gateway_nexy.Wifi.Status.{
  Phase, Status, NetworkInfo, ConnectionInfo, new_status, to_json, phase_value,
}
use gateway_nexy.Wifi.Status.Tick.{tick_seq}
use gateway_nexy.Wifi.Status.Size.{to_json_fits, SmallNetwork, SmallConnection}
use gateway_nexy.Wifi.Controller.{
  Controller, Heartbeat, new_controller, commit, emit, with_phase, request_scan, scan_returned,
  request_connect, request_disconnect, heartbeat_commit,
}
use gateway_nexy.Wifi.Overflow.{unknown_iface_overflows}
use gateway_nexy.Wifi.Events.{Event, step, takes, ◌⟶*◌, here, then}
use gateway_nexy.Wifi.Events.Invariant.{is_error, is_some}
use gateway_nexy.Wifi.Events.Reachable.{busy_phase_is_at_work, status_is_consistent}
use gateway_nexy.Wifi.Events.Ticks.{ticks_count_down}
use gateway_nexy.Wifi.Events.Races.{scan_hides_connecting}

abbrev started : Controller
started = new_controller true 5

abbrev scanning_now : Controller
scanning_now = request_scan false 6 started

abbrev home : NetworkInfo
home = record { ssid = text "home"; rssi = negsuc 39; security = text "WPA2" }

abbrev home_link : ConnectionInfo
home_link = record { ssid = text "home"; rssi = negsuc 39; ip = text "10.0.0.7" }

scan_run : started ⟶* scanning_now
unfolding step
scan_run = then here (takes 6 (Event.scan_requested false) refl)

initial_json :
    to_json (new_status 0)
    ≡ text
        "{\"seq\":0,\"phase\":\"idle\",\"iface\":null,\"current\":null,\"networks\":[],\"error\":null,\"last_updated_ms\":0}"
unfolding to_json phase_value json_object json_list json_join json_text json_chars json_char str_nat
initial_json = refl

busy_phase_is_at_work_example :
    (scanning_now.status.phase ≢ Phase.scanning ⊎ 1 ≤ scanning_now.scans)
    × (scanning_now.status.phase ≢ Phase.connecting ⊎ 1 ≤ scanning_now.connects)
busy_phase_is_at_work_example = busy_phase_is_at_work true 5 scanning_now scan_run

status_is_consistent_example :
    (scanning_now.latest_status_json ≡ to_json scanning_now.status)
    × (length scanning_now.status.networks ≤ 4)
    × (is_some scanning_now.status.error ≡ is_error scanning_now.status.phase)
status_is_consistent_example = status_is_consistent true 5 scanning_now scan_run

ticks_count_down_example : map tick_seq scanning_now.ticks ≡ some (pos 1) ∷ []
unfolding request_scan commit emit with_phase new_controller
ticks_count_down_example = ticks_count_down 5 scanning_now scan_run

-- The heartbeat has asked for the state of a connection.
abbrev asking : Controller
asking = record started { heartbeat = Heartbeat.refreshing }

abbrev left : Controller
left = request_disconnect 6 asking

abbrev stale : Controller
stale = heartbeat_commit (some home_link) 7 (record left { heartbeat = Heartbeat.sleeping })

disconnects : step asking 6 Event.disconnect_ended ≡ some left
unfolding step
disconnects = refl

refreshes : step left 7 (Event.heartbeat_refreshed (some home_link)) ≡ some stale
unfolding step request_disconnect commit emit with_phase new_controller
refreshes = refl

abbrev secret : Text
secret = text "hunter222"

abbrev joining : Controller
joining = request_connect secret (text "wlan0") 7 scanning_now

abbrev hidden : Controller
hidden = scan_returned (some (home ∷ [])) 8 (record joining { scans = 0 })

abbrev joining_twice : Controller
joining_twice = request_connect secret (text "wlan0") 9 hidden

joins : step scanning_now 7 (Event.connect_requested secret (text "wlan0")) ≡ some joining
unfolding step
joins = refl

scan_ends : step joining 8 (Event.scan_ended (some (home ∷ []))) ≡ some hidden
unfolding step request_connect request_scan commit emit with_phase new_controller
scan_ends = refl

joins_again : step hidden 9 (Event.connect_requested secret (text "wlan0")) ≡ some joining_twice
unfolding step
joins_again = refl

scan_hides_connecting_example :
    (hidden.status.phase ≡ Phase.idle) × (joining_twice.connects ≡ suc (suc scanning_now.connects))
unfolding request_scan commit emit with_phase new_controller
scan_hides_connecting_example =
    scan_hides_connecting scanning_now joining hidden joining_twice 7 8 9 secret (home ∷ []) refl
      (omega arith) joins scan_ends joins_again

abbrev full_status : Status
full_status = record {
  seq = 42;
  phase = Phase.connected;
  iface = some (text "wlan0");
  current = some home_link;
  networks = home ∷ home ∷ [];
  error = none;
  last_updated_ms = 1719834567890;
}

home_small : SmallNetwork home
unfolding json_text json_chars json_char str_nat
home_small = record { ssid = omega arith; rssi = omega arith; security = omega arith }

home_link_small : SmallConnection home_link
unfolding json_text json_chars json_char str_nat
home_link_small = record { ssid = omega arith; rssi = omega arith; ip = omega arith }

to_json_fits_example : length (to_json full_status) ≤ 512
unfolding str_nat json_text json_chars json_char
to_json_fits_example =
    to_json_fits full_status (omega arith) (home_small, (home_small, search)) (omega arith)
      home_link_small refl (omega arith) (omega arith)

abbrev letters : ℕ → Text
letters zero = []
letters (suc n) = 97 ∷ letters n

unknown_iface_overflows_example :
    512 < length (request_connect secret (letters 420) 3 started).latest_status_json
unknown_iface_overflows_example =
    unknown_iface_overflows secret (letters 420) 3 started refl refl (omega arith)
