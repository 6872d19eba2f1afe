-- ===== src/Wifi/Events/Invariant.antt =====
-- What holds of the WiFi controller after any events.
use gateway_nexy.Base.{
  ◌≡◌, ℕ, ◌-◌, ◌≤◌, Bool, true, false, Option, none, some, List, length, length-take, arith,
}
use gateway_nexy.Base.Text.{Text}
use gateway_nexy.Wifi.Status.{Phase, ErrorCode, NetworkInfo, ConnectionInfo, Status, to_json}
use gateway_nexy.Wifi.Controller.{
  Controller, Heartbeat, ConnectResult, new_controller, emit, commit, with_phase, set_error,
  request_scan, scan_returned, request_connect, connect_returned, request_disconnect,
  start_heartbeat, stop_heartbeat, heartbeat_tick, heartbeat_commit,
}
use gateway_nexy.Wifi.Events.{Event, step, takes, ◌⟶*◌, here, then}

abbrev pub is_error : Phase → Bool
is_error Phase.error = true
is_error Phase.idle = false
is_error Phase.scanning = false
is_error Phase.connecting = false
is_error Phase.connected = false
is_error Phase.disconnected = false

abbrev pub is_some : {A : Type 0} → Option A → Bool
is_some none = false
is_some (some a) = true

-- The calls of the CLI under way that a phase tells the app of.
abbrev pub calls : Phase → Controller → ℕ
calls Phase.scanning c = c.scans
calls Phase.connecting c = c.connects
calls Phase.idle c = 1
calls Phase.connected c = 1
calls Phase.disconnected c = 1
calls Phase.error c = 1

-- The status that an operation may commit.
pub record Fits (s : Status) : Type 0 where
  pub networks_max : length s.networks ≤ 4
  pub error_shown : is_some s.error ≡ is_error s.phase

pub record IsValid (c : Controller) : Type 0 where
  pub fits : Fits c.status
  pub cached : c.latest_status_json ≡ to_json c.status
  pub at_work : 1 ≤ calls c.status.phase c
  pub counted : c.on_tick ≡ true → length c.ticks ≡ c.status.seq

request_scan-IsValid :
    (force : Bool) (now : ℕ) (c : Controller) → IsValid c → IsValid (request_scan force now c)
unfolding request_scan with_phase commit emit
request_scan-IsValid force now c h = ground arith

set_error-IsValid :
    (code : ErrorCode) (message : Text) (now : ℕ) (c : Controller)
    → IsValid c
    → IsValid (set_error code message now c)
unfolding set_error commit emit
set_error-IsValid code message now c h = ground arith

scan_returned-IsValid :
    (result : Option (List NetworkInfo)) (now n : ℕ) (c : Controller)
    → IsValid c
    → IsValid (scan_returned result now (record c { scans = n }))
unfolding scan_returned set_error with_phase commit emit
scan_returned-IsValid none now n c h = ground arith
scan_returned-IsValid (some networks) now n c h = ground (arith, length-take 4 networks)

request_connect-IsValid :
    (psk iface : Text) (now : ℕ) (c : Controller)
    → IsValid c
    → IsValid (request_connect psk iface now c)
unfolding request_connect set_error with_phase commit emit
request_connect-IsValid psk iface now c h = ground arith

connect_returned-IsValid :
    (result : Option ConnectResult) (now n : ℕ) (c : Controller)
    → IsValid c
    → IsValid (connect_returned result now (record c { connects = n }))
unfolding connect_returned set_error commit emit
connect_returned-IsValid result now n c h = ground arith

request_disconnect-IsValid :
    (now : ℕ) (c : Controller) → IsValid c → IsValid (request_disconnect now c)
unfolding request_disconnect with_phase commit emit
request_disconnect-IsValid now c h = ground arith

heartbeat_commit-IsValid :
    (info : Option ConnectionInfo) (now : ℕ) (c : Controller)
    → IsValid c
    → IsValid (heartbeat_commit info now c)
unfolding heartbeat_commit commit emit
heartbeat_commit-IsValid info now c h = ground arith

heartbeat_tick-IsValid : (now : ℕ) (c : Controller) → IsValid c → IsValid (heartbeat_tick now c)
unfolding heartbeat_tick
heartbeat_tick-IsValid now c h = ground (arith, heartbeat_commit-IsValid none now c h)

heartbeat-IsValid :
    (state : Heartbeat) (c : Controller) → IsValid c → IsValid (record c { heartbeat = state })
heartbeat-IsValid state c h = ground arith

step-IsValid :
    (c d : Controller) (now : ℕ) (e : Event) → IsValid c → step c now e ≡ some d → IsValid d
unfolding step start_heartbeat stop_heartbeat
step-IsValid c d now (Event.scan_requested force) h e =
    ground (arith, request_scan-IsValid force now c h)
step-IsValid c d now (Event.scan_ended result) h e =
    ground (arith, scan_returned-IsValid result now (c.scans - 1) c h)
step-IsValid c d now (Event.connect_requested psk iface) h e =
    ground (arith, request_connect-IsValid psk iface now c h)
step-IsValid c d now (Event.connect_ended result) h e =
    ground (arith, connect_returned-IsValid result now (c.connects - 1) c h)
step-IsValid c d now (Event.invalid_reported message) h e =
    ground (arith, set_error-IsValid ErrorCode.invalid_request message now c h)
step-IsValid c d now Event.disconnect_ended h e = ground (arith, request_disconnect-IsValid now c h)
step-IsValid c d now Event.heartbeat_started h e = ground arith
step-IsValid c d now Event.heartbeat_woke h e = ground (arith, heartbeat_tick-IsValid now c h)
step-IsValid c d now (Event.heartbeat_refreshed info) h e = ground (
  arith,
  heartbeat_commit-IsValid info now (record c { heartbeat = Heartbeat.sleeping })
      (heartbeat-IsValid Heartbeat.sleeping c h),
)
step-IsValid c d now Event.heartbeat_stopped h e = ground arith

pub run-IsValid : {c d : Controller} → c ⟶* d → IsValid c → IsValid d
run-IsValid here h = h
run-IsValid (then {c} {d} {e} r (takes now ev eq)) h = step-IsValid d e now ev (run-IsValid r h) eq

pub new_controller-IsValid : (on_tick : Bool) (now : ℕ) → IsValid (new_controller on_tick now)
unfolding new_controller
new_controller-IsValid on_tick now = ground arith
