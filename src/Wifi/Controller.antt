-- ===== src/Wifi/Controller.antt =====
-- src/bluetoothApi/controller.py: `WifiController` as a state machine. What the code does between
-- two suspension points is one event; a call of the CLI that is under way is counted, and its
-- result comes with the event that ends it. `now` is what the clock returns.
use mathlib.Core.Option
use gateway_nexy.Base.{
  ℕ, suc, Bool, true, false, not, ◌&&◌, ◌||◌, Option, none, some, List, [], ◌∷◌, ◌++◌, ltb, length,
  take, if◌then◌else◌,
}
use gateway_nexy.Base.Int.{pos}
use gateway_nexy.Base.Text.{Text, text, text_eq, str_nat}
use gateway_nexy.Wifi.Json.{repr}
use gateway_nexy.Wifi.Status.{
  Phase, ErrorCode, NetworkInfo, ConnectionInfo, Status, new_status, code_value,
  max_networks_in_status, to_json, to_tick_json,
}

-- `MIN_PSK_LEN`
abbrev pub min_psk_len : ℕ
min_psk_len = 8

-- The heartbeat's task: not started, asleep, or waiting for `get_status`.
pub data Heartbeat : Type 0 where
  stopped : Heartbeat
  sleeping : Heartbeat
  refreshing : Heartbeat

-- The controller, with the calls of the CLI that are under way and the ticks that `on_tick` was
-- called with, the last one first.
pub record Controller : Type 0 where
  pub on_tick : Bool
  pub status : Status
  pub latest_status_json : Text
  pub heartbeat : Heartbeat
  pub scans : ℕ
  pub connects : ℕ
  pub ticks : List Text

-- `__init__`
unfoldable pub new_controller : Bool → ℕ → Controller
new_controller on_tick now =
    let status = new_status now in
    record {
      on_tick = on_tick;
      status = status;
      latest_status_json = (to_json status);
      heartbeat = Heartbeat.stopped;
      scans = 0;
      connects = 0;
      ticks = [];
    }

-- What `cli.connect` returns.
pub record ConnectResult : Type 0 where
  pub status : Text
  pub ssid : Text
  pub ip : Text

unfoldable pub emit : Text → Controller → Controller
emit tick c = if not c.on_tick then c else record c { ticks = tick ∷ c.ticks }

-- `_commit` and the `_emit` of its tick.
unfoldable pub commit : Status → Controller → Controller
unfolding emit
commit status c =
    emit (to_tick_json status) (record c { status = status; latest_status_json = to_json status })

-- A given value, or the one to use without it.
abbrev given_or : {A : Type 0} → A → Option A → A
given_or last none = last
given_or last (some a) = a

-- `_with_phase`; without an interface, the last one is kept.
unfoldable pub with_phase : Phase → Option (Option Text) → List NetworkInfo → ℕ → Status → Status
with_phase phase iface networks now last = record {
  seq = (suc last.seq);
  phase = phase;
  iface = given_or last.iface iface;
  current = none;
  networks = networks;
  error = none;
  last_updated_ms = now;
}

-- `_set_error`
unfoldable pub set_error : ErrorCode → Text → ℕ → Controller → Controller
unfolding commit
set_error code message now c =
    commit
      (record {
        seq = (suc c.status.seq);
        phase = Phase.error;
        iface = c.status.iface;
        current = none;
        networks = c.status.networks;
        error = (some (record { code = (code_value code); message = message }));
        last_updated_ms = now;
      })
      c

abbrev is_connecting : Phase → Bool
is_connecting Phase.connecting = true
is_connecting Phase.idle = false
is_connecting Phase.scanning = false
is_connecting Phase.connected = false
is_connecting Phase.disconnected = false
is_connecting Phase.error = false

-- `phase in (Phase.SCANNING, Phase.CONNECTING)`
abbrev is_busy : Phase → Bool
is_busy Phase.scanning = true
is_busy Phase.connecting = true
is_busy Phase.idle = false
is_busy Phase.connected = false
is_busy Phase.disconnected = false
is_busy Phase.error = false

-- `request_scan` up to the call of `cli.scan`.
unfoldable pub request_scan : Bool → ℕ → Controller → Controller
unfolding commit with_phase
request_scan force now c =
    if is_busy c.status.phase && not force
    then c
    else record (commit (with_phase Phase.scanning none [] now c.status) c) { scans = suc c.scans }

-- The rest of `request_scan`; `none` is an exception of `cli.scan`.
unfoldable pub scan_returned : Option (List NetworkInfo) → ℕ → Controller → Controller
unfolding set_error commit with_phase
scan_returned none now c = set_error ErrorCode.timeout (text "scan failed") now c
scan_returned (some networks) now c =
    commit (with_phase Phase.idle none (take max_networks_in_status networks) now c.status) c

-- `request_connect` up to the call of `cli.connect`.
unfoldable pub request_connect : Text → Text → ℕ → Controller → Controller
unfolding set_error commit with_phase
request_connect psk iface now c =
    if not (text_eq iface (text "wlan0") || text_eq iface (text "ppp0"))
    then set_error ErrorCode.invalid_request (text "unknown iface " ++ repr iface) now c
    else if text_eq iface (text "ppp0")
    then commit
        (record {
          seq = (suc c.status.seq);
          phase = Phase.connected;
          iface = (some (text "ppp0"));
          current = none;
          networks = c.status.networks;
          error = none;
          last_updated_ms = now;
        })
        c
    else if ltb (length psk) min_psk_len
    then set_error ErrorCode.psk_too_short
        (text "PSK must be at least " ++ str_nat min_psk_len ++ text " characters") now c
    else if is_connecting c.status.phase
    then c
    else record (commit
        (with_phase Phase.connecting (some (some (text "wlan0"))) c.status.networks now c.status)
        c) { connects = suc c.connects }

-- The rest of `request_connect`; `none` is an exception of `cli.connect`.
unfoldable pub connect_returned : Option ConnectResult → ℕ → Controller → Controller
unfolding set_error commit
connect_returned none now c = set_error ErrorCode.timeout (text "connect timed out") now c
connect_returned (some result) now c =
    if text_eq result.status (text "connected")
    then commit
        (record {
          seq = (suc c.status.seq);
          phase = Phase.connected;
          iface = (some (text "wlan0"));
          current = (some (record { ssid = result.ssid; rssi = (pos 0); ip = result.ip }));
          networks = c.status.networks;
          error = none;
          last_updated_ms = now;
        })
        c
    else if text_eq result.status (text "associated")
    then set_error ErrorCode.psk_wrong
        (text "associated but no IP " ++ 8212 ∷ text " likely auth failure") now c
    else set_error ErrorCode.ssid_not_found (text "connection failed") now c

-- `request_disconnect` once `cli.disconnect` has ended, in either way.
unfoldable pub request_disconnect : ℕ → Controller → Controller
unfolding commit with_phase
request_disconnect now c =
    commit (with_phase Phase.disconnected none c.status.networks now c.status) c

-- The end of `_heartbeat_tick`.
unfoldable pub heartbeat_commit : Option ConnectionInfo → ℕ → Controller → Controller
unfolding commit
heartbeat_commit new_current now c =
    commit
      (record {
        seq = (suc c.status.seq);
        phase = c.status.phase;
        iface = c.status.iface;
        current = given_or c.status.current (Option.map some new_current);
        networks = c.status.networks;
        error = c.status.error;
        last_updated_ms = now;
      })
      c

abbrev on_wlan : Phase → Option Text → Bool
on_wlan Phase.connected (some iface) = text_eq iface (text "wlan0")
on_wlan Phase.connected none = false
on_wlan Phase.idle iface = false
on_wlan Phase.scanning iface = false
on_wlan Phase.connecting iface = false
on_wlan Phase.disconnected iface = false
on_wlan Phase.error iface = false

-- `_heartbeat_tick` up to the call of `cli.get_status`, or to its end where it makes no call.
unfoldable pub heartbeat_tick : ℕ → Controller → Controller
unfolding heartbeat_commit
heartbeat_tick now c =
    if on_wlan c.status.phase c.status.iface
    then record c { heartbeat = Heartbeat.refreshing }
    else heartbeat_commit none now c

-- `start_heartbeat`
unfoldable pub start_heartbeat : Controller → Controller
start_heartbeat c = elim c.heartbeat [
  | Heartbeat.stopped ↦ record c { heartbeat = Heartbeat.sleeping }
  | Heartbeat.sleeping ↦ c
  | Heartbeat.refreshing ↦ c
]

-- `stop_heartbeat`, which cancels the task where it waits.
unfoldable pub stop_heartbeat : Controller → Controller
stop_heartbeat c = record c { heartbeat = Heartbeat.stopped }
