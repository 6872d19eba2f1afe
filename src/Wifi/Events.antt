-- ===== src/Wifi/Events.antt =====
-- src/bluetoothApi/controller.py: the events of the event loop, and the runs of `WifiController`.
pub mod Reachable
pub mod Races
pub mod Ticks
pub mod Invariant
use gateway_nexy.Base.{
  ◌≡◌, ℕ, zero, suc, ◌+◌, Bool, true, false, not, ◌&&◌, ◌||◌, Option, none, some, List, [], ◌∷◌,
}
use gateway_nexy.Base.Text.{Text}
use gateway_nexy.Wifi.Status.{ErrorCode, NetworkInfo, ConnectionInfo}
use gateway_nexy.Wifi.Controller.{
  Controller, Heartbeat, ConnectResult, request_scan, scan_returned, request_connect,
  connect_returned, request_disconnect, start_heartbeat, stop_heartbeat, heartbeat_tick,
  heartbeat_commit, set_error,
}

-- What the event loop runs at once: a request up to its call of the CLI, or what follows the call.
pub data Event : Type 0 where
  scan_requested : (force : Bool) → Event
  scan_ended : Option (List NetworkInfo) → Event
  connect_requested : (psk : Text) (iface : Text) → Event
  connect_ended : Option ConnectResult → Event
  invalid_reported : (message : Text) → Event
  disconnect_ended : Event
  heartbeat_started : Event
  heartbeat_woke : Event
  heartbeat_refreshed : Option ConnectionInfo → Event
  heartbeat_stopped : Event

-- One event; `none` where nothing is under way that could end.
unfoldable pub step : Controller → ℕ → Event → Option Controller
unfolding request_scan scan_returned request_connect connect_returned request_disconnect
    start_heartbeat stop_heartbeat heartbeat_tick heartbeat_commit set_error
step c now (Event.scan_requested force) = some (request_scan force now c)
step c now (Event.scan_ended result) = elim c.scans [
  | zero ↦ none
  | suc n ↦ some (scan_returned result now (record c { scans = n }))
]
step c now (Event.connect_requested psk iface) = some (request_connect psk iface now c)
step c now (Event.connect_ended result) = elim c.connects [
  | zero ↦ none
  | suc n ↦ some (connect_returned result now (record c { connects = n }))
]
step c now (Event.invalid_reported message) =
    some (set_error ErrorCode.invalid_request message now c)
step c now Event.disconnect_ended = some (request_disconnect now c)
step c now Event.heartbeat_started = some (start_heartbeat c)
step c now Event.heartbeat_woke = elim c.heartbeat [
  | Heartbeat.stopped ↦ none
  | Heartbeat.sleeping ↦ some (heartbeat_tick now c)
  | Heartbeat.refreshing ↦ none
]
step c now (Event.heartbeat_refreshed info) = elim c.heartbeat [
  | Heartbeat.stopped ↦ none
  | Heartbeat.sleeping ↦ none
  | Heartbeat.refreshing ↦
      some (heartbeat_commit info now (record c { heartbeat = Heartbeat.sleeping }))
]
step c now Event.heartbeat_stopped = some (stop_heartbeat c)

infix 40 ◌⟶◌ ◌⟶*◌
pub data ◌⟶◌ : Controller → Controller → Type 0 where
  takes : {c d : Controller} (now : ℕ) (e : Event) → step c now e ≡ some d → c ⟶ d

-- Any number of events.
pub data ◌⟶*◌ : Controller → Controller → Type 0 where
  here : {c : Controller} → c ⟶* c
  then : {c d e : Controller} → c ⟶* d → d ⟶ e → c ⟶* e
