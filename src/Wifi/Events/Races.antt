-- ===== src/Wifi/Events/Races.antt =====
-- src/bluetoothApi/controller.py: what happens where the calls of the CLI overlap.
use gateway_nexy.Base.{◌≡◌, ℕ, suc, ◌≤◌, some, List, length, arith}
use gateway_nexy.Base.Text.{Text, text}
use gateway_nexy.Wifi.Status.{Phase, NetworkInfo, ConnectionInfo}
use gateway_nexy.Wifi.Controller.{
  Controller, Heartbeat, commit, emit, with_phase, scan_returned, request_connect,
  request_disconnect, heartbeat_commit,
}
use gateway_nexy.Wifi.Events.{Event, step}

-- Where the heartbeat is waiting for the connection's state when a disconnect ends, and then gets
-- it, the status is DISCONNECTED with that connection as the current one.
pub stale_refresh :
    (c d e : Controller) (now later : ℕ) (info : ConnectionInfo)
    → c.heartbeat ≡ Heartbeat.refreshing
    → step c now Event.disconnect_ended ≡ some d
    → step d later (Event.heartbeat_refreshed (some info)) ≡ some e
    → (e.status.phase ≡ Phase.disconnected) × (e.status.current ≡ some info)
unfolding step request_disconnect heartbeat_commit with_phase commit emit
stale_refresh c d e now later info h h₁ h₂ = ground arith

-- Where a connection over wlan0 is asked for while a scan is under way and the scan then ends, the
-- same request again starts a second attempt beside the first.
pub scan_hides_connecting :
    (c d e f : Controller) (t₁ t₂ t₃ : ℕ) (psk : Text) (networks : List NetworkInfo)
    → c.status.phase ≡ Phase.scanning
    → 8 ≤ length psk
    → step c t₁ (Event.connect_requested psk (text "wlan0")) ≡ some d
    → step d t₂ (Event.scan_ended (some networks)) ≡ some e
    → step e t₃ (Event.connect_requested psk (text "wlan0")) ≡ some f
    → (e.status.phase ≡ Phase.idle) × (f.connects ≡ suc (suc c.connects))
unfolding step scan_returned request_connect with_phase commit emit
scan_hides_connecting c d e f t₁ t₂ t₃ psk networks h len h₁ h₂ h₃ = ground arith
