-- ===== src/Wifi/Events/Reachable.antt =====
-- What the app can rely on: the status and the ticks of the WiFi controller after any events.
use gateway_nexy.Base.{◌≡◌, ◌≢◌, ◌⊎◌, ℕ, ◌≤◌, Bool, length, arith}
use gateway_nexy.Wifi.Status.{Phase, to_json}
use gateway_nexy.Wifi.Controller.{Controller, new_controller}
use gateway_nexy.Wifi.Events.{◌⟶*◌}
use gateway_nexy.Wifi.Events.Invariant.{
  IsValid, is_error, is_some, run-IsValid, new_controller-IsValid,
}

at_work_cases :
    (c : Controller)
    → IsValid c
    → (c.status.phase ≢ Phase.scanning ⊎ 1 ≤ c.scans)
      × (c.status.phase ≢ Phase.connecting ⊎ 1 ≤ c.connects)
at_work_cases c h = ground arith

-- After any events, a controller that shows SCANNING has a scan under way, and one that shows
-- CONNECTING has a connection attempt under way.
pub busy_phase_is_at_work :
    (on_tick : Bool) (now : ℕ) (c : Controller)
    → new_controller on_tick now ⟶* c
    → (c.status.phase ≢ Phase.scanning ⊎ 1 ≤ c.scans)
      × (c.status.phase ≢ Phase.connecting ⊎ 1 ≤ c.connects)
busy_phase_is_at_work on_tick now c run =
    at_work_cases c (run-IsValid run (new_controller-IsValid on_tick now))

-- After any events, the text that the app reads is the status, at most four networks are in it, and
-- it has an error exactly when its phase is ERROR.
pub status_is_consistent :
    (on_tick : Bool) (now : ℕ) (c : Controller)
    → new_controller on_tick now ⟶* c
    → (c.latest_status_json ≡ to_json c.status)
      × (length c.status.networks ≤ 4)
      × (is_some c.status.error ≡ is_error c.status.phase)
status_is_consistent on_tick now c run =
    let h = run-IsValid run (new_controller-IsValid on_tick now) in
    (h.cached, h.fits.networks_max, h.fits.error_shown)
