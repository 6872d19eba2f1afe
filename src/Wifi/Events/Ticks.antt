-- ===== src/Wifi/Events/Ticks.antt =====
-- src/bluetoothApi/controller.py: which ticks the controller sends.
use gateway_nexy.Base.{◌≡◌, ◌⊎◌, ℕ, zero, suc, true, Option, some, List, [], ◌∷◌, map, arith}
use gateway_nexy.Base.Int.{ℤ, pos}
use gateway_nexy.Wifi.Status.{to_tick_json}
use gateway_nexy.Wifi.Status.Tick.{tick_seq, tick_seq-to_tick_json}
use gateway_nexy.Wifi.Controller.{
  Controller, new_controller, commit, emit, with_phase, set_error, request_scan, scan_returned,
  request_connect, connect_returned, request_disconnect, start_heartbeat, stop_heartbeat,
  heartbeat_tick, heartbeat_commit,
}
use gateway_nexy.Wifi.Events.{Event, step, takes, ◌⟶*◌, here, then}

-- One event sends nothing and leaves the status, or sends the tick of the next status.
pub record Published (c d : Controller) : Type 0 where
  pub listening : d.on_tick ≡ true
  pub sent :
      (d.status ≡ c.status × (d.ticks ≡ c.ticks))
      ⊎ (d.status.seq ≡ suc c.status.seq × (d.ticks ≡ to_tick_json d.status ∷ c.ticks))

step-Published :
    (c d : Controller) (now : ℕ) (e : Event)
    → c.on_tick ≡ true
    → step c now e ≡ some d
    → Published c d
unfolding step request_scan scan_returned request_connect connect_returned request_disconnect
    start_heartbeat stop_heartbeat heartbeat_tick heartbeat_commit set_error commit emit with_phase
step-Published c d now e h eq = ground arith

-- The numbers n, …, 1.
abbrev pub countdown : ℕ → List (Option ℤ)
countdown zero = []
countdown (suc n) = some (pos (suc n)) ∷ countdown n

-- The ticks so far, read back.
record Numbered (c : Controller) : Type 0 where
  listening : c.on_tick ≡ true
  numbers : map tick_seq c.ticks ≡ countdown c.status.seq

Published-Numbered : (c d : Controller) → Numbered c → Published c d → Numbered d
Published-Numbered c d h p = ground (arith, tick_seq-to_tick_json d.status)

run-Numbered : {c d : Controller} → c ⟶* d → Numbered c → Numbered d
run-Numbered here h = h
run-Numbered (then {c} {d} {e} r (takes now ev eq)) h =
    let h' = run-Numbered r h in
    Published-Numbered d e h' (step-Published d e now ev h'.listening eq)

new_controller-Numbered : (now : ℕ) → Numbered (new_controller true now)
unfolding new_controller
new_controller-Numbered now = ground arith

-- After any events, the sequence numbers in the ticks that were sent, the last one first, count down
-- from the status's sequence number to 1: none is missing, and none is sent twice.
pub ticks_count_down :
    (now : ℕ) (c : Controller)
    → new_controller true now ⟶* c
    → map tick_seq c.ticks ≡ countdown c.status.seq
ticks_count_down now c run = (run-Numbered run (new_controller-Numbered now)).numbers
