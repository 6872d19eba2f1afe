-- ===== src/Modbus/Connection.antt =====
-- src/liftApi/modbus_handler.py: `ModBusHandler` and its connection. Every method returns its result and the new world. The second component of the
-- source's triples is always the handler's own name and is left out.
pub mod Lifecycle
use gateway_nexy.Base.{Bool, true, false, not, if◌then◌else◌}
use gateway_nexy.Base.Int.{ℤ}
use gateway_nexy.Codes.{Code}
use gateway_nexy.Modbus.Bus.{Bus}

-- The attributes of the handler that change, and the bus.
pub record World (S : Type 0) : Type 0 where
  pub modbus_link : Bool
  pub closed : Bool
  pub has_client : Bool
  pub bus : S

-- What a method returns, or the `ValueError` that leaves it.
pub data Result (A : Type 0) : Type 0 where
  ok : A → Result A
  raised : Result A

abbrev pub Reply : Type 0
Reply = ℤ × Code

module _ (b : Bus) where
  open b use {State, port_exists, connect, close_client, read_registers, write_registers, sync}

  -- `_setup_connection`
  unfoldable pub setup_connection : World State → World State
  setup_connection w =
      let (found, s) = port_exists w.bus in
      let s' = if w.has_client then close_client s else s in
      record w { modbus_link = found; has_client = true; bus = if found then connect s' else s' }

  -- `close`
  unfoldable pub close : World State → World State
  close w =
      if w.closed
      then w
      else if w.has_client
      then record w {
        closed = true;
        modbus_link = false;
        has_client = false;
        bus = close_client w.bus;
      }
      else record w { closed = true }

  -- `_test_connection`
  unfoldable pub test_connection : World State → Bool × World State
  test_connection w =
      let (found, s) = port_exists w.bus in
      if found
      then (true, record w { bus = s })
      else (false, record w { modbus_link = false; bus = s })

  -- The decorator `check_modbus_connection`; `link_error` is what it returns without the call.
  unfoldable pub checked :
      {R : Type 0} → R → (World State → R × World State) → World State → R × World State
  checked link_error method w =
      let (found, w₁) = test_connection w in
      let w₂ = setup_connection w₁ in
      if w.closed
      then (link_error, w)
      else if not found
      then (link_error, w₁)
      else if w₁.modbus_link
      then method w₁
      else if w₂.modbus_link
      then method w₂
      else (link_error, w₂)
