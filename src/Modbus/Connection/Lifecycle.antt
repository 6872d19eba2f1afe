-- ===== src/Modbus/Connection/Lifecycle.antt =====
-- src/liftApi/modbus_handler.py: the connection flags, and the decorator `check_modbus_connection`.
use gateway_nexy.Base.{◌≡◌, Bool, true, false, not, arith, if◌then◌else◌}
use gateway_nexy.Modbus.Bus.{Bus, Log, logged}
use gateway_nexy.Modbus.Connection.{World, setup_connection, close, test_connection, checked}

-- An open link has a client, and a closed handler has neither.
pub record IsValid {S : Type 0} (w : World S) : Type 0 where
  pub linked : w.modbus_link ≡ true → w.has_client ≡ true
  pub released : w.closed ≡ true → w.has_client ≡ false

module _ (b : Bus) where
  open b use {State}

  -- Whether the decorated method runs, and the world in which it does.
  unfoldable pub admit : World State → Bool × World State
  admit w =
      let (found, w₁) = test_connection b w in
      let w₂ = setup_connection b w₁ in
      if w.closed
      then (false, w)
      else if not found
      then (false, w₁)
      else if w₁.modbus_link
      then (true, w₁)
      else (w₂.modbus_link, w₂)

  pub checked-eq-admit :
      {R : Type 0} (err : R) (method : World State → R × World State) (w : World State)
      → checked b err method w ≡ (if (admit w).0 then method (admit w).1 else (err, (admit w).1))
  unfolding checked admit
  checked-eq-admit err method w = ground arith

  pub admit-IsValid : (w : World State) → IsValid w → IsValid (admit w).1
  unfolding admit setup_connection test_connection
  admit-IsValid w h = ground arith

  pub close-IsValid : (w : World State) → IsValid w → IsValid (close b w)
  unfolding close
  close-IsValid w h = ground arith

  -- A method that runs has an open handler with a client.
  pub admit-open :
      (w : World State)
      → IsValid w
      → (admit w).0 ≡ true
      → ((admit w).1.closed ≡ false) × ((admit w).1.has_client ≡ true)
  unfolding admit setup_connection test_connection
  admit-open w h e = ground arith

  pub admit-closed : (w : World State) → w.closed ≡ true → admit w ≡ (false, w)
  unfolding admit
  admit-closed w h = ground arith

  pub close-closed : (w : World State) → (close b w).closed ≡ true
  unfolding close
  close-closed w = ground arith

  pub close-close : (w : World State) → close b (close b w) ≡ close b w
  unfolding close
  close-close w = ground arith

module _ (b : Bus) where
  pub admit-writes : (w : World (Log b.State)) → (admit (logged b) w).1.bus.writes ≡ w.bus.writes
  unfolding admit setup_connection test_connection
  admit-writes w = ground arith

  pub admit-reads : (w : World (Log b.State)) → (admit (logged b) w).1.bus.reads ≡ w.bus.reads
  unfolding admit setup_connection test_connection
  admit-reads w = ground arith
