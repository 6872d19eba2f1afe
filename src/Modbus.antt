-- ===== src/Modbus.antt =====
-- src/liftApi/modbus_handler.py: the driver of AHL lifts.
pub mod Registers
pub mod Bus
pub mod Connection
pub mod Read
pub mod Write
pub mod Trace
pub mod Upgrade
