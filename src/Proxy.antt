-- ===== src/Proxy.antt =====
-- src/liftApi/lift_proxy.py and src/liftApi/lift_identifier.py: the entry point to the lift.
pub mod Devices
pub mod Access
pub mod Twin
pub mod Polling
pub mod Machine
pub mod Bind
