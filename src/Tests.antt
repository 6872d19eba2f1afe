-- ===== src/Tests.antt =====
-- Evaluations of the models on concrete inputs, and instances of the theorems.
mod Modbus
mod Transfers
mod Ahl
mod Thousand
mod Lift
mod Rs232
mod Proxy
mod Wifi
