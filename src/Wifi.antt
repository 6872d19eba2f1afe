-- ===== src/Wifi.antt =====
-- src/bluetoothApi: the WiFi status that the mobile app reads, and its controller.
pub mod Json
pub mod Status
pub mod Controller
pub mod Overflow
pub mod Events
