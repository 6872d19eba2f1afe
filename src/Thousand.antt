-- ===== src/Thousand.antt =====
-- src/lib/thousand_lib.py: `ThousandLib`, the database of the 1000-series lifts.
pub mod Signals
pub mod Packages
pub mod Protocol
pub mod Lookup
pub mod Virtual
pub mod Updates
pub mod Doors
pub mod Poll
pub mod Vfd
