-- ===== src/Ahl.antt =====
-- src/lib/ahl_lib.py: the parameter database of AHL lifts and its polling.
pub mod Tables
pub mod Database
pub mod Poll
