-- ===== src/Rs232.antt =====
-- src/liftApi/rs232_handler.py: the driver of lifts of the 1000 series.
pub mod Port
pub mod Commands
pub mod Frames
pub mod Versions
pub mod Serial
pub mod Split
pub mod Requests
pub mod Vfd
pub mod Packages
pub mod Poll
pub mod Write
pub mod Logs
pub mod Production
pub mod Keeping
