-- ===== src/Adapter.antt =====
-- The socket adapters: bratislava-socket/src/adapters.
pub mod Attempt
pub mod Deadline
pub mod LoopExit
pub mod Io
pub mod IoLaws
pub mod Wifi
pub mod Bluetooth
