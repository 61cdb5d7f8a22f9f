-- ===== src/Adapter/Wifi.antt =====
-- WifiAdapter: bratislava-socket/src/adapters/wifi/WifiAdapter.h and .cc. Logging and telemetry
-- are left out. libnm is a parameter.
pub mod State
pub mod Request
pub mod Peer
pub mod Conn
pub mod Manager
pub mod Timing
pub mod Outcome
pub mod Exchange
pub mod Session
