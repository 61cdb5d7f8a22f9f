-- ===== src/Instrument.antt =====
-- src/instrument_api.c: the actions on the host's Wi-Fi and Bluetooth interfaces and the GPS daemon.
pub mod State
pub mod Wifi
pub mod Hci
pub mod Json
pub mod Gps
pub mod Action
pub mod Descriptors
pub mod Switches
pub mod Reports
pub mod Handles
pub mod Sessions
pub mod Returning
