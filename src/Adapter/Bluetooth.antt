-- ===== src/Adapter/Bluetooth.antt =====
-- BluetoothAdapter: bratislava-socket/src/adapters/bluetooth/BluetoothAdapter.h and .cc. Logging
-- and telemetry are left out. The HCI library, SHA-256 and the other threads are parameters.
pub mod State
pub mod Request
pub mod Peer
pub mod Conn
pub mod Timing
pub mod Rendezvous
