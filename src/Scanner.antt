-- ===== src/Scanner.antt =====
-- The Wi-Fi scanner bridge: wifi_scanner_bridge.cpp.
pub mod Elements
pub mod ElementLaws
pub mod Decoding
pub mod Results
pub mod Mac
pub mod Discover
pub mod Report
