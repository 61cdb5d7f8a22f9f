-- ===== src/Bluez.antt =====
-- The two Bluetooth scanners: src/bluez_scanner.c, which runs bluetoothctl and reads what it prints,
-- and src/hci_scanner.c, which asks the HCI library.
pub mod Line
pub mod Output
pub mod Info
pub mod Discover
pub mod Inquiry
pub mod Addresses
pub mod Classes
pub mod Reading
pub mod Escapes
pub mod Keeping
pub mod Scans
pub mod Reports
