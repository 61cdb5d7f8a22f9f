-- ===== src/Api.antt =====
-- The socket API: BratislavaSocket.cc.
pub mod Interface
pub mod Laws
pub mod WifiOps
pub mod BluetoothOps
pub mod Connecting
pub mod Calls
pub mod Destroy
pub mod Destroyed
pub mod Twice
pub mod Links
pub mod Emptied
pub mod Touching
pub mod Returning
pub mod Living
