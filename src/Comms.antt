-- ===== src/Comms.antt =====
-- The comms runtime: comms_runtime.cpp.
pub mod Strings
pub mod Candidates
pub mod World
pub mod Runtime
pub mod Handshake
pub mod Scan
pub mod Lifecycle
pub mod Ownership
pub mod Gain
pub mod Scanning
pub mod Threads
pub mod Stopping
pub mod Finding
pub mod Slots
pub mod Servers
pub mod Serving
pub mod Counting
pub mod Replies
pub mod Order
