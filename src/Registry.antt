-- ===== src/Registry.antt =====
-- BratislavaSocketRegistry: bratislava-socket/src/BratislavaSocketRegistry.h and .cc.
pub mod State
pub mod Config
pub mod Port
pub mod LinkTable
pub mod Socket
pub mod Valid
pub mod Connection
pub mod SocketList
pub mod Membership
pub mod Sharing
pub mod PortPool
pub mod PortLeak
pub mod Total
pub mod Links
pub mod Removal
