-- ===== src/Examples.antt =====
-- Concrete inputs for the theorems, and tests of the definitions.
pub mod Registry
pub mod Adapters
pub mod Comms
pub mod Scanner
mod Api
mod Instrument
mod Bluez
