-- ===== src/Isp.antt =====
-- isp-adapter/: the service that applies policies in an operator's network.
pub mod Store
pub mod Services
pub mod Policy
pub mod Settings
pub mod Server
pub mod Steps
pub mod Isolation
pub mod Invariant
pub mod Effects
pub mod Failure
pub mod Lease
mod Tests
