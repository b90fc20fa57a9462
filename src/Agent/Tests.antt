-- ===== src/Agent/Tests.antt =====
-- The theorems about the agent at concrete data.
pub mod Machines
mod Firewall
mod Control
mod Nftables
mod Detection
mod Rotation
mod Shaping
mod Sensors
mod Loop
mod Plugins
