-- ===== src/Agent.antt =====
-- The gateway agent (gateway-agent/src): what runs on the customer's router.
pub mod Host
pub mod Config
pub mod Target
pub mod Cidr
pub mod Conntrack
pub mod Sniffers
pub mod Guard
pub mod Patterns
pub mod Firewall
pub mod Metrics
pub mod Retry
pub mod Backend
pub mod Killer
pub mod Router
pub mod Plugins
pub mod Discovery
pub mod Vpn
pub mod Doh
pub mod Fingerprint
pub mod Rotation
pub mod Qos
pub mod Heartbeat
pub mod Cycle
pub mod Tests
