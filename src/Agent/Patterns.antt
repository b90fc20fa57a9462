-- ===== src/Agent/Patterns.antt =====
-- The signature lists of the agent: vpn-patterns.js and doh-dot-patterns.js.
pub mod Vpn
pub mod Doh
