-- ===== src/Agent/Guard.antt =====
-- gateway-agent/src/management-guard.js: which targets may be acted on.
pub mod Defs
pub mod Laws
