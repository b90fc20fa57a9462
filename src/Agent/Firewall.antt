-- ===== src/Agent/Firewall.antt =====
-- The firewall controllers: firewall-sync-signature.js, iptables-controller.js and
-- nftables-controller.js of gateway-agent/src.
pub mod Signature
pub mod Iptables
pub mod Nftables
