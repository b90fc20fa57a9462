-- ===== src/Agent/Target.antt =====
-- gateway-agent/src/device-discovery.js: the enforcement target of a policy (`resolvePolicyTarget`).
use guardtime.Base.{ℕ, String, Bool, Option, List}

-- The backend's `action`; any other word is left alone by every controller.
pub data PolicyAction : Type 0 where
  block throttle allow : PolicyAction
  other : String → PolicyAction

pub record BandwidthLimit : Type 0 where
  pub category : Option String
  pub download_kbps : ℕ
  pub upload_kbps : ℕ

pub record Target : Type 0 where
  pub device_id : String
  pub action : PolicyAction
  pub ip_address : Option String
  pub ipv6_address : Option String
  pub mac_address : Option String
  pub vpn_block : Bool
  pub quic_block : Bool
  pub bandwidth_limits : List BandwidthLimit
