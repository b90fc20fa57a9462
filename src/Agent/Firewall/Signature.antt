-- ===== src/Agent/Firewall/Signature.antt =====
-- gateway-agent/src/firewall-sync-signature.js: what a controller remembers of the last policy that
-- it applied. The source compares the JSON texts of these values, and equal texts are texts of
-- equal values.
pub mod Laws
use text.Mathlib.Text.{is_lt}
use Prim.Native.String.{compare}
use guardtime.Base.{
  String, ◌≡◌, Bool, Option, List, [], ◌∷◌, map, Eq, or_null, some, string_eq, option_eq,
  if◌then◌else◌,
}
use guardtime.Agent.Target.{PolicyAction, Target}

-- The argument of `sync`; a missing address is the empty string.
pub record Policy : Type 0 where
  pub targets : List Target
  pub dns_redirect_ip : String
  pub dns_redirect_ipv6 : String
  pub enable_dns_redirect : Bool
  pub enable_quic_block_global : Bool
  pub enable_doh_block : Bool

pub record SignedTarget : Type 0 where
  pub device_id : String
  pub action : PolicyAction
  pub ip_address : Option String
  pub ipv6_address : Option String
  pub mac_address : Option String
  pub vpn_block : Bool
  pub quic_block : Bool

pub record Signature : Type 0 where
  pub targets : List SignedTarget
  pub dns_redirect_ip : Option String
  pub dns_redirect_ipv6 : Option String
  pub enable_dns_redirect : Bool
  pub enable_quic_block_global : Bool
  pub enable_doh_block : Bool
  pub enable_ipv6 : Bool

-- The object that the first `map` builds.
unfoldable pub sign_target : Target → SignedTarget
sign_target t = record {
  device_id = t.device_id;
  action = t.action;
  ip_address = or_null t.ip_address;
  ipv6_address = or_null t.ipv6_address;
  mac_address = or_null t.mac_address;
  vpn_block = t.vpn_block;
  quic_block = t.quic_block;
}

-- `sort` with the comparison of device ids is stable, so it is an insertion sort from the right.
unfoldable pub insert_by_id : SignedTarget → List SignedTarget → List SignedTarget
insert_by_id t [] = t ∷ []
insert_by_id t (u ∷ us) =
    if is_lt (compare u.device_id t.device_id) then u ∷ insert_by_id t us else t ∷ u ∷ us

unfoldable pub sort_by_id : List SignedTarget → List SignedTarget
sort_by_id [] = []
sort_by_id (t ∷ ts) = insert_by_id t (sort_by_id ts)

unfoldable pub build_signature : Policy → (enable_ipv6 : Bool) → Signature
unfolding sign_target insert_by_id sort_by_id
build_signature p enable_ipv6 = record {
  targets = sort_by_id (map sign_target p.targets);
  dns_redirect_ip = or_null (some p.dns_redirect_ip);
  dns_redirect_ipv6 = or_null (some p.dns_redirect_ipv6);
  enable_dns_redirect = p.enable_dns_redirect;
  enable_quic_block_global = p.enable_quic_block_global;
  enable_doh_block = p.enable_doh_block;
  enable_ipv6 = enable_ipv6;
}

string_discrete : Discrete String
unfolding string_eq
string_discrete = string_eq.dec

signature_discrete : Discrete Signature
unfolding string_discrete
signature_discrete = hlevel string_discrete

instance unfoldable pub signature_eq : Eq Signature
unfolding signature_discrete string_discrete
signature_eq = record { dec = signature_discrete }
