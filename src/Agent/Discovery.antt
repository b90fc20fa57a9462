-- ===== src/Agent/Discovery.antt =====
-- gateway-agent/src/device-discovery.js: what is made of the entries that the neighbour table and
-- ARP list, and the target of a policy.
pub mod Laws
pub mod Neighbours
use guardtime.Base.{
  String, ◌==◌, string_eq, Bool, true, false, not, ◌&&◌, Option, none, some, List, [], ◌∷◌, find,
  truthy, or_null, ◌or_else◌, to_lower, if◌then◌else◌,
}
use guardtime.Base.Dict
use guardtime.Base.Dict.{Dict}
use guardtime.Agent.Target.{Target, PolicyAction, BandwidthLimit}

-- An entry of a table, and a device that is put together from entries.
pub record Device : Type 0 where
  pub mac_address : String
  pub ip_address : Option String
  pub ipv6_address : Option String

-- `map.get(macAddress) || { macAddress }`
abbrev pub existing_or_new : (mac : String) → Option Device → Device
existing_or_new mac none = record { mac_address = mac; ip_address = none; ipv6_address = none }
existing_or_new mac (some d) = d

-- `if (found && !existing) existing = found`
abbrev pub fill : (existing found : Option String) → Option String
fill existing found = if truthy found && not (truthy existing) then found else existing

abbrev pub absorb : Option Device → Device → Device
absorb o e =
    let d = existing_or_new e.mac_address o in
    record d {
      ip_address = fill d.ip_address e.ip_address;
      ipv6_address = fill d.ipv6_address e.ipv6_address;
    }

-- The loop of `mergeByMac`.
unfoldable pub merge_into : Dict String Device → List Device → Dict String Device
merge_into d [] = d
merge_into d (e ∷ es) =
    merge_into (Dict.insert e.mac_address (absorb (Dict.lookup e.mac_address d) e) d) es

unfoldable pub merge_by_mac : List Device → List Device
unfolding merge_into
merge_by_mac es = Dict.values (merge_into [] es)

-- The fields of the backend's policy that become part of the target.
pub record DevicePolicy : Type 0 where
  pub device_id : String
  pub action : PolicyAction
  pub ip_address : Option String
  pub ipv6_address : Option String
  pub dns_source_ip : Option String
  pub mac_address : Option String
  pub vpn_block : Option Bool
  pub quic_block : Option Bool
  pub bandwidth_limits : Option (List BandwidthLimit)

-- `normalizeMac`
abbrev pub normalize_mac : Option String → Option String
unfolding to_lower
normalize_mac none = none
normalize_mac (some mac) = if mac == "" then none else some (to_lower mac)

abbrev pub by_mac : Option String → List Device → Option Device
unfolding find
by_mac none devices = none
by_mac (some mac) devices =
    if mac == "" then none else find (λ (d : Device). d.mac_address == mac) devices

abbrev ip_of : Option Device → Option String
ip_of none = none
ip_of (some d) = d.ip_address

abbrev ipv6_of : Option Device → Option String
ipv6_of none = none
ipv6_of (some d) = d.ipv6_address

abbrev mac_of : Option Device → Option String
mac_of none = none
mac_of (some d) = some d.mac_address

-- `value ?? fallback`
abbrev default {ℓ} : {A : Type ℓ} → Option A → A → A
default none a = a
default (some b) a = b

unfoldable pub resolve_policy_target : DevicePolicy → List Device → Target
resolve_policy_target p devices =
    let mac = normalize_mac p.mac_address in
    let found = by_mac mac devices in
    record {
      device_id = p.device_id;
      action = p.action;
      ip_address = ip_of found or_else (p.ip_address or_else or_null p.dns_source_ip);
      ipv6_address = ipv6_of found or_else or_null p.ipv6_address;
      mac_address = mac or_else or_null (mac_of found);
      vpn_block = default p.vpn_block false;
      quic_block = default p.quic_block false;
      bandwidth_limits = default p.bandwidth_limits [];
    }
