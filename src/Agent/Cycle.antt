-- ===== src/Agent/Cycle.antt =====
-- gateway-agent/src/main.js: the parts that `main` gives to `syncOnce`, and what they remember;
-- firewall-controller.js. The calls of the backend are taken as typed: their JSON and their requests
-- are those of backend-client.js.
pub mod Ends
pub mod Steps
use Prim.Native.Nat.{◌+◌}
use guardtime.Base.{
  ℕ, ℤ, pos, negsuc, ◌==◌, string_eq, Bool, true, false, not, ◌&&◌, ◌||◌, String, Option, none,
  some, List, [], ◌∷◌, map, length, ltb, filter, truthy, if◌then◌else◌,
}
use guardtime.Base.Dict
use guardtime.Base.Dict.{Dict}
use guardtime.Agent.Host.{Host, World, Result, ok, err}
use guardtime.Agent.Config.{Config}
use guardtime.Agent.Target.{Target, PolicyAction, block, throttle, allow, other}
use guardtime.Agent.Metrics.{Metrics, inc, flush}
use guardtime.Agent.Guard.Defs.{Guard, refresh, filter_targets}
use guardtime.Agent.Discovery.{Device, DevicePolicy, resolve_policy_target}
use guardtime.Agent.Discovery.Neighbours.{discover_devices}
use guardtime.Agent.Fingerprint.{Files, Enriched, enrich_with_fingerprint}
use guardtime.Agent.Rotation
use guardtime.Agent.Firewall.Signature.{Policy, Signature}
use guardtime.Agent.Firewall.Iptables.{Iptables}
use guardtime.Agent.Firewall.Iptables
use guardtime.Agent.Firewall.Nftables
use guardtime.Agent.Sniffers.{Python}
use guardtime.Agent.Killer.{Previous, Run}
use guardtime.Agent.Killer
use guardtime.Agent.Killer.Controllers.{controllers}
use guardtime.Agent.Qos.Resolve.{Cache, Resolver}
use guardtime.Agent.Qos.{Shaping}
use guardtime.Agent.Qos
use guardtime.Agent.Vpn.Detector.{Row}
use guardtime.Agent.Vpn.Detector
use guardtime.Agent.Doh.{Observations, DohState, DohRow}
use guardtime.Agent.Doh
use guardtime.Agent.Heartbeat.{Heartbeat, heartbeat}
use guardtime.Agent.Router
use guardtime.Agent.Router.{Services, RouterTarget, Answer, Command, CommandResult}

-- What the backend answers to `getPolicies`.
pub record Policies : Type 0 where
  pub rotated_token : Option String
  pub devices : List DevicePolicy

-- The outside of the agent: the backend, with the token that it is called with, the disk, the
-- programs, the resolver, the timers and the router.
pub record Outside (H : Host) : Type 1 where
  pub report_discovery : (token : String) → List Enriched → H.State → Result (Unit {0}) × H.State
  pub get_policies : (token : String) → H.State → Result Policies × H.State
  pub report_vpn_detections : (token : String) → List Row → H.State → Result (Unit {0}) × H.State
  pub report_doh_detections : (token : String) → List DohRow → H.State → Result (Unit {0}) × H.State
  pub read_env : (path : String) → H.State → Rotation.Read
  pub write_env : (path text : String) → H.State → Option String × H.State
  pub leases : Files H
  pub python : Python H
  pub resolver : Resolver H
  pub pauses : ℕ → H.State → H.State
  pub Plugin : Type 0
  pub load_plugin : (plugin_id : String) → H.State → Result Plugin × H.State
  pub method : Plugin → (name : String) → Option (RouterTarget → H.State → Result Answer × H.State)
  pub check_connectivity : H.State → Bool × H.State
  pub detect_and_report : H.State → Result (Unit {0}) × H.State
  pub ack_router_command :
      (id : String) → (success : Bool) → CommandResult → H.State → Result (Unit {0}) × H.State
  pub get_router_commands : H.State → Result (List Command × Option String) × H.State

abbrev pub services : {H : Host} → Outside H → Services
services {H} O = record {
  State = H.State;
  Plugin = O.Plugin;
  load_plugin = O.load_plugin;
  method = O.method;
  check_connectivity = O.check_connectivity;
  detect_and_report = O.detect_and_report;
  ack_router_command = O.ack_router_command;
  get_router_commands = O.get_router_commands;
  now = H.now;
}

abbrev pub disk_of : {H : Host} → Outside H → Rotation.Files
disk_of {H} O = record { State = H.State; read_file = O.read_env; write_file = O.write_env }

-- The firewall controller, with what it remembers.
pub data Firewall : Type 0 where
  iptables : Iptables → Firewall
  nftables : Option Signature → Firewall

-- `createFirewallController`
unfoldable pub create_firewall : Config → Firewall
create_firewall c =
    if c.firewall_backend == "nftables"
    then nftables none
    else iptables (record { v4 = none; v6 = none })

-- The parts, with what they remember.
pub record Agent (H : Host) : Type 0 where
  pub guard : Guard
  pub previous : Dict String Previous
  pub firewall : Firewall
  pub cache : Cache
  pub observations : Observations
  pub metrics : Metrics
  pub last_detection_at : ℕ
  pub acks : List (String × Bool)
  pub backend_token : String
  pub config_token : String
  pub world : World H

pub record Summary : Type 0 where
  pub total : ℕ
  pub blocked : ℕ
  pub throttled : ℕ
  pub unresolved : ℕ

abbrev pub is_block : Target → Bool
is_block t = elim t.action [ block ↦ true | throttle ↦ false | allow ↦ false | other _ ↦ false ]

abbrev pub is_throttle : Target → Bool
is_throttle t = elim t.action [ block ↦ false | throttle ↦ true | allow ↦ false | other _ ↦ false ]

-- What is logged at the end of a cycle.
unfoldable pub summarize : List Target → Summary
unfolding filter
summarize targets = record {
  total = length targets;
  blocked = length (filter is_block targets);
  throttled = length (filter is_throttle targets);
  unresolved = length (
      filter (λ t. is_block t && (not (truthy t.ip_address) && not (truthy t.mac_address)))
        targets);
}

abbrev pub policy_of : Config → List Target → Policy
policy_of c targets = record {
  targets = targets;
  dns_redirect_ip = c.dns_redirect_ip;
  dns_redirect_ipv6 = c.dns_redirect_ipv6;
  enable_dns_redirect = c.enable_dns_redirect;
  enable_quic_block_global = c.enable_quic_block_global;
  enable_doh_block = c.enable_doh_block;
}

-- A number of milliseconds of the settings, where a negative one is met by every distance of times.
abbrev pub milliseconds : ℤ → ℕ
milliseconds (pos n) = n
milliseconds (negsuc _) = 0

abbrev pub quic_blocked : Config → List Target → List Target
unfolding filter
quic_blocked c targets =
    filter (λ (t : Target). truthy t.ip_address && (c.enable_quic_block_global || t.quic_block))
      targets
