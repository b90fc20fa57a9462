-- ===== src/Agent/Tests/Machines.antt =====
-- Machines and settings for the runs.
use guardtime.Base.{
  pos, String, refl, ap, sym, ◌∙◌, true, false, Option, none, some, List, [], ◌∷◌, ◌==◌, string_eq,
  if◌then◌else◌,
}
use guardtime.Base.Dict
use guardtime.Base.Dict.{Dict, lookup-insert_self}
use guardtime.Agent.Host.{Host, Outcome, exited, failed, World}
use guardtime.Agent.Config.{Config}
use guardtime.Agent.Target.{Target, block}
use guardtime.Agent.Guard.Defs.{Guard}
use guardtime.Agent.Firewall.Signature.{Policy}
use guardtime.Agent.Firewall.Iptables.{Iptables}
use guardtime.Agent.Firewall.Iptables.Rollback.{Restorable}

-- Every command succeeds.
abbrev pub willing : Host
willing = record {
  State = Unit {0};
  exec = λ _ _ s. (exited "" "", s);
  write_file = λ _ _ s. (none, s);
  unlink = λ _ s. s;
  now = λ _. 0;
  tmpdir = "/tmp";
}

abbrev pub fresh_world : World willing
fresh_world = record { state = tt; applied = [] }

abbrev pub settings : Config
settings = record {
  backend_url = "http://backend";
  gateway_token = "token";
  poll_interval_ms = pos 5000;
  dns_redirect_ip = "10.0.0.1";
  enable_dns_redirect = false;
  dry_run = false;
  iptables_bin = "iptables";
  iptables_save_bin = "iptables-save";
  iptables_restore_bin = "iptables-restore";
  enable_ipv6 = false;
  ip6tables_bin = "ip6tables";
  ip6tables_save_bin = "ip6tables-save";
  ip6tables_restore_bin = "ip6tables-restore";
  dns_redirect_ipv6 = "";
  conntrack_bin = "conntrack";
  tc_bin = "tc";
  python_bin = "python3";
  ip_bin = "ip";
  arp_bin = "arp";
  enable_conntrack_kill = true;
  enable_tcp_rst = true;
  tcp_rst_sniff_ms = pos 700;
  enable_qos = false;
  qos_rate = "1kbit";
  qos_default_rate = "1gbit";
  qos_interfaces = [];
  management_ips = "10.0.0.2" ∷ [];
  firewall_backend = "iptables";
  nft_bin = "nft";
  enable_vpn_block = false;
  enable_vpn_dns_sniff = false;
  vpn_dns_sniff_ms = pos 500;
  enable_tls_fingerprint = false;
  tls_fingerprint_sniff_ms = pos 800;
  tls_vpn_ja3_hashes = [];
  enable_quic_block_global = false;
  enable_doh_block = false;
  enable_doh_dns_sniff = false;
  doh_dns_sniff_ms = pos 500;
  doh_reputation_ips = [];
  doh_reputation_domains = [];
  enable_bandwidth_control = false;
  ipset_bin = "ipset";
  lan_interface = "lan0";
  wan_interface = "wan0";
  dhcp_leases_file = "";
  enable_os_hint = false;
  ping_bin = "ping";
  os_hint_timeout_ms = pos 1000;
  enable_router_detection = true;
  router_detection_interval_ms = pos 300000;
  router_ssdp_timeout_ms = pos 1500;
  router_mdns_timeout_ms = pos 1200;
}

abbrev pub phone : Target
phone = record {
  device_id = "phone";
  action = block;
  ip_address = some "10.0.0.7";
  ipv6_address = none;
  mac_address = some "aa:bb:cc:dd:ee:ff";
  vpn_block = false;
  quic_block = true;
  bandwidth_limits = [];
}

-- The gateway, which only has an IPv6 address that the guard knows.
abbrev pub gateway : Target
gateway = record {
  device_id = "gateway";
  action = block;
  ip_address = none;
  ipv6_address = some "fd00::1";
  mac_address = none;
  vpn_block = false;
  quic_block = false;
  bandwidth_limits = [];
}

abbrev pub guard : Guard
guard = record { static_ips = "10.0.0.2" ∷ "fd00::1" ∷ []; detected_ip = none }

abbrev pub policy : Policy
policy = record {
  targets = phone ∷ gateway ∷ [];
  dns_redirect_ip = "10.0.0.1";
  dns_redirect_ipv6 = "";
  enable_dns_redirect = false;
  enable_quic_block_global = false;
  enable_doh_block = false;
}

abbrev pub empty_cache : Iptables
empty_cache = record { v4 = none; v6 = none }

-- A machine with a rule set and files, on which every command of iptables itself fails.
pub record Disk : Type 0 where
  pub rules : String
  pub files : Dict String String

abbrev text_of : Option String → String
text_of none = ""
text_of (some t) = t

abbrev pub stubborn_exec : String → List String → Disk → Outcome × Disk
stubborn_exec binary args d =
    if binary == "iptables-save"
    then (exited d.rules "", d)
    else if binary == "iptables-restore"
    then load args
    else (failed none none "no such table", d)
  where
    load : List String → Outcome × Disk
    load [] = (failed none none "no file", d)
    load (file ∷ _) = (exited "" "", record d { rules = text_of (Dict.lookup file d.files) })

abbrev pub stubborn : Host
stubborn = record {
  State = Disk;
  exec = stubborn_exec;
  write_file = λ file text d. (none, record d { files = Dict.insert file text d.files });
  unlink = λ file d. record d { files = Dict.erase file d.files };
  now = λ _. 42;
  tmpdir = "/tmp";
}

abbrev pub ruled_world : World stubborn
ruled_world = record { state = record { rules = "*filter"; files = [] }; applied = [] }

unfoldable pub stubborn-Restorable : Restorable stubborn settings false
unfolding string_eq
stubborn-Restorable = record {
  current_rules = λ d. d.rules;
  file_text = λ d file. text_of (Dict.lookup file d.files);
  saves = λ d d' out errors h. cc h;
  writes = λ file text d d' h.
      ap (λ (x : Option String × Disk). text_of (Dict.lookup file x.1.files)) (sym h)
      ∙ ap text_of (lookup-insert_self file text d.files);
  restores = λ file d d' out errors h. ap (λ (x : Outcome × Disk). x.1.rules) (sym h);
  unlinks = λ file d. refl;
}
