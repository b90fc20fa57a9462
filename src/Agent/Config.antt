-- ===== src/Agent/Config.antt =====
-- gateway-agent/src/config.js: the settings.
pub mod Load
pub mod Precedence
use guardtime.Base.{ℤ, String, Bool, List}

pub record Config : Type 0 where
  pub backend_url : String
  pub gateway_token : String
  pub poll_interval_ms : ℤ
  pub dns_redirect_ip : String
  pub enable_dns_redirect : Bool
  pub dry_run : Bool
  pub iptables_bin : String
  pub iptables_save_bin : String
  pub iptables_restore_bin : String
  pub enable_ipv6 : Bool
  pub ip6tables_bin : String
  pub ip6tables_save_bin : String
  pub ip6tables_restore_bin : String
  pub dns_redirect_ipv6 : String
  pub conntrack_bin : String
  pub tc_bin : String
  pub python_bin : String
  pub ip_bin : String
  pub arp_bin : String
  pub enable_conntrack_kill : Bool
  pub enable_tcp_rst : Bool
  pub tcp_rst_sniff_ms : ℤ
  pub enable_qos : Bool
  pub qos_rate : String
  pub qos_default_rate : String
  pub qos_interfaces : List String
  pub management_ips : List String
  pub firewall_backend : String
  pub nft_bin : String
  pub enable_vpn_block : Bool
  pub enable_vpn_dns_sniff : Bool
  pub vpn_dns_sniff_ms : ℤ
  pub enable_tls_fingerprint : Bool
  pub tls_fingerprint_sniff_ms : ℤ
  pub tls_vpn_ja3_hashes : List String
  pub enable_quic_block_global : Bool
  pub enable_doh_block : Bool
  pub enable_doh_dns_sniff : Bool
  pub doh_dns_sniff_ms : ℤ
  pub doh_reputation_ips : List String
  pub doh_reputation_domains : List String
  pub enable_bandwidth_control : Bool
  pub ipset_bin : String
  pub lan_interface : String
  pub wan_interface : String
  pub dhcp_leases_file : String
  pub enable_os_hint : Bool
  pub ping_bin : String
  pub os_hint_timeout_ms : ℤ
  pub enable_router_detection : Bool
  pub router_detection_interval_ms : ℤ
  pub router_ssdp_timeout_ms : ℤ
  pub router_mdns_timeout_ms : ℤ
