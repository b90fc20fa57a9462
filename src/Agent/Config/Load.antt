-- ===== src/Agent/Config/Load.antt =====
-- gateway-agent/src/config.js: `loadConfig`, over the environment and the text of the .env file.
use guardtime.Base.{
  ℤ, pos, String, ◌==◌, string_eq, nat_eq, Bool, true, false, not, ◌&&◌, Option, none, some, List,
  [], ◌∷◌, map, filter, contains, trim, to_lower, strip_slash, strip_quotes, split_lines, split_on,
  is_comment, cut_sign, parse_int, truthy, if◌then◌else◌,
}
use guardtime.Base.Dict
use guardtime.Base.Dict.{Dict}
use guardtime.Base.Result.{Result, ok, err}
use guardtime.Agent.Config.{Config}

-- `process.env`
abbrev pub Env : Type 0
Env = Dict String String

-- What a line of the file sets.
unfoldable pub setting_of : String → Option (String × String)
unfolding trim is_comment cut_sign strip_quotes
setting_of line =
    let trimmed = trim line in
    if is_comment trimmed then none else elim (cut_sign trimmed) [
      | none ↦ none
      | some (key, value) ↦ some (trim key, strip_quotes (trim value))
    ]

-- `if (!process.env[key]) process.env[key] = value`
abbrev pub set_missing : Option (String × String) → Env → Env
set_missing none env = env
set_missing (some (key, value)) env =
    if truthy (Dict.lookup key env) then env else Dict.insert key value env

-- The loop of `loadDotEnv`.
unfoldable pub read_settings : List String → Env → Env
unfolding setting_of
read_settings [] env = env
read_settings (line ∷ lines) env = read_settings lines (set_missing (setting_of line) env)

-- `none` where there is no file.
unfoldable pub load_dot_env : (file : Option String) → Env → Env
unfolding read_settings split_lines
load_dot_env none env = env
load_dot_env (some file) env = read_settings (split_lines file) env

unfoldable pub bool : Env → (name : String) → (fallback : Bool) → Bool
unfolding to_lower
bool env name fallback = elim (Dict.lookup name env) [
  | none ↦ fallback
  | some value ↦ contains ("1" ∷ "true" ∷ "yes" ∷ "on" ∷ []) (to_lower value)
]

-- `process.env[name] || fallback`
unfoldable pub text : Env → (name fallback : String) → String
text env name fallback = elim (Dict.lookup name env) [
  | none ↦ fallback
  | some value ↦ if value == "" then fallback else value
]

unfoldable pub int : Env → (name : String) → (fallback : ℤ) → ℤ
unfolding text parse_int
int env name fallback = elim (parse_int (text env name "")) [ none ↦ fallback | some n ↦ n ]

unfoldable pub list : Env → (name : String) → List String
unfolding text split_on filter trim
list env name = filter (λ item. not (item == "")) (map trim (split_on b',' (text env name "")))

unfoldable pub lower_list : Env → (name : String) → List String
unfolding text split_on filter trim to_lower
lower_list env name =
    filter (λ item. not (item == ""))
      (map (λ item. to_lower (trim item)) (split_on b',' (text env name "")))

-- The object that `loadConfig` builds.
unfoldable pub settings_of : Env → Config
unfolding bool text int list lower_list strip_slash to_lower
settings_of env = record {
  backend_url = strip_slash (text env "BACKEND_URL" "https://api.waqti.pro");
  gateway_token = text env "GATEWAY_TOKEN" "";
  poll_interval_ms = int env "POLL_INTERVAL_MS" (pos 3000);
  dns_redirect_ip = text env "DNS_REDIRECT_IP" "";
  enable_dns_redirect = bool env "ENABLE_DNS_REDIRECT" true;
  dry_run = bool env "DRY_RUN" false;
  iptables_bin = text env "IPTABLES_BIN" "iptables";
  iptables_save_bin = text env "IPTABLES_SAVE_BIN" "iptables-save";
  iptables_restore_bin = text env "IPTABLES_RESTORE_BIN" "iptables-restore";
  enable_ipv6 = bool env "ENABLE_IPV6" true;
  ip6tables_bin = text env "IP6TABLES_BIN" "ip6tables";
  ip6tables_save_bin = text env "IP6TABLES_SAVE_BIN" "ip6tables-save";
  ip6tables_restore_bin = text env "IP6TABLES_RESTORE_BIN" "ip6tables-restore";
  dns_redirect_ipv6 = text env "DNS_REDIRECT_IPV6" "";
  conntrack_bin = text env "CONNTRACK_BIN" "conntrack";
  tc_bin = text env "TC_BIN" "tc";
  python_bin = text env "PYTHON_BIN" "python3";
  ip_bin = text env "IP_BIN" "ip";
  arp_bin = text env "ARP_BIN" "arp";
  enable_conntrack_kill = bool env "ENABLE_CONNTRACK_KILL" true;
  enable_tcp_rst = bool env "ENABLE_TCP_RST" true;
  tcp_rst_sniff_ms = int env "TCP_RST_SNIFF_MS" (pos 700);
  enable_qos = bool env "ENABLE_QOS" true;
  qos_rate = text env "QOS_RATE" "1kbit";
  qos_default_rate = text env "QOS_DEFAULT_RATE" "1000mbit";
  qos_interfaces = list env "QOS_INTERFACES";
  management_ips = list env "GATEWAY_MANAGEMENT_IPS";
  firewall_backend = to_lower (text env "FIREWALL_BACKEND" "iptables");
  nft_bin = text env "NFT_BIN" "nft";
  enable_vpn_block = bool env "ENABLE_VPN_BLOCK" true;
  enable_vpn_dns_sniff = bool env "ENABLE_VPN_DNS_SNIFF" false;
  vpn_dns_sniff_ms = int env "VPN_DNS_SNIFF_MS" (pos 500);
  enable_tls_fingerprint = bool env "ENABLE_TLS_FINGERPRINT" false;
  tls_fingerprint_sniff_ms = int env "TLS_FINGERPRINT_SNIFF_MS" (pos 800);
  tls_vpn_ja3_hashes = lower_list env "TLS_VPN_JA3_HASHES";
  enable_quic_block_global = bool env "ENABLE_QUIC_BLOCK_GLOBAL" false;
  enable_doh_block = bool env "ENABLE_DOH_BLOCK" true;
  enable_doh_dns_sniff = bool env "ENABLE_DOH_DNS_SNIFF" false;
  doh_dns_sniff_ms = int env "DOH_DNS_SNIFF_MS" (pos 500);
  doh_reputation_ips = list env "DOH_REPUTATION_IPS";
  doh_reputation_domains = lower_list env "DOH_REPUTATION_DOMAINS";
  enable_bandwidth_control = bool env "ENABLE_BANDWIDTH_CONTROL" true;
  ipset_bin = text env "IPSET_BIN" "ipset";
  lan_interface = text env "LAN_INTERFACE" "";
  wan_interface = text env "WAN_INTERFACE" "";
  dhcp_leases_file = text env "DHCP_LEASES_FILE" "";
  enable_os_hint = bool env "ENABLE_OS_HINT" false;
  ping_bin = text env "PING_BIN" "ping";
  os_hint_timeout_ms = int env "OS_HINT_TIMEOUT_MS" (pos 1000);
  enable_router_detection = bool env "ENABLE_ROUTER_DETECTION" true;
  router_detection_interval_ms = int env "ROUTER_DETECTION_INTERVAL_MS" (pos 300000);
  router_ssdp_timeout_ms = int env "ROUTER_SSDP_TIMEOUT_MS" (pos 1500);
  router_mdns_timeout_ms = int env "ROUTER_MDNS_TIMEOUT_MS" (pos 1200);
}

unfoldable pub check_settings : Config → Result Config
check_settings c =
    if c.gateway_token == ""
    then err "GATEWAY_TOKEN is required"
    else if c.enable_dns_redirect && c.dns_redirect_ip == ""
    then err "DNS_REDIRECT_IP is required when ENABLE_DNS_REDIRECT=true"
    else ok c

unfoldable pub load_config : (file : Option String) → Env → Result Config
unfolding load_dot_env settings_of check_settings
load_config file env = check_settings (settings_of (load_dot_env file env))
