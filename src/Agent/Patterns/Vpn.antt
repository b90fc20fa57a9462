-- ===== src/Agent/Patterns/Vpn.antt =====
-- gateway-agent/src/vpn-patterns.js: the lists. Every weight is one of the source's.
use guardtime.Base.{ℕ, String, List, [], ◌∷◌}

pub record DnsPattern : Type 0 where
  pub suffix : String
  pub provider : String
  pub weight : ℕ

pub record PortSignature : Type 0 where
  pub protocol : String
  pub port : ℕ
  pub provider : String
  pub weight : ℕ

pub record IpRange : Type 0 where
  pub cidr : String
  pub provider : String
  pub weight : ℕ

abbrev dns : String → String → ℕ → DnsPattern
dns suffix provider weight = record { suffix = suffix; provider = provider; weight = weight }

abbrev sig : String → ℕ → String → ℕ → PortSignature
sig protocol port provider weight = record {
  protocol = protocol;
  port = port;
  provider = provider;
  weight = weight;
}

abbrev range : String → String → ℕ → IpRange
range cidr provider weight = record { cidr = cidr; provider = provider; weight = weight }

unfoldable pub vpn_dns_patterns : List DnsPattern
vpn_dns_patterns =
    dns "nordvpn.com" "NordVPN" 85
    ∷ dns "nordvpn.net" "NordVPN" 85
    ∷ dns "protonvpn.com" "ProtonVPN" 85
    ∷ dns "protonvpn.net" "ProtonVPN" 85
    ∷ dns "surfshark.com" "Surfshark" 85
    ∷ dns "mullvad.net" "Mullvad" 85
    ∷ dns "cloudflareclient.com" "Cloudflare WARP" 80
    ∷ []

unfoldable pub vpn_port_signatures : List PortSignature
vpn_port_signatures =
    sig "udp" 51820 "WireGuard" 90
    ∷ sig "udp" 1194 "OpenVPN" 90
    ∷ sig "tcp" 1194 "OpenVPN (TCP)" 85
    ∷ sig "udp" 500 "IKEv2/IPsec" 75
    ∷ sig "udp" 4500 "IKEv2/IPsec (NAT-T)" 75
    ∷ sig "udp" 2408 "Cloudflare WARP" 80
    ∷ sig "udp" 1701 "L2TP" 70
    ∷ sig "tcp" 1723 "PPTP" 80
    ∷ sig "tcp" 992 "SoftEther" 75
    ∷ sig "tcp" 5555 "SoftEther" 60
    ∷ sig "udp" 41194 "Outline (Shadowsocks, common default)" 55
    ∷ sig "udp" 41641 "Tailscale" 85
    ∷ sig "udp" 9993 "ZeroTier" 85
    ∷ []

unfoldable pub vpn_detection_only_port_signatures : List PortSignature
vpn_detection_only_port_signatures =
    sig "tcp" 1080 "SOCKS proxy" 30
    ∷ sig "tcp" 3128 "HTTP/HTTPS proxy (Squid default)" 25
    ∷ sig "tcp" 8080 "HTTP/HTTPS proxy" 20
    ∷ []

unfoldable pub vpn_ip_ranges : List IpRange
vpn_ip_ranges =
    range "162.159.192.0/24" "Cloudflare WARP" 85
    ∷ range "162.159.193.0/24" "Cloudflare WARP" 85
    ∷ range "100.64.0.0/10" "Tailscale" 70
    ∷ []
