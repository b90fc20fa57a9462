-- ===== src/Agent/Patterns/Doh.antt =====
-- gateway-agent/src/doh-dot-patterns.js: the lists.
use guardtime.Base.{ℕ, String, List, [], ◌∷◌}

pub record DohProvider : Type 0 where
  pub name : String
  pub ip : String

abbrev provider : String → String → DohProvider
provider name ip = record { name = name; ip = ip }

unfoldable pub dot_ports : List ℕ
dot_ports = 853 ∷ []

unfoldable pub doh_provider_ips : List DohProvider
doh_provider_ips =
    provider "Cloudflare" "1.1.1.1"
    ∷ provider "Cloudflare" "1.0.0.1"
    ∷ provider "Google" "8.8.8.8"
    ∷ provider "Google" "8.8.4.4"
    ∷ provider "Quad9" "9.9.9.9"
    ∷ provider "Quad9" "149.112.112.112"
    ∷ provider "OpenDNS" "208.67.222.222"
    ∷ provider "OpenDNS" "208.67.220.220"
    ∷ provider "NextDNS" "45.90.28.0"
    ∷ provider "NextDNS" "45.90.30.0"
    ∷ provider "AdGuard" "94.140.14.14"
    ∷ provider "AdGuard" "94.140.15.15"
    ∷ provider "CleanBrowsing" "185.228.168.9"
    ∷ provider "CleanBrowsing" "185.228.169.9"
    ∷ []

unfoldable pub doh_sni_patterns : List String
doh_sni_patterns =
    "dns.google" ∷ "cloudflare-dns.com" ∷ "doh.opendns.com" ∷ "dns.quad9.net"
    ∷ "doh.cleanbrowsing.org" ∷ "dns.nextdns.io" ∷ "doh.dns.sb" ∷ "dns.adguard.com"
    ∷ "dns.adguard-dns.com" ∷ []
