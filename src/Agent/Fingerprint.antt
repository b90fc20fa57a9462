-- ===== src/Agent/Fingerprint.antt =====
-- gateway-agent/src/dhcp-leases.js, oui-vendors.js, os-hint.js and fingerprint.js. The file of the
-- leases is read through a parameter. The pings, which run side by side in the source, are run in the
-- order of the devices.
use Prim.Native.Nat.{◌+◌, ◌/◌}
use Prim.Native.String.{[] as empty, ◌∷◌ as ◌⋯◌}
use guardtime.Base.{
  ℕ, ℤ, pos, negsuc, ◌==◌, string_eq, nat_eq, not, ◌||◌, String, Option, none, some, List, [], ◌∷◌,
  leb, show, join, to_lower, trim, split_lines, split_on, fields, after, or_null, digit_run,
  read_digits, if◌then◌else◌,
}
use guardtime.Base.Dict
use guardtime.Base.Dict.{Dict}
use guardtime.Agent.Host.{Host, World, Outcome, exited, failed, exec_file}
use guardtime.Agent.Config.{Config}
use guardtime.Agent.Discovery.{Device}

-- What a lease says of a device.
pub record Lease : Type 0 where
  pub hostname : Option String
  pub dhcp_client_id : Option String

-- `field && field !== '*' ? field : null`
abbrev reported : String → Option String
reported field = if field == "" || field == "*" then none else some field

abbrev lease_of : List String → Lease
lease_of [] = record { hostname = none; dhcp_client_id = none }
lease_of (name ∷ []) = record { hostname = reported name; dhcp_client_id = none }
lease_of (name ∷ id ∷ _) = record { hostname = reported name; dhcp_client_id = reported id }

-- The MAC address of the fields of a line, with its lease.
abbrev lease_in : List String → Option (String × Lease)
unfolding to_lower
lease_in (expiry ∷ mac ∷ ip ∷ rest) = if mac == "" then none else some (to_lower mac, lease_of rest)
lease_in _ = none

unfoldable pub parse_line : String → Option (String × Lease)
unfolding trim fields to_lower
parse_line line =
    let trimmed = trim line in if trimmed == "" then none else lease_in (fields trimmed)

abbrev pub Leases : Type 0
Leases = Dict String Lease

abbrev store : Option (String × Lease) → Leases → Leases
store none leases = leases
store (some (mac, lease)) leases = Dict.insert mac lease leases

unfoldable pub parse_lines : List String → Leases → Leases
unfolding parse_line
parse_lines [] leases = leases
parse_lines (line ∷ lines) leases = parse_lines lines (store (parse_line line) leases)

unfoldable pub parse_dhcp_leases : String → Leases
unfolding parse_lines split_lines
parse_dhcp_leases contents = parse_lines (split_lines contents) []

-- `fs.readFile`, where `none` is an error.
pub record Files (H : Host) : Type 0 where
  pub read_file : (path : String) → H.State → Option String × H.State

abbrev leases_of : Option String → Leases
unfolding parse_dhcp_leases
leases_of none = []
leases_of (some contents) = parse_dhcp_leases contents

abbrev pub oui_vendors : Dict String String
oui_vendors =
    ("3c:06:30", "Apple")
    ∷ ("a4:83:e7", "Apple")
    ∷ ("f0:18:98", "Apple")
    ∷ ("ac:de:48", "Apple")
    ∷ ("00:1e:c2", "Apple")
    ∷ ("8c:79:f5", "Samsung")
    ∷ ("5c:0a:5b", "Samsung")
    ∷ ("34:23:87", "Samsung")
    ∷ ("54:60:09", "Google")
    ∷ ("f4:f5:d8", "Google")
    ∷ ("44:65:0d", "Amazon")
    ∷ ("fc:65:de", "Amazon")
    ∷ ("b8:27:eb", "Raspberry Pi Foundation")
    ∷ ("dc:a6:32", "Raspberry Pi Foundation")
    ∷ ("e4:5f:01", "Raspberry Pi Foundation")
    ∷ ("24:6f:28", "Espressif")
    ∷ ("30:ae:a4", "Espressif")
    ∷ ("3c:71:bf", "Espressif")
    ∷ ("00:15:5d", "Microsoft")
    ∷ ("7c:1e:52", "Microsoft")
    ∷ ("00:1b:21", "Intel")
    ∷ ("3c:a9:f4", "Intel")
    ∷ ("34:ce:00", "Xiaomi")
    ∷ ("64:09:80", "Xiaomi")
    ∷ ("5c:aa:fd", "Sonos")
    ∷ ("50:c7:bf", "TP-Link")
    ∷ ("ec:08:6b", "TP-Link")
    ∷ ("00:09:bf", "Nintendo")
    ∷ ("98:b6:e9", "Nintendo")
    ∷ ("00:04:1f", "Sony")
    ∷ ("ac:9b:0a", "Sony")
    ∷ ("00:04:0e", "AVM")
    ∷ ("34:31:c4", "AVM")
    ∷ ("9c:c7:a6", "AVM")
    ∷ ("4c:5e:0c", "MikroTik")
    ∷ ("6c:3b:6b", "MikroTik")
    ∷ ("48:8f:5a", "MikroTik")
    ∷ ("24:a4:3c", "Ubiquiti")
    ∷ ("04:18:d6", "Ubiquiti")
    ∷ ("80:2a:a8", "Ubiquiti")
    ∷ ("94:83:c4", "GL.iNet")
    ∷ ("20:e5:2a", "Netgear")
    ∷ ("a0:40:a0", "Netgear")
    ∷ ("1c:87:2c", "ASUS")
    ∷ ("04:d4:c4", "ASUS")
    ∷ ("48:f8:b3", "Linksys")
    ∷ ("c0:56:27", "Linksys")
    ∷ ("14:d6:4d", "D-Link")
    ∷ ("90:94:e4", "D-Link")
    ∷ ("00:1d:aa", "DrayTek")
    ∷ ("00:11:32", "Synology")
    ∷ ("00:16:01", "Buffalo")
    ∷ ("00:e0:fc", "Huawei")
    ∷ ("4c:1f:cc", "Huawei")
    ∷ []

abbrev first_three : List String → List String
first_three (a ∷ b ∷ c ∷ _) = a ∷ b ∷ c ∷ []
first_three parts = parts

unfoldable pub lookup_vendor : (mac_address : String) → Option String
unfolding to_lower split_on join
lookup_vendor mac_address =
    if mac_address == ""
    then none
    else Dict.lookup (join ":" (first_three (split_on b':' (to_lower mac_address)))) oui_vendors

unfoldable pub classify_ttl : ℕ → String
classify_ttl ttl =
    if leb 200 ttl
    then "network-device"
    else if leb 110 ttl
    then "windows"
    else if leb 32 ttl
    then "unix-like"
    else "unknown"

abbrev digits_after : Option String → Option ℕ
unfolding digit_run read_digits
digits_after none = none
digits_after (some s) =
    let (run, rest) = digit_run s in if run == "" then none else some (read_digits 0 run)

-- The number of the first match of `/ttl=(\d+)/i`, in a text in lower case.
unfoldable pub find_ttl : String → Option ℕ
unfolding after digit_run read_digits
find_ttl empty = none
find_ttl (c ⋯ s) = elim (digits_after (after "ttl=" (c ⋯ s))) [
  | some n ↦ some n
  | none ↦ find_ttl s
]

-- `Math.max(1, Math.ceil(ms / 1000))`
abbrev timeout_seconds : ℤ → ℕ
timeout_seconds (pos ms) = if leb ms 1000 then 1 else (ms + 999) / 1000
timeout_seconds (negsuc _) = 1

abbrev hint_of : Option ℕ → Option String
unfolding classify_ttl
hint_of none = none
hint_of (some ttl) = some (classify_ttl ttl)

abbrev hint_in : Outcome → Option String
unfolding find_ttl to_lower classify_ttl
hint_in (exited stdout errors) = hint_of (find_ttl (to_lower stdout))
hint_in (failed _ _ _) = none

pub record Enriched : Type 0 where
  pub device : Device
  pub hostname : Option String
  pub dhcp_client_id : Option String
  pub vendor_oui : Option String
  pub os_hint : Option String

abbrev hostname_of : Option Lease → Option String
hostname_of none = none
hostname_of (some l) = or_null l.hostname

abbrev client_id_of : Option Lease → Option String
client_id_of none = none
client_id_of (some l) = or_null l.dhcp_client_id

abbrev enriched_with : Leases → Device → (os_hint : Option String) → Enriched
unfolding lookup_vendor
enriched_with leases d os_hint =
    let lease = Dict.lookup d.mac_address leases in
    record {
      device = d;
      hostname = hostname_of lease;
      dhcp_client_id = client_id_of lease;
      vendor_oui = lookup_vendor d.mac_address;
      os_hint = os_hint;
    }

module _ {H : Host} (c : Config) where
  unfoldable pub detect_os_hint : (ip_address : Option String) → World H → Option String × World H
  unfolding exec_file show find_ttl to_lower classify_ttl
  detect_os_hint none w = (none, w)
  detect_os_hint (some ip) w =
      let seconds = show (timeout_seconds c.os_hint_timeout_ms) in
      let (outcome, w1) = exec_file c.ping_bin ("-c" ∷ "1" ∷ "-W" ∷ seconds ∷ ip ∷ []) w in
      if not c.enable_os_hint || ip == "" then (none, w) else (hint_in outcome, w1)

  unfoldable pub enrich_each : Leases → List Device → World H → List Enriched × World H
  unfolding detect_os_hint lookup_vendor
  enrich_each leases [] w = ([], w)
  enrich_each leases (d ∷ ds) w =
      let (hint, w1) = detect_os_hint d.ip_address w in
      let (rest, w2) = enrich_each leases ds w1 in (enriched_with leases d hint ∷ rest, w2)

  module _ (F : Files H) where
    unfoldable pub read_dhcp_leases : World H → Leases × World H
    unfolding parse_dhcp_leases
    read_dhcp_leases w =
        let (contents, s) = F.read_file c.dhcp_leases_file w.state in
        if c.dhcp_leases_file == "" then ([], w) else (leases_of contents, record w { state = s })

    unfoldable pub enrich_with_fingerprint : List Device → World H → List Enriched × World H
    unfolding read_dhcp_leases enrich_each
    enrich_with_fingerprint [] w = ([], w)
    enrich_with_fingerprint (d ∷ ds) w =
        let (leases, w1) = read_dhcp_leases w in enrich_each leases (d ∷ ds) w1
