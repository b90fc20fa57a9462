-- ===== src/Agent/Discovery/Neighbours.antt =====
-- gateway-agent/src/device-discovery.js: `parseNeighLine`, and what `discoverDevices` reads from the
-- tools.
use guardtime.Base.{
  ◌==◌, string_eq, String, Option, none, some, List, [], ◌∷◌, ltb, length, to_lower, trim,
  until_blank, split_lines, includes, after, find_ipv4, find_mac, if◌then◌else◌,
}
use guardtime.Agent.Host.{Host, World, Result, ok, err, Outcome, exited, failed, exec_file}
use guardtime.Agent.Config.{Config}
use guardtime.Agent.Discovery.{Device, merge_by_mac, normalize_mac}

abbrev v4_entry : (mac : String) → Option String → Option Device
v4_entry mac none = none
v4_entry mac (some ip) =
    some (record { mac_address = mac; ip_address = some ip; ipv6_address = none })

-- The test `/^fe80:/i`.
abbrev v6_entry : (mac token : String) → Option String → Option Device
v6_entry mac token (some _) = none
v6_entry mac token none =
    some (record { mac_address = mac; ip_address = none; ipv6_address = some (to_lower token) })

abbrev entry_of : (token : String) → (mac : Option String) → Option Device
unfolding includes after find_ipv4 to_lower
entry_of token none = none
entry_of token (some mac) =
    if includes ":" token
    then v6_entry mac token (after "fe80:" (to_lower token))
    else v4_entry mac (find_ipv4 token)

unfoldable pub parse_neigh_line : String → Option Device
unfolding trim until_blank find_mac find_ipv4 to_lower includes after
parse_neigh_line line =
    let trimmed = trim line in
    if trimmed == "" then none else entry_of (until_blank trimmed) (normalize_mac (find_mac line))

abbrev arp_entry : Option String → Option String → Option Device
arp_entry none mac = none
arp_entry (some ip) none = none
arp_entry (some ip) (some mac) = v4_entry mac (some ip)

unfoldable pub parse_arp_line : String → Option Device
unfolding find_mac find_ipv4 to_lower
parse_arp_line line = arp_entry (find_ipv4 line) (normalize_mac (find_mac line))

-- `.map(parse).filter(Boolean)`
unfoldable pub parse_each : (String → Option Device) → List String → List Device
parse_each parse [] = []
parse_each parse (line ∷ lines) =
    let rest = parse_each parse lines in elim (parse line) [ none ↦ rest | some d ↦ d ∷ rest ]

abbrev read_entries : (String → Option Device) → Outcome → Result (List Device)
unfolding parse_each split_lines
read_entries parse (exited stdout errors) = ok (parse_each parse (split_lines stdout))
read_entries parse (failed _ _ message) = err message

abbrev merged : Result (List Device) → List Device
unfolding merge_by_mac
merged (ok ds) = merge_by_mac ds
merged (err _) = []

module _ {H : Host} where
  unfoldable pub read_ip_neigh : (ip_bin : String) → World H → Result (List Device) × World H
  unfolding exec_file parse_each parse_neigh_line split_lines
  read_ip_neigh ip_bin w =
      let (outcome, w1) = exec_file ip_bin ("neigh" ∷ "show" ∷ []) w in
      (read_entries parse_neigh_line outcome, w1)

  unfoldable pub read_arp : (arp_bin : String) → World H → Result (List Device) × World H
  unfolding exec_file parse_each parse_arp_line split_lines
  read_arp arp_bin w =
      let (outcome, w1) = exec_file arp_bin ("-a" ∷ []) w in
      (read_entries parse_arp_line outcome, w1)

  -- Where the neighbour table is empty or cannot be read, ARP is asked.
  unfoldable pub discover_devices : Config → World H → List Device × World H
  unfolding read_ip_neigh read_arp merge_by_mac
  discover_devices c w =
      let (read, w1) = read_ip_neigh c.ip_bin w in
      let (arp, w2) = read_arp c.arp_bin w1 in
      let instead : List Device × World H = (merged arp, w2) in
      elim read [
        | err _ ↦ instead
        | ok ds ↦ if ltb 0 (length ds) then (merge_by_mac ds, w1) else instead
      ]
