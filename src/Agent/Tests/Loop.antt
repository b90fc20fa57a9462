-- ===== src/Agent/Tests/Loop.antt =====
-- Runs of the agent's cycle, of its requests and of what it reads from tools, and their theorems at
-- concrete data.
use guardtime.Base.{
  ℕ, ◌+◌, ◌≡◌, refl, String, ◌==◌, string_eq, nat_eq, option_eq, true, none, some, [], ◌∷◌,
  if◌then◌else◌,
}
use guardtime.Base.Dict
use guardtime.Base.Result.{ok, err}
use guardtime.Agent.Host.{Host, exited}
use guardtime.Agent.Guard.Defs.{refresh}
use guardtime.Agent.Rotation
use guardtime.Agent.Discovery.Neighbours.{parse_neigh_line}
use guardtime.Agent.Fingerprint.{parse_dhcp_leases, lookup_vendor, find_ttl}
use guardtime.Agent.Backend.{Http, Client, Options, answered, responded, request}
use guardtime.Agent.Backend.Requests.{Counted}
use guardtime.Agent.Cycle.{Outside, Agent, create_firewall}
use guardtime.Agent.Cycle.Steps.{sync_once}
use guardtime.Agent.Cycle.Ends.{later_parts, Cycle}
use guardtime.Agent.Tests.Machines.{willing, settings, fresh_world, guard}

neighbour :
    parse_neigh_line "192.168.1.5 dev br0 lladdr AA:BB:cc:dd:ee:ff REACHABLE"
    ≡ some (record {
      mac_address = "aa:bb:cc:dd:ee:ff";
      ip_address = some "192.168.1.5";
      ipv6_address = none;
    })
unfolding parse_neigh_line string_eq nat_eq
neighbour = refl

link_local : parse_neigh_line "fe80::1 dev br0 lladdr aa:bb:cc:dd:ee:ff STALE" ≡ none
unfolding parse_neigh_line string_eq nat_eq
link_local = refl

vendor : lookup_vendor "B8:27:EB:01:02:03" ≡ some "Raspberry Pi Foundation"
unfolding lookup_vendor Dict.lookup string_eq nat_eq
vendor = refl

time_to_live : find_ttl "64 bytes from 10.0.0.7: icmp_seq=1 ttl=64 time=1.2 ms" ≡ some 64
unfolding find_ttl nat_eq string_eq
time_to_live = refl

leased :
    Dict.lookup "aa:bb:cc:dd:ee:ff"
      (parse_dhcp_leases "1700000000 AA:BB:CC:DD:EE:FF 10.0.0.7 phone *\n")
    ≡ some (record { hostname = some "phone"; dhcp_client_id = none })
unfolding parse_dhcp_leases Dict.lookup Dict.insert string_eq nat_eq
leased = refl

-- A machine that says how it reaches an address.
abbrev routed : Host
routed = record willing {
  exec = λ _ _ s. (exited "1.1.1.1 via 10.0.0.254 dev eth0 src 10.0.0.9 uid 0" "", s);
}

own_address :
    (refresh {H = routed} settings guard (record { state = tt; applied = [] })).0.detected_ip
    ≡ some "10.0.0.9"
unfolding refresh nat_eq
own_address = refl

-- A host whose state is the number of requests that it has answered, the first with status 503.
abbrev counting : Host
counting = record {
  State = ℕ;
  exec = λ _ _ s. (exited "" "", s);
  write_file = λ _ _ s. (none, s);
  unlink = λ _ s. s;
  now = λ s. s;
  tmpdir = "/tmp";
}

abbrev busy_once : Http counting
busy_once = record {
  Json = String;
  fetch = λ _ s.
      (if s == 0 then responded 503 (answered "busy") else responded 200 (answered "{}"), s + 1);
  wait = λ _ s. s;
  sha256 = λ t. t;
  hmac_sha256 = λ k t. t;
  version = "1.0.0";
  parse = λ t. answered t;
  empty = "{}";
  message = λ _. none;
}

abbrev counted : Counted busy_once
counted = record { sent = λ s. s; sends = λ r s. refl; waits = λ ms s. refl }

abbrev client : Client
client = record { backend_url = "http://backend"; gateway_token = "token" }

abbrev get : Options
get = record { method = "GET"; body = none }

abbrev path : String
path = "/gateway/policies"

-- The second request is answered.
sent_again : request busy_once client path get 0 ≡ (answered "{}", 2)
unfolding request nat_eq string_eq
sent_again = refl

abbrev offline : Outside willing
offline = record {
  report_discovery = λ _ _ s. (ok tt, s);
  get_policies = λ _ s. (err "offline", s);
  report_vpn_detections = λ _ _ s. (ok tt, s);
  report_doh_detections = λ _ _ s. (ok tt, s);
  read_env = λ _ _. Rotation.missing;
  write_env = λ _ _ s. (none, s);
  leases = record { read_file = λ _ s. (none, s) };
  python = record {
    rst = λ _ _ s. (err "no python", s);
    dns = λ _ _ s. (err "no python", s);
    tls = λ _ _ s. (err "no python", s);
  };
  resolver = record { resolve4 = λ _ s. (err "ENOTFOUND", s) };
  pauses = λ _ s. s;
  Plugin = Unit {0};
  load_plugin = λ _ s. (err "no plugin", s);
  method = λ _ _. none;
  check_connectivity = λ s. (true, s);
  detect_and_report = λ s. (ok tt, s);
  ack_router_command = λ _ _ _ s. (ok tt, s);
  get_router_commands = λ s. (ok ([], none), s);
}

abbrev started : Agent willing
started = record {
  guard = guard;
  previous = [];
  firewall = create_firewall settings;
  cache = [];
  observations = ("phone|1.1.1.1", 5 ∷ []) ∷ [];
  metrics = record { counters = []; totals = [] };
  last_detection_at = 0;
  acks = [];
  backend_token = "token";
  config_token = "token";
  world = fresh_world;
}

abbrev after_failure : Agent willing
after_failure = (sync_once settings offline "/etc/agent/.env" started).1

fails : sync_once settings offline "/etc/agent/.env" started ≡ (err "offline", after_failure)
unfolding sync_once
fails = refl

-- The cycle that fails at the backend, and what it remembers.
forgets_nothing : later_parts after_failure ≡ later_parts started
unfolding sync_once
forgets_nothing = refl

-- The same agent where the backend answers, and no device is known.
abbrev online : Outside willing
online = record offline {
  get_policies = λ _ s. (ok (record { rotated_token = none; devices = [] }), s);
}

completes : (sync_once settings online "/etc/agent/.env" started).0 ≡ ok tt
unfolding sync_once create_firewall guardtime.Agent.Firewall.Iptables.sync_family option_eq
    guardtime.Agent.Firewall.Iptables.rebuild
completes = refl
