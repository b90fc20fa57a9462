-- ===== src/Agent/Sniffers.antt =====
-- gateway-agent/src/tcp-rst-controller.js, dns-sniff-controller.js and tls-fingerprint-detector.js:
-- the controllers that run a Python program for a moment. The programs are no JavaScript, and what
-- they print is taken as parsed; both are parameters.
use guardtime.Base.{
  ℤ, String, ◌==◌, string_eq, Bool, not, ◌||◌, Option, none, some, List, [], ◌∷◌, map, json_text,
  json_int, json_list, json_object, if◌then◌else◌,
}
use guardtime.Agent.Host.{Host, World, Result, ok, err}
use guardtime.Agent.Config.{Config}
use guardtime.Agent.Conntrack.{Flow, list_tcp_connections}

-- What a program prints: `ok`, and `queries` or `fingerprints`.
pub record Report : Type 0 where
  pub ok : Bool
  pub found : Option (List String)

-- A run of Python with one of the programs and a payload. An error is a run that failed, or a text
-- that is no JSON.
pub record Python (H : Host) : Type 0 where
  pub rst : (binary payload : String) → H.State → Result Report × H.State
  pub dns : (binary payload : String) → H.State → Result Report × H.State
  pub tls : (binary payload : String) → H.State → Result Report × H.State

-- A run that is made in a world.
abbrev pub in_world : {H : Host} {A : Type 0} → (H.State → A × H.State) → World H → A × World H
in_world f w = let (a, s) = f w.state in (a, record w { state = s })

abbrev pub default_or {ℓ} : {A : Type ℓ} → Option A → A → A
default_or none a = a
default_or (some b) a = b

abbrev pub found_of : Report → List String
found_of r = if r.ok then default_or r.found [] else []

abbrev flow_json : Flow → String
unfolding json_text json_int json_object
flow_json f = json_object (
    ("src", json_text f.src)
    ∷ ("dst", json_text f.dst)
    ∷ ("sport", json_int f.sport)
    ∷ ("dport", json_int f.dport)
    ∷ [])

unfoldable pub sniff_payload : (device_ip : String) → (sniff_ms : ℤ) → String
unfolding json_text json_int json_object
sniff_payload device_ip sniff_ms =
    json_object (("deviceIp", json_text device_ip) ∷ ("sniffMs", json_int (some sniff_ms)) ∷ [])

unfoldable pub reset_payload : (device_ip : String) → (sniff_ms : ℤ) → List Flow → String
unfolding json_text json_int json_list json_object
reset_payload device_ip sniff_ms flows = json_object (
    ("deviceIp", json_text device_ip)
    ∷ ("sniffMs", json_int (some sniff_ms))
    ∷ ("flows", json_list (map flow_json flows))
    ∷ [])

-- `options` of `captureDnsQueries`.
pub record SniffOptions : Type 0 where
  pub enabled : Option Bool
  pub sniff_ms : Option ℤ

abbrev pub no_options : SniffOptions
no_options = record { enabled = none; sniff_ms = none }

module _ {H : Host} (c : Config) (P : Python H) where
  -- What the program answers is only logged, an error too.
  unfoldable pub inject_resets : (ip_address : String) → List Flow → World H → World H
  unfolding reset_payload
  inject_resets ip_address flows w =
      if c.dry_run
      then w
      else (in_world (P.rst c.python_bin (reset_payload ip_address c.tcp_rst_sniff_ms flows)) w).1

  -- `none` where the caller knows no flows, so that they are listed here.
  unfoldable pub reset_device :
      (ip_address : String) → (known_flows : Option (List Flow)) → World H → World H
  unfolding inject_resets list_tcp_connections
  reset_device ip_address known_flows w =
      if not c.enable_tcp_rst || ip_address == "" then w else elim known_flows [
        | some flows ↦ inject_resets ip_address flows w
        | none ↦
            let (listed, w1) = list_tcp_connections c ip_address w in
            inject_resets ip_address (elim listed [ ok flows ↦ flows | err _ ↦ [] ]) w1
      ]

  abbrev found_in : Result Report × World H → List String × World H
  found_in (ok report, w) = (found_of report, w)
  found_in (err _, w) = ([], w)

  unfoldable pub capture_dns_queries :
      (ip_address : String) → SniffOptions → World H → List String × World H
  unfolding sniff_payload
  capture_dns_queries ip_address options w =
      if not (default_or options.enabled c.enable_vpn_dns_sniff) || (ip_address == "" || c.dry_run)
      then ([], w)
      else found_in (
          in_world
            (P.dns c.python_bin
              (sniff_payload ip_address (default_or options.sniff_ms c.vpn_dns_sniff_ms)))
            w)

  unfoldable pub capture_fingerprints : (ip_address : String) → World H → List String × World H
  unfolding sniff_payload
  capture_fingerprints ip_address w =
      if not c.enable_tls_fingerprint || (ip_address == "" || c.dry_run)
      then ([], w)
      else found_in
          (in_world (P.tls c.python_bin (sniff_payload ip_address c.tls_fingerprint_sniff_ms)) w)
