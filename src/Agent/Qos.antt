-- ===== src/Agent/Qos.antt =====
-- gateway-agent/src/qos-controller.js: the methods of `QosController`.
pub mod Marks
pub mod Resolve
pub mod Throttling
use guardtime.Base.{
  ℕ, ◌+◌, String, ◌<>◌, ◌==◌, string_eq, option_eq, nat_eq, Bool, true, false, not, ◌&&◌, ◌||◌,
  Option, none, some, List, [], ◌∷◌, ◌++◌, map, filter, contains, length, show, ltb, truthy,
  if◌then◌else◌,
}
use guardtime.Agent.Host.{
  Host, World, Result, ok, err, Action, ◌>>=◌, ◌>>◌, done, when, for_each, run_command,
}
use guardtime.Agent.Config.{Config}
use guardtime.Agent.Target.{Target, PolicyAction, BandwidthLimit, throttle}
use guardtime.Agent.Metrics.{Metrics, inc}
use guardtime.Agent.Qos.Marks.{bandwidth_class_id}
use guardtime.Agent.Qos.Resolve.{Cache, Resolver, resolve_all, domains_for_category, add_all}

abbrev pub root_handle : String
root_handle = "1:"

abbrev pub root_class : String
root_class = "1:1"

abbrev pub throttle_class : String
throttle_class = "1:10"

abbrev pub default_class : String
default_class = "1:30"

abbrev pub is_throttle : PolicyAction → Bool
is_throttle throttle = true
is_throttle _ = false

-- The arguments of the filter commands.
abbrev pub throttle_filter :
    (iface protocol prio match_word direction address : String) → List String
throttle_filter iface protocol prio match_word direction address =
    "filter" ∷ "add" ∷ "dev" ∷ iface ∷ "protocol" ∷ protocol ∷ "parent" ∷ root_handle ∷ "prio"
    ∷ prio ∷ "u32" ∷ "match" ∷ match_word ∷ direction ∷ address ∷ "flowid" ∷ throttle_class ∷ []

-- What a bandwidth filter matches.
pub record Match : Type 0 where
  pub src : Option String
  pub dst : Option String

abbrev match_args : (direction : String) → Option String → List String
match_args direction none = []
match_args direction (some ip) = if ip == "" then [] else "match" ∷ "ip" ∷ direction ∷ ip ∷ []

abbrev pub bandwidth_filter : (iface class_id : String) → Match → List String
bandwidth_filter iface class_id m =
    "filter"
    ∷ "add"
    ∷ "dev"
    ∷ iface
    ∷ "protocol"
    ∷ "ip"
    ∷ "parent"
    ∷ root_handle
    ∷ "prio"
    ∷ "20"
    ∷ "u32"
    ∷ (match_args "src" m.src ++ (match_args "dst" m.dst ++ "flowid" ∷ class_id ∷ []))

-- The class that is made, at a rate.
abbrev pub make_class : (iface parent class_id : String) → (rate : List String) → List String
make_class iface parent class_id rate =
    "class" ∷ "replace" ∷ "dev" ∷ iface ∷ "parent" ∷ parent ∷ "classid" ∷ class_id ∷ "htb" ∷ "rate"
    ∷ rate

abbrev pub throttled : List Target → List Target
unfolding filter
throttled targets =
    filter (λ (t : Target). is_throttle t.action && (truthy t.ip_address || truthy t.ipv6_address))
      targets

abbrev pub has_limits : Target → Bool
has_limits t = truthy t.ip_address && ltb 0 (length t.bandwidth_limits)

abbrev pub interfaces_or : String → List String → List String
interfaces_or iface fallback = if iface == "" then fallback else iface ∷ []

abbrev pub download_interfaces : Config → List String
download_interfaces c = interfaces_or c.lan_interface c.qos_interfaces

abbrev pub upload_interfaces : Config → List String
upload_interfaces c = interfaces_or c.wan_interface c.qos_interfaces

-- The set of all of them, in insertion order.
unfoldable pub all_interfaces : Config → List String
unfolding add_all
all_interfaces c = add_all [] (c.qos_interfaces ++ (download_interfaces c ++ upload_interfaces c))

-- `if (address) use(address)`
abbrev pub with_present :
    {H : Host} → Option String → (String → Action H (Unit {0})) → Action H (Unit {0})
with_present none f = done
with_present (some a) f = if a == "" then done else f a

abbrev pub del_filters : (iface protocol : String) → List String
del_filters iface protocol =
    "filter" ∷ "del" ∷ "dev" ∷ iface ∷ "protocol" ∷ protocol ∷ "parent" ∷ root_handle ∷ []

abbrev pub matches_of : Option (List String) → (String → Match) → Match → List Match
matches_of none of_category whole = whole ∷ []
matches_of (some ips) of_category whole = map of_category ips

-- What the controller holds, with the machine.
pub record Shaping (H : Host) : Type 0 where
  pub metrics : Metrics
  pub cache : Cache
  pub world : World H

abbrev pub text_of : Option String → String
text_of none = ""
text_of (some s) = s

module _ {H : Host} (c : Config) where
  unfoldable pub run : List String → Action H (Unit {0})
  unfolding run_command
  run args = run_command c.dry_run c.tc_bin false args >> done

  unfoldable pub try_run : List String → Action H (Unit {0})
  unfolding run_command
  try_run args = run_command c.dry_run c.tc_bin true args >> done

  unfoldable pub ensure_qdisc : (iface : String) → Action H (Unit {0})
  unfolding run
  ensure_qdisc iface =
      run (
        "qdisc" ∷ "replace" ∷ "dev" ∷ iface ∷ "root" ∷ "handle" ∷ root_handle ∷ "htb" ∷ "default"
        ∷ "30" ∷ [])
      >> (run (make_class iface root_handle root_class (c.qos_default_rate ∷ []))
          >> (run
                (make_class iface root_class throttle_class (c.qos_rate ∷ "ceil" ∷ c.qos_rate ∷ []))
              >> run (make_class iface root_class default_class (c.qos_default_rate ∷ []))))

  unfoldable pub clear_filters : (iface : String) → Action H (Unit {0})
  unfolding try_run
  clear_filters iface =
      try_run (del_filters iface "ip") >> when c.enable_ipv6 (try_run (del_filters iface "ipv6"))

  unfoldable pub add_throttle_filters : (iface ip_address : String) → Action H (Unit {0})
  unfolding run
  add_throttle_filters iface ip_address =
      run (throttle_filter iface "ip" "10" "ip" "src" ip_address)
      >> run (throttle_filter iface "ip" "11" "ip" "dst" ip_address)

  unfoldable pub add_throttle_filters_v6 : (iface ipv6_address : String) → Action H (Unit {0})
  unfolding run
  add_throttle_filters_v6 iface ipv6_address =
      run (throttle_filter iface "ipv6" "12" "ip6" "src" ipv6_address)
      >> run (throttle_filter iface "ipv6" "13" "ip6" "dst" ipv6_address)

  -- The body of the loop over the throttled targets.
  unfoldable pub throttle_target : (iface : String) → Target → Action H (Unit {0})
  unfolding add_throttle_filters add_throttle_filters_v6
  throttle_target iface t =
      with_present t.ip_address (add_throttle_filters iface)
      >> when c.enable_ipv6 (with_present t.ipv6_address (add_throttle_filters_v6 iface))

  -- The part of `sync` before the bandwidth limits.
  unfoldable pub sync_throttling : List Target → Action H (Unit {0})
  unfolding for_each ensure_qdisc clear_filters throttle_target
  sync_throttling targets =
      for_each (all_interfaces c) (λ iface. ensure_qdisc iface >> clear_filters iface)
      >> for_each c.qos_interfaces (λ iface. for_each (throttled targets) (throttle_target iface))

  unfoldable pub ensure_bandwidth_class :
      (iface class_id : String) → (rate_kbps : ℕ) → Action H (Unit {0})
  unfolding run
  ensure_bandwidth_class iface class_id rate_kbps =
      let rate = show rate_kbps <> "kbit" in
      run (make_class iface root_class class_id (rate ∷ "ceil" ∷ rate ∷ []))

  unfoldable pub add_bandwidth_filter : (iface class_id : String) → Match → Action H (Unit {0})
  unfolding run
  add_bandwidth_filter iface class_id m = run (bandwidth_filter iface class_id m)

  -- The inner loop, with the count of the filters that were added before it ended or failed.
  unfoldable pub add_filters :
      (iface class_id : String)
      → List Match
      → (count : ℕ) → World H
      → Result (Unit {0}) × ℕ × World H
  unfolding add_bandwidth_filter
  add_filters iface class_id [] count w = (ok tt, count, w)
  add_filters iface class_id (m ∷ ms) count w =
      let (r, w1) = add_bandwidth_filter iface class_id m w in
      elim r [ err e ↦ (err e, count, w1) | ok _ ↦ add_filters iface class_id ms (count + 1) w1 ]

  -- The `try` of the loop of `applyDirectionalLimit`.
  unfoldable pub limit_interface :
      (class_id : String)
      → (rate_kbps : ℕ) → List Match
      → (iface : String) → (count : ℕ) → World H
      → Result (Unit {0}) × ℕ × World H
  unfolding ensure_bandwidth_class add_filters
  limit_interface class_id rate_kbps matches iface count w =
      let (r, w1) = ensure_bandwidth_class iface class_id rate_kbps w in
      elim r [ err e ↦ (err e, count, w1) | ok _ ↦ add_filters iface class_id matches count w1 ]

  -- Where a step fails, the qdisc of the interface is removed.
  unfoldable pub apply_directional_limit :
      (interfaces : List String)
      → (class_id : String) → (rate_kbps : ℕ) → List Match
      → (count : ℕ) → Metrics × World H
      → ℕ × Metrics × World H
  unfolding limit_interface try_run inc
  apply_directional_limit [] class_id rate_kbps matches count (m, w) = (count, m, w)
  apply_directional_limit (iface ∷ rest) class_id rate_kbps matches count (m, w) =
      let (r, count1, w1) = limit_interface class_id rate_kbps matches iface count w in
      elim r [
        | ok _ ↦ apply_directional_limit rest class_id rate_kbps matches count1 (m, w1)
        | err _ ↦
            let w2 = (try_run ("qdisc" ∷ "del" ∷ "dev" ∷ iface ∷ "root" ∷ []) w1).1 in
            apply_directional_limit rest class_id rate_kbps matches count1
              (inc "bandwidth.rollback" 1 m, w2)
      ]

  abbrev applied_limit : ℕ → Shaping H → ℕ × Metrics × World H → ℕ × Shaping H
  applied_limit applied s (n, m, w) = (applied + n, record s { metrics = m; world = w })

  -- `if (limit.downloadKbps) { … }`, and the same for the upload.
  unfoldable pub apply_direction :
      (interfaces : List String)
      → (class_id : String) → (rate_kbps : ℕ) → List Match
      → ℕ × Shaping H
      → ℕ × Shaping H
  unfolding apply_directional_limit
  apply_direction interfaces class_id rate_kbps matches (applied, s) =
      if ltb 0 rate_kbps
      then applied_limit applied s
          (apply_directional_limit interfaces class_id rate_kbps matches 0 (s.metrics, s.world))
      else (applied, s)

  unfoldable pub limit_download :
      (device_id ip : String)
      → BandwidthLimit
      → (category_ips : Option (List String)) → ℕ × Shaping H
      → ℕ × Shaping H
  unfolding apply_direction bandwidth_class_id
  limit_download device_id ip limit ips a =
      apply_direction (download_interfaces c) (bandwidth_class_id device_id limit.category "dl")
        limit.download_kbps
        (matches_of ips (λ x. record { src = some x; dst = some ip })
          (record { src = none; dst = some ip }))
        a

  unfoldable pub limit_upload :
      (device_id ip : String)
      → BandwidthLimit
      → (category_ips : Option (List String)) → ℕ × Shaping H
      → ℕ × Shaping H
  unfolding apply_direction bandwidth_class_id
  limit_upload device_id ip limit ips a =
      apply_direction (upload_interfaces c) (bandwidth_class_id device_id limit.category "ul")
        limit.upload_kbps
        (matches_of ips (λ x. record { src = some ip; dst = some x })
          (record { src = some ip; dst = none }))
        a

  module _ (R : Resolver H) (ttl_ms : ℕ) where
    unfoldable pub resolve_category : Option String → Shaping H → Option (List String) × Shaping H
    unfolding resolve_all domains_for_category
    resolve_category none s = (none, s)
    resolve_category (some category) s =
        if category == ""
        then (none, s)
        else let (ips, cache, state) =
            resolve_all R ttl_ms (domains_for_category category) (s.cache, s.world.state) in
          (
            some ips,
            record s { cache = cache; world = record { state = state; applied = s.world.applied } },
          )

    -- The body of the loop over the limits of a target.
    unfoldable pub apply_limit :
        (device_id ip : String) → BandwidthLimit → ℕ × Shaping H → ℕ × Shaping H
    unfolding resolve_category limit_download limit_upload
    apply_limit device_id ip limit (applied, s) =
        let (ips, s1) = resolve_category limit.category s in
        limit_upload device_id ip limit ips (limit_download device_id ip limit ips (applied, s1))

    unfoldable pub apply_limits :
        (device_id ip : String) → List BandwidthLimit → ℕ × Shaping H → ℕ × Shaping H
    unfolding apply_limit
    apply_limits device_id ip [] a = a
    apply_limits device_id ip (l ∷ ls) a =
        apply_limits device_id ip ls (apply_limit device_id ip l a)

    unfoldable pub limit_targets : List Target → ℕ × Shaping H → ℕ × Shaping H
    unfolding apply_limits
    limit_targets [] a = a
    limit_targets (t ∷ ts) a =
        limit_targets ts (apply_limits t.device_id (text_of t.ip_address) t.bandwidth_limits a)

    unfoldable pub sync_bandwidth_limits : List Target → Shaping H → Shaping H
    unfolding filter limit_targets inc
    sync_bandwidth_limits targets s =
        let (applied, s1) = limit_targets (filter has_limits targets) (0, s) in
        if ltb 0 applied
        then record s1 { metrics = inc "bandwidth.rulesApplied" applied s1.metrics }
        else s1

    unfoldable pub sync : List Target → Shaping H → Result (Unit {0}) × Shaping H
    unfolding sync_throttling sync_bandwidth_limits
    sync targets s =
        if not c.enable_qos || length c.qos_interfaces == 0
        then (ok tt, s)
        else let (r, w) = sync_throttling targets s.world in
          let s1 : Shaping H = record s { world = w } in
          elim r [
            | err e ↦ (err e, s1)
            | ok _ ↦
                (ok tt, if c.enable_bandwidth_control then sync_bandwidth_limits targets s1 else s1)
          ]
