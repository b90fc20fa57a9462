-- ===== src/Agent/Cycle/Steps.antt =====
-- gateway-agent/src/main.js: the steps of `syncOnce`, and their order.
use guardtime.Base.{
  string_eq, true, not, String, Option, List, map, length, ltb, filter, if◌then◌else◌,
}
use guardtime.Agent.Host.{Host, Result, ok, err}
use guardtime.Agent.Config.{Config}
use guardtime.Agent.Target.{Target}
use guardtime.Agent.Metrics.{inc, flush}
use guardtime.Agent.Guard.Defs.{Guard, refresh, filter_targets}
use guardtime.Agent.Discovery.{DevicePolicy, resolve_policy_target}
use guardtime.Agent.Discovery.Neighbours.{discover_devices}
use guardtime.Agent.Fingerprint.{Enriched, enrich_with_fingerprint}
use guardtime.Agent.Rotation
use guardtime.Agent.Firewall.Iptables.{Iptables}
use guardtime.Agent.Firewall.Iptables
use guardtime.Agent.Firewall.Nftables
use guardtime.Agent.Killer.{Previous, Run}
use guardtime.Agent.Killer
use guardtime.Agent.Killer.Controllers.{controllers}
use guardtime.Agent.Qos.{Shaping}
use guardtime.Agent.Qos
use guardtime.Agent.Vpn.Detector.{Row}
use guardtime.Agent.Vpn.Detector
use guardtime.Agent.Doh.{Observations, DohState, DohRow}
use guardtime.Agent.Doh
use guardtime.Agent.Heartbeat.{Heartbeat, heartbeat}
use guardtime.Agent.Router
use guardtime.Agent.Router.{Services, RouterTarget, Answer, Command, CommandResult}
use guardtime.Agent.Cycle.{
  Outside, services, disk_of, iptables, nftables, Agent, policy_of, milliseconds, quic_blocked,
}

module _ {H : Host} (c : Config) (O : Outside H) (env_path : String) where
  abbrev pub with_state : Agent H → H.State → Agent H
  with_state a s = record a { world = record a.world { state = s } }

  unfoldable pub refresh_guard : Agent H → Agent H
  unfolding refresh
  refresh_guard a = let (g, w) = refresh c a.guard a.world in record a { guard = g; world = w }

  unfoldable pub discover : Agent H → List Enriched × Agent H
  unfolding discover_devices enrich_with_fingerprint
  discover a =
      let (found, w1) = discover_devices c a.world in
      let (enriched, w2) = enrich_with_fingerprint c O.leases found w1 in
      (enriched, record a { world = w2 })

  -- A report that fails is only logged.
  unfoldable pub report_discovery : List Enriched → Agent H → Agent H
  report_discovery enriched a =
      if ltb 0 (length enriched)
      then with_state a (O.report_discovery a.backend_token enriched a.world.state).1
      else a

  unfoldable pub rotate : Option String → Agent H → Agent H
  unfolding Rotation.apply_rotated_token
  rotate token a =
      let before : Rotation.Agent (disk_of O) = record {
        backend_token = a.backend_token;
        config_token = a.config_token;
        disk = a.world.state;
      } in
      let after = Rotation.apply_rotated_token (disk_of O) env_path token before in
      record (with_state a after.disk) {
        backend_token = after.backend_token;
        config_token = after.config_token;
      }

  unfoldable pub targets_of : Guard → List Enriched → List DevicePolicy → List Target
  unfolding resolve_policy_target filter_targets
  targets_of guard enriched policies =
      let devices = map (λ (e : Enriched). e.device) enriched in
      filter_targets guard (map (λ p. resolve_policy_target p devices) policies)

  unfoldable pub kill : List Target → Agent H → Agent H
  unfolding Killer.sync controllers
  kill targets a =
      let before : Run (controllers c O.python O.pauses) = record {
        metrics = a.metrics;
        machine = a.world;
      } in
      let (previous, after) =
        Killer.sync (controllers c O.python O.pauses) a.guard targets (a.previous, before) in
      record a { previous = previous; metrics = after.metrics; world = after.machine }

  unfoldable pub sync_firewall : List Target → Agent H → Result (Unit {0}) × Agent H
  unfolding Iptables.sync Nftables.sync
  sync_firewall targets a = elim a.firewall [
    | iptables last ↦
        let (r, last', w) = Iptables.sync c (policy_of c targets) last a.world in
        (r, record a { firewall = iptables last'; world = w })
    | nftables last ↦
        let (r, last', w) = Nftables.sync c (policy_of c targets) last a.world in
        (r, record a { firewall = nftables last'; world = w })
  ]

  unfoldable pub count_quic : List Target → Agent H → Agent H
  unfolding inc filter
  count_quic targets a =
      let n = length (quic_blocked c targets) in
      if ltb 0 n then record a { metrics = inc "quicBlock.enforced" n a.metrics } else a

  -- The cache of the resolver keeps an entry for five minutes.
  unfoldable pub shape : List Target → Agent H → Result (Unit {0}) × Agent H
  unfolding Qos.sync
  shape targets a =
      let before : Shaping H = record { metrics = a.metrics; cache = a.cache; world = a.world } in
      let (r, after) = Qos.sync c O.resolver 300000 targets before in
      (r, record a { metrics = after.metrics; cache = after.cache; world = after.world })

  unfoldable pub detect_vpns : List Target → Agent H → Agent H
  unfolding Detector.sync
  detect_vpns targets a =
      let (rows, m, w) = Detector.sync c O.python true targets (a.metrics, a.world) in
      let a1 : Agent H = record a { metrics = m; world = w } in
      if not c.enable_vpn_block
      then a
      else if ltb 0 (length rows)
      then with_state a1 (O.report_vpn_detections a.backend_token rows w.state).1
      else a1

  unfoldable pub detect_doh : List Target → Agent H → Agent H
  unfolding Doh.sync
  detect_doh targets a =
      let before : DohState H = record {
        observations = a.observations;
        metrics = a.metrics;
        world = a.world;
      } in
      let (rows, after) = Doh.sync c O.python true targets before in
      let a1 : Agent H = record a {
        observations = after.observations;
        metrics = after.metrics;
        world = after.world;
      } in
      if not c.enable_doh_block
      then a
      else if ltb 0 (length rows)
      then with_state a1 (O.report_doh_detections a.backend_token rows a1.world.state).1
      else a1

  -- The detection of the router and its commands; the errors of both are only logged.
  unfoldable pub serve_router : Agent H → Agent H
  unfolding Router.maybe_run_detection Router.sync
  serve_router a =
      let (_, last, s1) =
        Router.maybe_run_detection (services O) c.enable_router_detection
          (milliseconds c.router_detection_interval_ms) a.last_detection_at a.world.state in
      let before : Router.World (services O) = record { state = s1; acks = a.acks } in
      let (_, after) = Router.sync (services O) before in
      record (with_state a after.state) { last_detection_at = last; acks = after.acks }

  -- The part of `syncOnce` after the QoS controller.
  unfoldable pub finish_cycle : List Target → Agent H → Agent H
  unfolding detect_vpns detect_doh serve_router flush
  finish_cycle targets a =
      let a1 = serve_router (detect_doh targets (detect_vpns targets a)) in
      record a1 { metrics = (flush a1.metrics).1 }

  -- The part after the policies are known.
  unfoldable pub enforce : List Target → Agent H → Result (Unit {0}) × Agent H
  unfolding kill sync_firewall count_quic shape finish_cycle
  enforce targets a =
      let (fired, a1) = sync_firewall targets (kill targets a) in
      elim fired [
        | err e ↦ (err e, a1)
        | ok _ ↦
            let (shaped, a2) = shape targets (count_quic targets a1) in
            elim shaped [ err e ↦ (err e, a2) | ok _ ↦ (ok tt, finish_cycle targets a2) ]
      ]

  -- The part of `syncOnce` before the policies are known.
  unfoldable pub look_around : Agent H → List Enriched × Agent H
  unfolding refresh_guard discover report_discovery
  look_around a =
      let (enriched, a1) = discover (refresh_guard a) in (enriched, report_discovery enriched a1)

  unfoldable pub sync_once : Agent H → Result (Unit {0}) × Agent H
  unfolding look_around rotate targets_of enforce
  sync_once a =
      let (enriched, a1) = look_around a in
      let (answer, s) = O.get_policies a1.backend_token a1.world.state in
      let a2 = with_state a1 s in
      elim answer [
        | err e ↦ (err e, a2)
        | ok policies ↦
            enforce (targets_of a2.guard enriched policies.devices)
              (rotate policies.rotated_token a2)
      ]

  -- One turn of the loop of `main`, up to the writing of the counters and the pause; an error of the
  -- cycle goes into the heartbeat.
  unfoldable pub turn : Agent H → Heartbeat × Agent H
  unfolding sync_once
  turn a = let (r, a1) = sync_once a in (heartbeat (H.now a1.world.state) r c.poll_interval_ms, a1)
