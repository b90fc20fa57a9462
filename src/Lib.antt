-- ===== src/Lib.antt =====
-- GuardTime: the enforcement core of the gateway agent (gateway-agent/) and the ISP adapter
-- (isp-adapter/).
--
-- The gateway agent runs on a home router. Every few seconds it reads the policies of the devices
-- from the backend, turns them into targets, passes these through a guard that protects the
-- gateway's own path, and has its controllers enforce them: a firewall controller (iptables or
-- nftables), a killer of the connections of devices that have just been blocked, a shaper of traffic,
-- detectors of VPNs and of encrypted DNS, which report what they find, and an executor of commands
-- for the router's own interface. The ISP adapter takes the same policies and applies them
-- in an operator's network, on the gateway that serves a subscriber.
--
-- Files and sources (paths from the repository's root):
--   Base, Base/*: JavaScript's maps, options, texts and errors. A Map is an association list in
--     insertion order. `toLowerCase` and `trim` are modelled on ASCII; `slice` cuts characters.
--   Agent/Host, Agent/Host/Laws: `execFile` with the machine under it, as the parameter `Host`, and
--     `run`, which the controllers share. The machine's state carries the commands that have
--     succeeded; the code never reads that list.
--   Agent/Config, Agent/Config/Load: the settings of gateway-agent/src/config.js, and how they are
--     read from the environment and the text of the .env file. Agent/Target: the targets that
--     `resolvePolicyTarget` of device-discovery.js returns.
--   Agent/Guard/*: gateway-agent/src/management-guard.js.
--   Agent/Patterns/*: the tables of vpn-patterns.js and doh-dot-patterns.js.
--   Agent/Discovery, Agent/Discovery/Neighbours: device-discovery.js. Base/Patterns has the regular
--     expressions that find addresses. Agent/Fingerprint: fingerprint.js, dhcp-leases.js, os-hint.js
--     and oui-vendors.js.
--   Agent/Firewall/Signature: firewall-sync-signature.js. The source compares JSON texts of the
--     values that are compared here.
--   Agent/Firewall/Iptables, Agent/Firewall/Nftables: iptables-controller.js and
--     nftables-controller.js, every method. Child modules: the rules of a policy as one list, and
--     what a chain holds after the commands that have succeeded (Rules); what a pass leaves (Chain);
--     how passes end (Passes, Redirect); the rollback, with tools that may fail (Rollback); when
--     a pass is skipped (Skips); the rules of the targets (Enforcement, Blocked).
--   Agent/Metrics, Agent/Retry: metrics.js and retry.js.
--   Agent/Killer: connection-killer.js, over the interface of the conntrack and TCP reset
--     controllers. Kills that run side by side are run one after another. Killer/Controllers joins it
--     with the controllers that main.js gives it.
--   Agent/Router: router-command-executor.js, over the interface of the router's plugin, the
--     backend and the health check (Strategies, Sessions, Acks). A payload is taken as parsed. Agent/Plugins: plugin-interface.js,
--     guide-only.js and loader.js of router-integrations; Agent/Plugins/Unifi: its unifi/index.js,
--     over the parameter `Web`.
--   Agent/Conntrack: conntrack-controller.js. Agent/Cidr: cidr.js.
--   Agent/Sniffers: tcp-rst-controller.js, dns-sniff-controller.js and tls-fingerprint-detector.js.
--     The Python programs that they run are the parameter `Python`, and what those print is taken as
--     parsed.
--   Agent/Vpn, Agent/Vpn/Detector: vpn-detector.js, with its confidence computed exactly, and the
--     lookups of vpn-patterns.js and doh-dot-patterns.js.
--   Agent/Doh: doh-detector.js. A target is scanned at one time of the clock.
--   Agent/Qos, Agent/Qos/Marks, Agent/Qos/Resolve: qos-controller.js, with what an interface holds
--     after its commands (Throttling); mark-allocator.js; and
--     category-domains.js with dns-resolve-cache.js, over the parameter `Resolver`.
--   Agent/Rotation: token-rotation.js, over the disk that the agent reads and writes.
--   Agent/Backend: backend-client.js, over the parameter `Http`: `fetch` with its abort, the hashes
--     and JSON.
--   Agent/Heartbeat: heartbeat.js and healthcheck.js. Agent/Cycle, Agent/Cycle/Steps: `syncOnce` of
--     main.js, which composes all of the agent's parts over the parameter `Outside`, a turn of its
--     loop, and firewall-controller.js.
--   Isp/Store, Isp/Services, Isp/Policy: tenant-store.js, dhcp.service.js, radius.service.js,
--     subscriber-resolver.js, bng-controller.js and policy-engine.js of isp-adapter/src, every
--     method. The store is passed explicitly, and what a method wrote before it threw stays.
--     Isp/Server, Isp/Settings: the routes of server.js, over requests whose address and body are
--     parsed, and config.js.
--     Isp/Steps: every method changes the store by a few kinds of changes to its own tenant;
--     Isolation, Invariant and Failure read their results off that.
--   Agent/Tests/*, Isp/Tests: runs, and the theorems at concrete data.
--
-- Loops are structural recursion on the list that the source goes through; the loop of `retry`
-- recurses on the attempts that are left. The digits of a number recurse on fuel, one more than the
-- number, which has no more digits than that.
--
-- Not modelled: log lines, which no code reads; sockets and the parsing of HTTP; the plugins of
-- router vendors other than UniFi, and router discovery; the signals and the pauses of the agent's
-- loop; the parent app, the simulation and the deployment files. A session that a stored policy
-- holds is a copy: that stopping the session also changes it there is not followed.
pub mod Base
pub mod Agent
pub mod Isp
