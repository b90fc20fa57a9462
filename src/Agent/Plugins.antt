-- ===== src/Agent/Plugins.antt =====
-- gateway-agent/src/router-integrations: plugin-interface.js, guide-only.js and loader.js. A plugin is
-- what it has under the names of its methods.
pub mod Unifi
use guardtime.Base.{
  ℕ, ◌-◌, ◌==◌, string_eq, nat_eq, Bool, true, false, not, String, ◌<>◌, Option, none, some, List,
  [], ◌∷◌, filter, join, length, contains, show, if◌then◌else◌,
}
use guardtime.Base.Dict
use guardtime.Base.Dict.{Dict}
use guardtime.Base.Result.{Result, ok, err}
use guardtime.Agent.Host.{Host}
use guardtime.Agent.Router.{RouterTarget}

-- What a method resolves to.
pub record PluginResult : Type 0 where
  pub success : Bool
  pub message : String
  pub detail : Option String
  pub guide_only : Bool

abbrev pub says : (success : Bool) → (message : String) → PluginResult
says success message = record {
  success = success;
  message = message;
  detail = none;
  guide_only = false;
}

-- The address and the credentials of a router, and the settings that some plugins read.
pub record Context : Type 0 where
  pub ip_address : String
  pub port : Option ℕ
  pub site : Option String
  pub unifi_os : Option Bool
  pub username : Option String
  pub password : Option String
  pub dry_run : Bool

abbrev pub Call : Type 0 → Type 0 → Type 0
Call S A = S → Result A × S

abbrev pub PluginMethod : Host → Type 0
PluginMethod H = Context → RouterTarget → Call H.State PluginResult

abbrev pub Plugin : Host → Type 0
Plugin H = Dict String (PluginMethod H)

abbrev pub required_methods : List String
required_methods =
    "detect" ∷ "login" ∷ "testConnection" ∷ "changeDNS" ∷ "pauseDevice" ∷ "disconnectClient"
    ∷ "resumeDevice" ∷ "applyFirewallRule" ∷ "removeFirewallRule" ∷ "blockMAC" ∷ "unblockMAC" ∷ []

abbrev guide_only_result : String → PluginResult
guide_only_result action = record {
  success = false;
  message =
      "No official API for this router — " <> action
      <> " must be done manually in the router's admin panel.";
  detail = none;
  guide_only = true;
}

-- The plugins of the vendors.
pub record Vendors (H : Host) : Type 0 where
  pub fritzbox : Plugin H
  pub mikrotik : Plugin H
  pub openwrt : Plugin H
  pub unifi : Plugin H
  pub edgerouter : Plugin H
  pub glinet : Plugin H
  pub linksys : Plugin H
  pub draytek : Plugin H
  pub tplink_omada : Plugin H
  pub zyxel_nebula : Plugin H
  pub keenetic : Plugin H

abbrev with_latency : (ms : ℕ) → PluginResult → PluginResult
unfolding show
with_latency ms result = record result {
  detail = some (elim result.detail [
    | none ↦ show ms <> "ms"
    | some d ↦ if d == "" then show ms <> "ms" else d <> " (" <> show ms <> "ms)"
  ]);
}

module _ (H : Host) where
  abbrev guide : String → PluginMethod H
  guide action _ _ s = (ok (guide_only_result action), s)

  abbrev pub guide_only_plugin : Plugin H
  guide_only_plugin =
      (
        "detect",
        λ _ _ s. (
          ok (
              says false
                "Guide-only vendor — vendor identity comes from fingerprinting, not this plugin."),
          s,
        ),
      )
      ∷ ("login", guide "login")
      ∷ ("testConnection", guide "connection test")
      ∷ ("changeDNS", guide "changing the DNS server")
      ∷ ("pauseDevice", guide "pausing this device")
      ∷ ("disconnectClient", guide "disconnecting this client")
      ∷ ("resumeDevice", guide "resuming this device")
      ∷ ("applyFirewallRule", guide "applying a firewall rule")
      ∷ ("removeFirewallRule", guide "removing a firewall rule")
      ∷ ("blockMAC", guide "blocking this MAC address")
      ∷ ("unblockMAC", guide "unblocking this MAC address")
      ∷ []

  abbrev has : Plugin H → String → Bool
  has plugin name = contains (Dict.keys plugin) name

  unfoldable pub missing_methods : Plugin H → List String
  unfolding filter
  missing_methods plugin = filter (λ name. not (has plugin name)) required_methods

  -- `assertImplementsPluginInterface`: the message of the error, if it throws one.
  unfoldable pub assert_implements : Plugin H → (plugin_id : String) → Option String
  unfolding missing_methods join nat_eq
  assert_implements plugin plugin_id =
      let missing = missing_methods plugin in
      if length missing == 0
      then none
      else some (
          "router plugin \""
          <> plugin_id
          <> "\" is missing required method(s): "
          <> join ", " missing)

  abbrev default_logout : PluginMethod H
  default_logout _ _ s = (
    ok (
        says true
          "no persistent session is held by this plugin (it re-authenticates per call) — nothing to log out of"),
    s,
  )

  abbrev timed : (started_at : ℕ) → Result PluginResult × H.State → Result PluginResult × H.State
  unfolding show
  timed started_at (ok result, s) = (ok (with_latency (H.now s - started_at) result), s)
  timed started_at (err message, s) = (err message, s)

  -- `buildDefaultHealth`; a plugin without the method throws a TypeError.
  abbrev default_health : Plugin H → PluginMethod H
  unfolding show
  default_health plugin ctx target s = elim (Dict.lookup "testConnection" plugin) [
    | none ↦ (err "plugin.testConnection is not a function", s)
    | some test ↦ timed (H.now s) (test ctx target s)
  ]

  abbrev set_default : (name : String) → PluginMethod H → Plugin H → Plugin H
  set_default name method plugin =
      if has plugin name then plugin else Dict.insert name method plugin

  unfoldable pub with_plugin_defaults : Plugin H → Plugin H
  unfolding show
  with_plugin_defaults plugin =
      set_default "health" (default_health plugin) (set_default "logout" default_logout plugin)

  -- The cases of the loader's `switch`.
  abbrev pub by_id : Vendors H → Dict String (Plugin H)
  by_id V =
      ("fritzbox", V.fritzbox)
      ∷ ("mikrotik", V.mikrotik)
      ∷ ("openwrt", V.openwrt)
      ∷ ("unifi", V.unifi)
      ∷ ("edgerouter", V.edgerouter)
      ∷ ("glinet", V.glinet)
      ∷ ("linksys", V.linksys)
      ∷ ("draytek", V.draytek)
      ∷ ("tplink_omada", V.tplink_omada)
      ∷ ("zyxel_nebula", V.zyxel_nebula)
      ∷ ("keenetic", V.keenetic)
      ∷ []

  unfoldable pub load_plugin : Vendors H → (plugin_id : String) → Result (Plugin H)
  unfolding assert_implements with_plugin_defaults
  load_plugin V plugin_id = elim (Dict.lookup plugin_id (by_id V)) [
    | none ↦ ok (with_plugin_defaults guide_only_plugin)
    | some plugin ↦ elim (assert_implements plugin plugin_id) [
      | some message ↦ err message
      | none ↦ ok (with_plugin_defaults plugin)
    ]
  ]
