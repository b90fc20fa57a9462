-- ===== src/Agent/Plugins/Unifi/Methods.antt =====
-- The methods of the UniFi plugin.
use guardtime.Base.{
  ◌==◌, string_eq, option_eq, Bool, true, false, String, ◌<>◌, Option, none, some, [], ◌∷◌, show,
  or_null, json_text, json_object, json_list, if◌then◌else◌,
}
use guardtime.Agent.Host.{Host}
use guardtime.Agent.Plugins.{PluginResult, says, Context, Call, Plugin}
use guardtime.Agent.Plugins.Unifi.{
  ◌>>=◌, Item, Data, Reply, Web, Session, or_text, origin_url, with_token, give, recover, attempt,
  no_data, first_item, verdict, login, api_request, stamgr_command, find_client, find_firewall_rule,
}

module _ {S : Type 0} (W : Web S) (ctx : Context) where
  abbrev kind_of : Session → String
  kind_of session = if session.unifi_os then "UniFi OS" else "legacy controller"

  unfoldable pub detect : Call S PluginResult
  unfolding login
  detect = attempt "detect" (
      login W ctx >>= λ (session : Session).
      give (says true ("UniFi controller reachable (" <> kind_of session <> ")")))

  unfoldable pub log_in : Call S PluginResult
  unfolding login
  log_in = attempt "login" (
      login W ctx >>= λ (session : Session).
      give (says true ("logged in (" <> kind_of session <> " session)")))

  unfoldable pub test_connection : Call S PluginResult
  unfolding login api_request
  test_connection = attempt "UniFi API connection" (
      login W ctx >>= λ (session : Session). api_request W ctx session "GET" "/self" none >>= λ _.
      give (says true "UniFi API connection OK"))

  unfoldable pub logout : Call S PluginResult
  unfolding login show
  logout = attempt "logout" (
      login W ctx >>= λ (session : Session).
      W.fetch (record {
        method = "POST";
        url = origin_url ctx <> (if session.unifi_os then "/api/auth/logout" else "/api/logout");
        headers = ("Cookie", session.cookie) ∷ with_token session.csrf_token;
        body = none;
      })
      >>= λ (r : Reply). give (
          if r.ok
          then says true "UniFi session logged out"
          else says false ("logout failed (status " <> show r.status <> ")")))

  -- `dryRunResult`, and the check of the argument that a method needs.
  abbrev pub checked :
      (description missing : String)
      → (argument : Option String) → (String → Call S PluginResult)
      → Call S PluginResult
  checked description missing argument act =
      if ctx.dry_run
      then give (says true ("[dry-run] " <> description))
      else elim (or_null argument) [ none ↦ give (says false missing) | some value ↦ act value ]

  -- A text that is missing is written as `undefined`.
  abbrev pub spelled : Option String → String
  spelled none = "undefined"
  spelled (some s) = s

  abbrev name1_of : Option Item → Option String
  name1_of none = none
  name1_of (some item) = item.name1

  -- A server that is missing is not written into the body.
  abbrev dns_body : Option String → String
  unfolding json_text json_object
  dns_body none = json_object []
  dns_body (some dns_server) = json_object (("name1", json_text dns_server) ∷ [])

  abbrev set_dns : Session → (dns_server : Option String) → (id : String) → Call S PluginResult
  unfolding api_request json_text json_object
  set_dns session dns_server id =
      api_request W ctx session "PUT" ("/rest/setting/dns/" <> id) (some (dns_body dns_server))
      >>= λ _.
          recover no_data (api_request W ctx session "GET" ("/rest/setting/dns/" <> id) none)
          >>= λ (d : Data). give (
              if name1_of (first_item d) == dns_server
              then says true ("DNS server set to " <> spelled dns_server)
              else says false "DNS change did not verify")

  abbrev setting_id : Data → Option String
  setting_id d = elim (first_item d) [ none ↦ none | some item ↦ or_null item.id ]

  unfoldable pub change_dns : (dns_server : Option String) → Call S PluginResult
  unfolding login api_request json_text json_object
  change_dns dns_server =
      if ctx.dry_run
      then give (says true ("[dry-run] set network DNS server to " <> spelled dns_server))
      else attempt "changeDNS" (
          login W ctx >>= λ (session : Session).
          recover no_data (api_request W ctx session "GET" "/rest/setting/dns" none)
          >>= λ (d : Data). elim (setting_id d) [
            | none ↦ give (says false "could not locate DNS setting object on this controller")
            | some id ↦ set_dns session dns_server id
          ])

  abbrev pub read_back :
      Session → (wanted : Bool) → (mac done not_done : String) → Call S PluginResult
  unfolding find_client
  read_back session wanted mac done not_done =
      find_client W ctx session mac >>= λ (client : Option Item).
      give (if verdict wanted client then says true (mac <> done) else says false not_done)

  unfoldable pub block_mac : (mac_address : Option String) → Call S PluginResult
  unfolding login stamgr_command find_client
  block_mac mac_address =
      checked ("block-sta " <> spelled mac_address) "macAddress is required" mac_address λ mac.
        attempt "blockMAC" (
          login W ctx >>= λ (session : Session).
          stamgr_command W ctx session "block-sta" mac >>= λ _.
          read_back session true mac " blocked" "block-sta did not verify")

  unfoldable pub unblock_mac : (mac_address : Option String) → Call S PluginResult
  unfolding login stamgr_command find_client
  unblock_mac mac_address =
      checked ("unblock-sta " <> spelled mac_address) "macAddress is required" mac_address λ mac.
        attempt "unblockMAC" (
          login W ctx >>= λ (session : Session).
          stamgr_command W ctx session "unblock-sta" mac >>= λ _.
          read_back session false mac " unblocked" "unblock-sta did not verify")

  unfoldable pub disconnect_client : (mac_address : Option String) → Call S PluginResult
  unfolding login stamgr_command find_client
  disconnect_client mac_address =
      checked ("kick-sta " <> spelled mac_address) "macAddress is required" mac_address λ mac.
        attempt "disconnectClient" (
          login W ctx >>= λ (session : Session).
          find_client W ctx session mac >>= λ (client : Option Item). elim client [
            | none ↦
                give (says false (mac <> " is not currently associated (nothing to disconnect)"))
            | some _ ↦ stamgr_command W ctx session "kick-sta" mac >>= λ _.
                give (says true ("disconnected client " <> mac))
          ])

  abbrev rule_body : (name ip_address : String) → String
  unfolding json_text json_object json_list
  rule_body name ip_address = json_object (
      ("name", json_text ("guardtime:" <> name))
      ∷ ("ruleset", json_text "WAN_LOCAL")
      ∷ ("rule_index", "20000")
      ∷ ("action", json_text "drop")
      ∷ ("protocol_match_excepted", "false")
      ∷ ("logging", "false")
      ∷ ("state_new", "true")
      ∷ ("state_established", "true")
      ∷ ("state_invalid", "true")
      ∷ ("state_related", "true")
      ∷ ("ipsec", json_text "")
      ∷ ("src_firewallgroup_ids", json_list [])
      ∷ ("src_mac_address", json_text "")
      ∷ ("src_address", json_text ip_address)
      ∷ ("dst_firewallgroup_ids", json_list [])
      ∷ ("dst_address", json_text "")
      ∷ ("enabled", "true")
      ∷ [])

  unfoldable pub apply_firewall_rule : (ip_address device_id : Option String) → Call S PluginResult
  unfolding login api_request find_firewall_rule json_text json_object json_list
  apply_firewall_rule ip_address device_id =
      checked ("add firewall drop rule for " <> spelled ip_address)
        "ipAddress is required to add a UniFi firewall rule" ip_address
        λ ip. attempt "applyFirewallRule" (
          login W ctx >>= λ (session : Session).
          api_request W ctx session "POST" "/rest/firewallrule"
            (some (rule_body (or_text device_id ip) ip))
          >>= λ _. find_firewall_rule W ctx session ip >>= λ (rule : Option Item). give (elim rule [
            | none ↦ says false "firewall rule did not verify"
            | some _ ↦ says true ("firewall drop rule added for " <> ip)
          ]))

  abbrev pub remove_rule : Session → (ip_address : String) → Option Item → Call S PluginResult
  unfolding api_request
  remove_rule session ip none =
      give (says true ("no firewall drop rule found for " <> ip <> " (already clear)"))
  remove_rule session ip (some rule) =
      api_request W ctx session "DELETE" ("/rest/firewallrule/" <> spelled rule.id) none >>= λ _.
      give (says true ("firewall drop rule removed for " <> ip))

  unfoldable pub remove_firewall_rule : (ip_address : Option String) → Call S PluginResult
  unfolding login api_request find_firewall_rule
  remove_firewall_rule ip_address =
      checked ("remove firewall drop rule for " <> spelled ip_address)
        "ipAddress is required to remove a UniFi firewall rule" ip_address
        λ ip. attempt "removeFirewallRule" (
          login W ctx >>= λ (session : Session).
          find_firewall_rule W ctx session ip >>= λ (rule : Option Item).
          remove_rule session ip rule)

-- `UniFiPlugin`
unfoldable pub unifi_plugin : (H : Host) → Web H.State → Plugin H
unfolding detect log_in test_connection logout change_dns block_mac unblock_mac disconnect_client
    apply_firewall_rule remove_firewall_rule
unifi_plugin H W =
    ("detect", λ ctx _. detect W ctx)
    ∷ ("login", λ ctx _. log_in W ctx)
    ∷ ("testConnection", λ ctx _. test_connection W ctx)
    ∷ ("logout", λ ctx _. logout W ctx)
    ∷ ("changeDNS", λ ctx target. change_dns W ctx target.dns_server)
    ∷ ("pauseDevice", λ ctx target. block_mac W ctx target.mac_address)
    ∷ ("resumeDevice", λ ctx target. unblock_mac W ctx target.mac_address)
    ∷ ("blockMAC", λ ctx target. block_mac W ctx target.mac_address)
    ∷ ("unblockMAC", λ ctx target. unblock_mac W ctx target.mac_address)
    ∷ ("disconnectClient", λ ctx target. disconnect_client W ctx target.mac_address)
    ∷ (
      "applyFirewallRule",
      λ ctx target. apply_firewall_rule W ctx target.ip_address target.device_id,
    )
    ∷ ("removeFirewallRule", λ ctx target. remove_firewall_rule W ctx target.ip_address)
    ∷ []
