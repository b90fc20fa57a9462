-- ===== src/Agent/Tests/Plugins.antt =====
-- Runs of the router plugins, and the theorem at a controller whose list of clients cannot be read.
use guardtime.Base.{
  ◌≡◌, refl, ℕ, ◌+◌, String, ◌<>◌, ◌==◌, string_eq, nat_eq, true, false, none, some, [],
  if◌then◌else◌,
}
use guardtime.Base.Result.{ok, err}
use guardtime.Agent.Plugins.{Context, says, missing_methods, guide_only_plugin}
use guardtime.Agent.Plugins.Unifi.{Web, Reply, Session}
use guardtime.Agent.Plugins.Unifi.Methods.{block_mac, unifi_plugin}
use guardtime.Agent.Plugins.Unifi.Verdicts.{Answers, client_list, block_mac-Answers}
use guardtime.Agent.Tests.Machines.{willing}

-- A controller that answers its first two requests and no more; the state counts the requests.
abbrev accepted : Reply
accepted = record {
  ok = true;
  status = 200;
  set_cookie = some "TOKEN=abc";
  csrf_token = none;
  updated_csrf_token = none;
  text = ok "{}";
}

abbrev tired : Web ℕ
tired = record {
  fetch = λ _ s.
      (if s == 0 then ok accepted else if s == 1 then ok accepted else err "socket hang up", s + 1);
  parse = λ _. record { msg = none; items = [] };
  first_part = λ t. t;
}

abbrev router : Context
router = record {
  ip_address = "192.168.1.1";
  port = none;
  site = none;
  unifi_os = none;
  username = some "admin";
  password = some "pw";
  dry_run = false;
}

abbrev session : Session
session = record { unifi_os = true; cookie = "TOKEN=abc"; csrf_token = none }

abbrev phone_mac : String
phone_mac = "AA:BB:CC:DD:EE:FF"

block_mac-Answers_example :
    Answers tired router (some phone_mac) 0 (block_mac tired router (some phone_mac) 0)
block_mac-Answers_example = block_mac-Answers tired router (some phone_mac) 0

-- The list could not be read, and yet the client counts as blocked.
unread : (client_list tired router session 2).0 ≡ err "socket hang up"
unfolding client_list string_eq nat_eq
unread = refl

counted_blocked :
    (block_mac tired router (some phone_mac) 0).0 ≡ ok (says true (phone_mac <> " blocked"))
unfolding block_mac string_eq nat_eq
counted_blocked = refl

abbrev web : Web (Unit {0})
web = record {
  fetch = λ _ s. (err "offline", s);
  parse = λ _. record { msg = none; items = [] };
  first_part = λ t. t;
}

complete_plugin : missing_methods willing (unifi_plugin willing web) ≡ []
unfolding missing_methods unifi_plugin string_eq nat_eq
complete_plugin = refl

complete_guide : missing_methods willing (guide_only_plugin willing) ≡ []
unfolding missing_methods string_eq nat_eq
complete_guide = refl
