-- ===== src/Agent/Tests/Shaping.antt =====
-- Runs of the settings, of the address ranges and of the QoS controller, and their theorems at
-- concrete data.
use guardtime.Base.{
  ◌≡◌, ◌↔◌, ◌/◌, ◌-◌, ◌^◌, refl, String, string_eq, nat_eq, true, false, some, [], ◌∷◌, split_lines,
  arith,
}
use guardtime.Base.Dict
use guardtime.Agent.Host.{err}
use guardtime.Agent.Config.{Config}
use guardtime.Agent.Config.Load.{load_dot_env}
use guardtime.Agent.Config.Precedence.{first_value, lookup-load_dot_env}
use guardtime.Agent.Cidr.{ip_in_cidr, ip_to_int, in_range}
use guardtime.Agent.Cidr.Prefix.{in_range-prefix_iff}
use guardtime.Agent.Target.{Target, throttle}
use guardtime.Agent.Qos.Marks.{bandwidth_class_id}
use guardtime.Agent.Qos.Resolve.{Resolver}
use guardtime.Agent.Qos.{Shaping, all_interfaces, throttle_filter, sync}
use guardtime.Agent.Qos.Throttling.{held_filters}
use guardtime.Agent.Tests.Machines.{willing, fresh_world, settings, phone}

abbrev file : String
file = "# settings\n  GATEWAY_TOKEN = \"abc\"\nTC_BIN=tc2\n\nTC_BIN=tc3\nBACKEND_URL=http://b/"

lookup-load_dot_env_example :
    Dict.lookup "TC_BIN" (load_dot_env (some file) [])
    ≡ first_value "TC_BIN" (Dict.lookup {K = String} {V = String} "TC_BIN" []) (split_lines file)
lookup-load_dot_env_example = lookup-load_dot_env "TC_BIN" file []

-- The first line that sets a name counts.
first_line : Dict.lookup "TC_BIN" (load_dot_env (some file) []) ≡ some "tc2"
unfolding Dict.lookup load_dot_env Dict.insert
first_line = refl

in_net : ip_in_cidr "10.1.2.3" "10.1.0.0/16" ≡ true
unfolding ip_in_cidr nat_eq
in_net = refl

off_net : ip_in_cidr "10.2.2.3" "10.1.0.0/16" ≡ false
unfolding ip_in_cidr nat_eq
off_net = refl

in_range-prefix_iff_example :
    (in_range 16 (ip_to_int "10.1.2.3") (ip_to_int "10.1.0.0") ≡ true)
    ↔ (167838211 / 2 ^ (32 - 16) ≡ 167837696 / 2 ^ (32 - 16))
unfolding ip_to_int nat_eq
in_range-prefix_iff_example =
    in_range-prefix_iff 16 "10.1.2.3" "10.1.0.0" 167838211 167837696 (omega arith) refl refl

class_of_phone : bandwidth_class_id "phone" (some "GAMING") "dl" ≡ "1:2b64"
unfolding bandwidth_class_id string_eq
class_of_phone = refl

abbrev shaped : Config
shaped = record settings { enable_qos = true; qos_interfaces = "lan0" ∷ "wlan0" ∷ [] }

abbrev nowhere : Resolver willing
nowhere = record { resolve4 = λ _ s. (err "ENOTFOUND", s) }

abbrev slow_phone : Target
slow_phone = record phone { action = throttle }

abbrev idle : Shaping willing
idle = record { metrics = record { counters = []; totals = [] }; cache = []; world = fresh_world }

abbrev after_cycle : Shaping willing
after_cycle = (sync shaped nowhere 60000 (slow_phone ∷ []) idle).1

-- The interface holds the two filters of the phone.
holds :
    held_filters shaped.tc_bin "wlan0" "ip" after_cycle.world.applied
    ≡ throttle_filter "wlan0" "ip" "10" "ip" "src" "10.0.0.7"
      ∷ throttle_filter "wlan0" "ip" "11" "ip" "dst" "10.0.0.7"
      ∷ []
unfolding sync string_eq all_interfaces
holds = refl
