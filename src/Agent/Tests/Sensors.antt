-- ===== src/Agent/Tests/Sensors.antt =====
-- Runs of the connection table, of the detectors and of the connection killer with its controllers,
-- and their theorems at concrete data.
use guardtime.Base.{
  ℕ, pos, ◌≡◌, refl, String, ◌==◌, string_eq, int_eq, option_eq, nat_eq, true, none, some, List, [],
  ◌∷◌, All, distinct, if◌then◌else◌,
}
use guardtime.Base.Dict
use guardtime.Agent.Host.{Host, World, Outcome, exited, failed, err}
use guardtime.Agent.Metrics.{Metrics, count}
use guardtime.Agent.Conntrack.{parse_conntrack_line}
use guardtime.Agent.Sniffers.{Python}
use guardtime.Agent.Vpn.Detector.{Row}
use guardtime.Agent.Vpn.Detector
use guardtime.Agent.Vpn.Detector.Reports.{IsWeighed, sync-IsWeighed}
use guardtime.Agent.Doh.{
  DohState, Observations, observation_key, detect_behavioral_interval, record_observation,
}
use guardtime.Agent.Doh
use guardtime.Agent.Doh.Histories.{IsKnown, sync-IsKnown}
use guardtime.Agent.Killer.{kill_each, Run}
use guardtime.Agent.Killer.Controllers.{controllers, controllers-total}
use guardtime.Agent.Tests.Machines.{settings, phone, willing}

-- A line of the table, as `conntrack -L` prints it.
parsed_line :
    parse_conntrack_line
      "tcp 6 300 ESTABLISHED src=10.0.0.7 dst=1.1.1.1 sport=40000 dport=443 src=1.1.1.1 dst=10.0.0.7 sport=443 dport=40000"
      "tcp"
    ≡ some (record {
      src = "10.0.0.7";
      dst = "1.1.1.1";
      sport = some (pos 40000);
      dport = some (pos 443);
    })
unfolding parse_conntrack_line string_eq nat_eq Dict.lookup Dict.insert
parsed_line = refl

no_flow : parse_conntrack_line "conntrack v1.4.6" "tcp" ≡ none
unfolding parse_conntrack_line string_eq nat_eq
no_flow = refl

-- A machine whose table has one connection to a resolver of DoH.
abbrev table_exec : String → List String → (Unit {0}) → Outcome × Unit {0}
table_exec binary args s =
    if binary == "conntrack"
    then (exited "tcp 6 300 ESTABLISHED src=10.0.0.7 dst=1.1.1.1 sport=40000 dport=443" "", s)
    else (failed none none "no such tool", s)

abbrev table : Host
table = record willing { exec = table_exec }

abbrev table_world : World table
table_world = record { state = tt; applied = [] }

abbrev quiet : Python table
quiet = record {
  rst = λ _ _ s. (err "no python", s);
  dns = λ _ _ s. (err "no python", s);
  tls = λ _ _ s. (err "no python", s);
}

abbrev no_counts : Metrics
no_counts = record { counters = []; totals = [] }

sync-IsWeighed_example :
    All IsWeighed (Detector.sync settings quiet true (phone ∷ []) (no_counts, table_world)).0
sync-IsWeighed_example = sync-IsWeighed settings quiet true (phone ∷ []) no_counts table_world

abbrev fresh : DohState table
fresh = record {
  observations = ("laptop|9.9.9.9", 5 ∷ []) ∷ [];
  metrics = no_counts;
  world = table_world;
}

-- One time is remembered for a connection to port 443.
remembered :
    (Doh.sync settings quiet true (phone ∷ []) fresh).1.observations
    ≡ ("laptop|9.9.9.9", 5 ∷ []) ∷ ("phone|1.1.1.1", 0 ∷ []) ∷ []
unfolding Doh.sync Dict.lookup Dict.insert option_eq int_eq guardtime.Agent.Patterns.Doh.dot_ports
remembered = refl

sync-IsKnown_example :
    IsKnown "laptop|9.9.9.9" (Doh.sync settings quiet true (phone ∷ []) fresh).1.observations
unfolding Dict.lookup string_eq
sync-IsKnown_example =
    sync-IsKnown settings quiet true "laptop|9.9.9.9" (phone ∷ []) fresh (λ e. absurd (cc e))

abbrev pauses : ℕ → Unit {0} → Unit {0}
pauses ms s = s

abbrev failing_table : Host
failing_table = record willing { exec = λ _ _ s. (failed none none "no such tool", s) }

abbrev no_python : Python failing_table
no_python = record {
  rst = λ _ _ s. (err "no python", s);
  dns = λ _ _ s. (err "no python", s);
  tls = λ _ _ s. (err "no python", s);
}

abbrev first_run : Run (controllers settings no_python pauses)
unfolding controllers
first_run = record { metrics = no_counts; machine = record { state = tt; applied = [] } }

-- Where no command can be run, a kill counts as done.
counted_killed :
    count "connectionKiller.killed"
      (kill_each (controllers settings no_python pauses) (phone ∷ []) first_run).metrics.totals
    ≡ 1
unfolding count Dict.lookup Dict.insert kill_each string_eq controllers
counted_killed = refl

controllers-total_example :
    count "connectionKiller.failed"
      (kill_each (controllers settings no_python pauses) (phone ∷ []) first_run).metrics.totals
    ≡ count "connectionKiller.failed" first_run.metrics.totals
unfolding string_eq
controllers-total_example =
    controllers-total settings no_python pauses "connectionKiller.failed" (phone ∷ []) first_run
      (distinct "connectionKiller.failed" "connectionKiller.attempts" refl)
      (distinct "connectionKiller.failed" "connectionKiller.killed" refl)
