-- ===== src/Agent/Tests/Control.antt =====
-- The theorems on counters, retries, the connection killer and the router commands at concrete data.
use guardtime.Base.{
  ℕ, zero, suc, ◌+◌, ◌≤◌, String, ◌≡◌, ◌≢◌, refl, ap, sym, not, if◌then◌else◌, Bool, true, false,
  Option, none, some, List, [], ◌∷◌, ◌++◌, ◌==◌, string_eq, inl, inr, arith, ◌∈◌,
}
use guardtime.Base.Dict
use guardtime.Base.Dict.{Dict}
use guardtime.Base.Result.{Result, ok, err}
use guardtime.Agent.Target.{Target}
use guardtime.Agent.Metrics.{new_metrics, count, flush}
use guardtime.Agent.Metrics.Laws.{Event, counted, flushed, replay, total_reported}
use guardtime.Agent.Retry.{retry, Attempts, retry-Attempts}
use guardtime.Agent.Killer.{Tools, Run, Previous, previous_of, sync}
use guardtime.Agent.Killer.Spares.{sync_spares}
use guardtime.Agent.Router.{
  Services, World, Command, Answer, RouterTarget, run_one, run_end_gaming_session, execute_command,
}
use guardtime.Agent.Router.Acks.{reports, run_one-reports}
use guardtime.Agent.Router.Sessions.{Session, run_end_gaming_session-Session}
use guardtime.Agent.Tests.Machines.{phone, gateway, guard}

abbrev events : List Event
events = counted "killed" 2 ∷ flushed ∷ counted "killed" 1 ∷ counted "failed" 1 ∷ []

total_reported_example :
    (let (m, reported) = replay "killed" events (new_metrics, 0) in
      count "killed" m.totals ≡ reported + count "killed" (flush m).0)
total_reported_example = total_reported "killed" events

-- An operation that fails twice and then succeeds; the state counts the calls and the waiting time.
abbrev flaky : ℕ × ℕ → Result ℕ × (ℕ × ℕ)
flaky (zero, waited) = (err "busy", (1, waited))
flaky (suc zero, waited) = (err "busy", (2, waited))
flaky (suc (suc n), waited) = (ok 7, (3, waited))

abbrev ignore : String → ℕ → ℕ × ℕ → ℕ × ℕ
ignore _ _ s = s

abbrev wait : ℕ → ℕ × ℕ → ℕ × ℕ
wait ms (calls, waited) = (calls, waited + ms)

third_time : retry flaky ignore wait 3 150 (0, 0) ≡ (ok 7, (3, 450))
unfolding retry
third_time = refl

one_at_least : 1 ≤ 3
one_at_least = omega arith

retry-Attempts_example :
    Attempts flaky ignore wait 3 150 (retry flaky ignore wait 3 150 (0, 0)) 1 (0, 0)
retry-Attempts_example = retry-Attempts flaky ignore wait 3 150 one_at_least (0, 0)

-- Tools that write down the addresses whose connections they kill.
abbrev recorder : Tools
recorder = record {
  State = List String;
  Flow = String;
  list_tcp_connections = λ _ s. (err "no conntrack", s);
  kill_connections = λ ip s. (ok tt, ip ∷ s);
  reset_connections = λ _ _ s. (ok tt, s);
  sleep = λ _ s. s;
}

abbrev two_targets : List Target
two_targets = phone ∷ record gateway { ip_address = some "10.0.0.2"; ipv6_address = none } ∷ []

abbrev first_run : Run recorder
first_run = record { metrics = new_metrics; machine = [] }

-- The phone's connections are killed, those of the gateway are not.
only_the_phone : (sync recorder guard two_targets ([], first_run)).1.machine ≡ "10.0.0.7" ∷ []
unfolding sync string_eq Dict.lookup Dict.insert
only_the_phone = refl

abbrev gone : Dict String Previous
gone = ("d9", previous_of phone) ∷ []

Untouched : List String → Type 0
Untouched s = ¬ ("10.0.0.2" ∈ s)

lists_nothing : (a : String) (s : List String) → a ≢ "10.0.0.2" → Untouched s → Untouched s
lists_nothing a s h u = u

kills_others : (a : String) (s : List String) → a ≢ "10.0.0.2" → Untouched s → Untouched (a ∷ s)
unfolding Untouched
kills_others a s h u m = elim m [ inl e ↦ h (sym e) | inr k ↦ u k ]

resets_nothing : (a : String) (flows s : List String) → a ≢ "10.0.0.2" → Untouched s → Untouched s
resets_nothing a flows s h u = u

sleeps_quietly : (ms : ℕ) (s : List String) → Untouched s → Untouched s
sleeps_quietly ms s u = u

lan_ne : ◌≢◌ {A = String} "10.0.0.2" ""
lan_ne h = cc h

no_v6 : (t : Target) → t ∈ two_targets → t.ipv6_address ≢ some "10.0.0.2"
no_v6 t (inl e) h = cc (ap (λ (t : Target). t.ipv6_address) e, h)
no_v6 t (inr (inl e)) h = cc (ap (λ (t : Target). t.ipv6_address) e, h)
no_v6 t (inr (inr n)) h = elim n [ ]

nothing_killed : Untouched []
unfolding Untouched
nothing_killed n = elim n [ ]

sync_spares_example : Untouched (sync recorder guard two_targets ([], first_run)).1.machine
sync_spares_example =
    sync_spares recorder "10.0.0.2" Untouched lists_nothing kills_others resets_nothing
      sleeps_quietly guard two_targets [] first_run lan_ne (inl (inl refl)) no_v6 nothing_killed

-- A plugin whose pause cuts the gateway off and whose block by address works; the backend does not
-- take reports of success. The state is the list of the methods that were called.
abbrev scripted : String → Bool → RouterTarget → List String → Result Answer × List String
scripted name b _ s = (ok (record { success = b; message = none }), name ∷ s)

abbrev methods : String → Option (RouterTarget → List String → Result Answer × List String)
methods name =
    if name == "pauseDevice"
    then some (scripted "pauseDevice" true)
    else if name == "resumeDevice"
    then some (scripted "resumeDevice" true)
    else if name == "blockMAC"
    then some (scripted "blockMAC" true)
    else none

abbrev online : List String → Bool
online [] = true
online (name ∷ _) = not (name == "pauseDevice")

abbrev refuse_success : Bool → List String → Result (Unit {0}) × List String
refuse_success true s = (err "backend unreachable", s)
refuse_success false s = (ok tt, s)

abbrev home : Services
home = record {
  State = List String;
  Plugin = Unit {0};
  load_plugin = λ _ s. (ok tt, s);
  method = λ _ name. methods name;
  check_connectivity = λ s. (online s, s);
  detect_and_report = λ s. (ok tt, s);
  ack_router_command = λ _ success _ s. refuse_success success s;
  get_router_commands = λ s. (ok ([], none), s);
  now = λ _. 0;
}

abbrev nobody : RouterTarget
nobody = record { device_id = none; mac_address = none; ip_address = none; dns_server = none }

abbrev wishes : List String
wishes = "JUMP" ∷ "CHANGE_DNS" ∷ "PAUSE_DEVICE" ∷ "BLOCK_MAC" ∷ []

-- The pause is taken back before the block by address.
taken_back :
    (run_end_gaming_session home tt nobody wishes []).1
    ≡ "blockMAC" ∷ "resumeDevice" ∷ "pauseDevice" ∷ []
unfolding run_end_gaming_session string_eq
taken_back = refl

run_end_gaming_session-Session_example :
    Session home tt nobody wishes []
      (run_end_gaming_session home tt nobody wishes []).0
      (run_end_gaming_session home tt nobody wishes []).1
run_end_gaming_session-Session_example = run_end_gaming_session-Session home tt nobody wishes []

abbrev block_command : Command
block_command = record { id = "c1"; type = "BLOCK_MAC"; device_id = some "phone"; payload = none }

abbrev before : World home
before = record { state = []; acks = [] }

-- The address is blocked, and the backend is told last that it is not.
told_twice :
    (run_one home (some "openwrt") block_command before).acks ≡ ("c1", true) ∷ ("c1", false) ∷ []
unfolding run_one string_eq
told_twice = refl

run_one-reports_example :
    (run_one home (some "openwrt") block_command before).acks
    ≡ before.acks
      ++ reports home block_command
          (execute_command home block_command (some "openwrt") before.state)
run_one-reports_example = run_one-reports home (some "openwrt") block_command before
