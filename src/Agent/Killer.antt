-- ===== src/Agent/Killer.antt =====
-- gateway-agent/src/connection-killer.js: `ConnectionKiller`. The controllers that it is given
-- (conntrack and TCP reset) are the interface `Tools`. `Promise.allSettled` lets the kills run side by side; here they run
-- one after another, in the order in which they are started.
pub mod States
pub mod Spares
pub mod Controllers
use guardtime.Base.{
  ℕ, ◌-◌, String, ◌==◌, string_eq, option_eq, Bool, true, false, not, ◌&&◌, ◌||◌, Option, none,
  some, List, [], ◌∷◌, ◌++◌, filter, length, contains, truthy, map, ltb, any, if◌then◌else◌,
}
use guardtime.Base.Dict
use guardtime.Base.Dict.{Dict}
use guardtime.Base.Result.{Result, ok, err}
use guardtime.Agent.Target.{Target, PolicyAction, block}
use guardtime.Agent.Guard.Defs.{Guard, filter_targets}
use guardtime.Agent.Metrics.{Metrics, inc}
use guardtime.Agent.Retry.{retry}
use guardtime.Agent.Firewall.Iptables.{is_block}

-- `conntrack`, `tcpReset` and the pause of `retry`, on the state of the machine. A failed listing
-- is the empty list of flows, as both callers make it.
pub record Tools : Type 1 where
  pub State : Type 0
  pub Flow : Type 0
  pub list_tcp_connections : (ip : String) → State → Result (List Flow) × State
  pub kill_connections : (ip : String) → State → Result (Unit {0}) × State
  pub reset_connections : (ip : String) → List Flow → State → Result (Unit {0}) × State
  pub sleep : (ms : ℕ) → State → State

-- What `previousStates` holds for a device.
pub record Previous : Type 0 where
  pub action : PolicyAction
  pub ip_address : Option String
  pub ipv6_address : Option String
  pub mac_address : Option String

abbrev pub previous_of : Target → Previous
previous_of t = record {
  action = t.action;
  ip_address = t.ip_address;
  ipv6_address = t.ipv6_address;
  mac_address = t.mac_address;
}

abbrev pub changed : Previous → Target → Bool
changed p t =
    not (is_block p.action)
    || (not (p.ip_address == t.ip_address)
        || (not (p.ipv6_address == t.ipv6_address) || not (p.mac_address == t.mac_address)))

-- `_shouldRun`
unfoldable pub should_run : Dict String Previous → Target → Bool
should_run states t =
    is_block t.action
    && ((truthy t.ip_address || truthy t.ipv6_address)
        && elim (Dict.lookup t.device_id states) [ none ↦ true | some p ↦ changed p t ])

-- The first loop of `_rememberStates`.
unfoldable pub store_states : List Target → Dict String Previous → Dict String Previous
store_states [] d = d
store_states (t ∷ ts) d = store_states ts (Dict.insert t.device_id (previous_of t) d)

-- The second one, over the keys that there are.
unfoldable pub drop_unseen : (seen keys : List String) → Dict String Previous → Dict String Previous
drop_unseen seen [] d = d
drop_unseen seen (k ∷ ks) d = drop_unseen seen ks (if contains seen k then d else Dict.erase k d)

abbrev pub ids : List Target → List String
ids ts = map (λ (t : Target). t.device_id) ts

unfoldable pub remember_states : List Target → Dict String Previous → Dict String Previous
unfolding store_states drop_unseen
remember_states ts d =
    let stored = store_states ts d in drop_unseen (ids ts) (Dict.keys stored) stored

abbrev pub present : Option String → List String
present none = []
present (some a) = if a == "" then [] else a ∷ []

-- `[target.ipAddress, target.ipv6Address].filter(Boolean)`
abbrev pub addresses : Target → List String
addresses t = present t.ip_address ++ present t.ipv6_address

module _ (T : Tools) where
  pub record Run : Type 0 where
    pub metrics : Metrics
    pub machine : T.State

  abbrev pub lift : {A : Type 0} → (T.State → Result A × T.State) → Run → Result A × Run
  lift f r = let (x, s) = f r.machine in (x, record r { machine = s })

  abbrev pub flows_of : Result (List T.Flow) → List T.Flow
  flows_of (ok flows) = flows
  flows_of (err _) = []

  abbrev pub try_kill : (ip : String) → Run → Result (Unit {0}) × Run
  try_kill ip = lift (T.kill_connections ip)

  abbrev pub count_retry : (message : String) (attempt : ℕ) → Run → Run
  count_retry _ _ r = record r { metrics = inc "connectionKiller.retries" 1 r.metrics }

  abbrev pub pause : (ms : ℕ) → Run → Run
  pause ms r = record r { machine = T.sleep ms r.machine }

  -- The call of `retry` in `_killAddress`.
  unfoldable pub kill_with_retries : (ip : String) → Run → Result (Unit {0}) × Run
  unfolding retry
  kill_with_retries ip = retry (try_kill ip) count_retry pause 3 150

  -- `_killAddress`
  unfoldable pub kill_address : (ip : String) → Run → Result (Unit {0}) × Run
  unfolding kill_with_retries
  kill_address ip r =
      let (listed, r1) = lift (T.list_tcp_connections ip) r in
      let (killed, r2) = kill_with_retries ip r1 in
      elim killed [
        | err e ↦ (err e, r2)
        | ok _ ↦ lift (T.reset_connections ip (flows_of listed)) r2
      ]

  -- The results of the kills, whether each was fulfilled.
  unfoldable pub kill_all : List String → Run → List Bool × Run
  unfolding kill_address
  kill_all [] r = ([], r)
  kill_all (a ∷ rest) r =
      let (x, r1) = kill_address a r in
      let (xs, r2) = kill_all rest r1 in (elim x [ ok _ ↦ true | err _ ↦ false ] ∷ xs, r2)

  abbrev pub inc_if : Bool → String → Run → Run
  inc_if b name r = if b then record r { metrics = inc name 1 r.metrics } else r

  -- `_killOne`
  unfoldable pub kill_one : Target → Run → Run
  unfolding kill_all inc
  kill_one t r =
      let (results, r1) = kill_all (addresses t) (inc_if true "connectionKiller.attempts" r) in
      inc_if (any not results) "connectionKiller.failed"
        (inc_if (any (λ x. x) results) "connectionKiller.killed" r1)

  unfoldable pub kill_each : List Target → Run → Run
  unfolding kill_one
  kill_each [] r = r
  kill_each (t ∷ ts) r = kill_each ts (kill_one t r)

  unfoldable pub sync :
      Guard → List Target → Dict String Previous × Run → Dict String Previous × Run
  unfolding filter should_run filter_targets kill_each remember_states inc
  sync guard targets (states, r) =
      let candidates = filter (should_run states) targets in
      let safe = filter_targets guard candidates in
      let skipped = length candidates - length safe in
      let r1 : Run =
        if ltb (length safe) (length candidates)
        then record r { metrics = inc "connectionKiller.protectedSkipped" skipped r.metrics }
        else r in
      (remember_states targets states, kill_each safe r1)
