-- ===== src/Agent/Guard/Defs.antt =====
-- The state and the operations of `ManagementGuard`.
use guardtime.Base.{
  String, Bool, false, not, ◌&&◌, ◌||◌, Option, none, some, List, [], ◌∷◌, map, ◌==◌, contains,
  string_eq, option_eq, filter, trim, truthy, if◌then◌else◌, find_source,
}
use guardtime.Agent.Host.{Host, World, Outcome, exited, failed, exec_file}
use guardtime.Agent.Config.{Config}
use guardtime.Agent.Target.{Target}

pub record Guard : Type 0 where
  pub static_ips : List String
  pub detected_ip : Option String

-- The constructor: the operator's addresses, trimmed and without the empty ones.
unfoldable pub new_guard : Config → Guard
unfolding filter trim string_eq
new_guard config = record {
  static_ips = filter (λ ip. not (ip == "")) (map trim config.management_ips);
  detected_ip = none;
}

-- `const match = stdout.match(SELF_IP_RE); if (match) this.detectedIp = match[1]`
abbrev pub detected_in : Outcome → Guard → Guard
unfolding find_source
detected_in (exited stdout errors) g = elim (find_source stdout) [
  | some ip ↦ record g { detected_ip = some ip }
  | none ↦ g
]
detected_in (failed _ _ _) g = g

-- `refresh`, which leaves the address that is known where none is found.
unfoldable pub refresh : {H : Host} → Config → Guard → World H → Guard × World H
unfolding exec_file find_source
refresh c g w =
    let (outcome, w1) = exec_file c.ip_bin ("route" ∷ "get" ∷ "1.1.1.1" ∷ []) w in
    (detected_in outcome g, w1)

unfoldable pub is_protected_ip : Guard → Option String → Bool
is_protected_ip g none = false
is_protected_ip g (some ip) =
    not (ip == "") && (contains g.static_ips ip || truthy g.detected_ip && g.detected_ip == some ip)

-- The loop of `filterTargets`.
unfoldable pub filter_targets : Guard → List Target → List Target
unfolding is_protected_ip
filter_targets g [] = []
filter_targets g (t ∷ ts) =
    let rest = filter_targets g ts in if is_protected_ip g t.ip_address then rest else t ∷ rest
