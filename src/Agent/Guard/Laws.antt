-- ===== src/Agent/Guard/Laws.antt =====
-- What `filterTargets` lets through.
use guardtime.Base.{
  String, ◌≡◌, ◌≢◌, refl, ap, ◌↔◌, ◌⊎◌, inl, inr, true, false, Option, none, some, List, [], ◌∷◌,
  ◌∈◌, arith, contains_iff, string_eq, option_eq, Bool-cases,
}
use guardtime.Agent.Target.{Target}
use guardtime.Agent.Guard.Defs.{Guard, is_protected_ip, filter_targets}

-- The gateway's own path: an operator's address, or the one that was detected.
abbrev pub IsManagement : Guard → String → Type 0
IsManagement g ip = (ip ∈ g.static_ips) ⊎ (g.detected_ip ≡ some ip)

is_protected_ip_iff :
    (g : Guard) (ip : String) → ip ≢ "" → (is_protected_ip g (some ip) ≡ true) ↔ IsManagement g ip
unfolding is_protected_ip
is_protected_ip_iff g ip h = ground (arith, contains_iff g.static_ips ip)

abbrev IsFree : Guard → Option String → Type 0
IsFree g address = (ip : String) → ip ≢ "" → address ≡ some ip → ¬ IsManagement g ip

IsFree-is_protected_ip :
    (g : Guard) (address : Option String) → is_protected_ip g address ≡ false → IsFree g address
IsFree-is_protected_ip g address free ip h e m =
    ground (arith, (is_protected_ip_iff g ip h).1 m, ap (is_protected_ip g) e)

is_protected_ip-IsFree :
    (g : Guard) (address : Option String) → IsFree g address → is_protected_ip g address ≡ false
unfolding is_protected_ip
is_protected_ip-IsFree g none f = refl
is_protected_ip-IsFree g (some ip) f = elim (Bool-cases (is_protected_ip g (some ip))) [
  | inl barred ↦ ground (arith, f ip, is_protected_ip_iff g ip)
  | inr free ↦ free
]

mem-filter_targets :
    (g : Guard) (t : Target) (ts : List Target)
    → (t ∈ filter_targets g ts) ↔ ((t ∈ ts) × (is_protected_ip g t.ip_address ≡ false))
unfolding filter_targets
mem-filter_targets g t [] = (λ h. elim h [ ], λ h. h.0)
mem-filter_targets g t (x ∷ xs) = ground (arith, mem-filter_targets g t xs)

-- The targets that come through are the given ones whose IPv4 address is missing, empty, or not
-- the gateway's own: no other target is dropped, and none is let through.
pub filter_targets_exact :
    (g : Guard) (t : Target) (ts : List Target)
    → (t ∈ filter_targets g ts)
      ↔ ((t ∈ ts) × ((ip : String) → ip ≢ "" → t.ip_address ≡ some ip → ¬ IsManagement g ip))
filter_targets_exact g t ts =
    let (to, from) = mem-filter_targets g t ts in
    (
      λ m. ((to m).0, IsFree-is_protected_ip g t.ip_address (to m).1),
      λ h. from (h.0, is_protected_ip-IsFree g t.ip_address h.1),
    )
