-- ===== src/Agent/Firewall/Iptables/Enforcement.antt =====
-- The rules of the targets in the filter chain, and what the management guard keeps out of it.
use mathlib.Core.List.{flat_map}
use text.Mathlib.TextEquality.{eq_iff}
use guardtime.Base.{
  String, ◌≡◌, ◌≢◌, refl, sym, ap, ◌∙◌, ◌∈◌, mem-append, ◌↔◌, Bool, true, false, not, Option, none,
  some, List, [], ◌∷◌, ◌++◌, arith, ◌||◌, string_eq, inl, inr, subst, if◌then◌else◌,
}
use guardtime.Agent.Target.{Target, block}
use guardtime.Agent.Guard.Defs.{Guard, filter_targets}
use guardtime.Agent.Guard.Laws.{IsManagement, filter_targets_exact}
use guardtime.Agent.Patterns.Vpn.{vpn_port_signatures, vpn_ip_ranges}
use guardtime.Agent.Firewall.Signature.{Policy}
use guardtime.Agent.Firewall.Iptables.{
  append, is_block, address_of, with_address, ip_rule, mac_rule, vpn_port_rule, vpn_range_rule,
  quic_rule,
}
use guardtime.Agent.Firewall.Iptables.Rules.{
  chain_spec, target_rules, block_rules, vpn_rules, quic_rules,
}

module _ {A B : Type 0} (f : A → List B) where
  pub mem-flat_map : (b : B) (xs : List A) → (b ∈ flat_map f xs) ↔ ((x : A) × (x ∈ xs) × (b ∈ f x))
  unfolding flat_map
  mem-flat_map b [] = (λ h. elim h [ ], λ h. elim h.1 [ ])
  mem-flat_map b (x ∷ xs) = (
    λ h. elim ((mem-append b (f x) (flat_map f xs)).0 h) [
      | inl here ↦ (x, inl refl, here)
      | inr later ↦ let (y, m, k) = (mem-flat_map b xs).0 later in (y, inr m, k)
    ],
    λ (y, m, k). (mem-append b (f x) (flat_map f xs)).1 (elim m [
      | inl e ↦ inl (subst (λ z. b ∈ f z) e k)
      | inr later ↦ inr ((mem-flat_map b xs).1 (y, later, k))
    ]),
  )

mem-with_address :
    (o : Option String) (f : String → List (List String)) (rule : List String)
    → rule ∈ with_address o [] f
    → (a : String) × (o ≡ some a) × (a ≢ "") × (rule ∈ f a)
mem-with_address none f rule m = elim m [ ]
mem-with_address (some s) f rule m = (s, refl, ground arith, ground arith)

mem-with_address_some :
    (o : Option String) (f : String → List (List String)) (a : String) (rule : List String)
    → o ≡ some a
    → a ≢ ""
    → rule ∈ f a
    → rule ∈ with_address o [] f
mem-with_address_some none f a rule e h m = absurd (cc e)
mem-with_address_some (some s) f a rule e h m =
    let same : s ≡ a = ground arith in rw same (ground arith)

mem-if :
    (b : Bool) (rs : List (List String)) (rule : List String)
    → rule ∈ (if b then rs else [])
    → rule ∈ rs
mem-if true rs rule m = m
mem-if false rs rule m = elim m [ ]

-- A rule that is the only one of a list and begins `-s a`.
source_eq :
    (a ip : String) (r rest : List String)
    → append ("-s" ∷ ip ∷ rest) ∈ (append ("-s" ∷ a ∷ r) ∷ [])
    → a ≡ ip
source_eq a ip r rest (inl e) = cc
source_eq a ip r rest (inr n) = elim n [ ]

differ : ◌≢◌ {A = String} "-s" "-m"
differ = ground (arith, eq_iff "-s" "-m")

-- A rule by MAC address begins otherwise.
source_ne :
    (ip : String) (r rest : List String) → ¬ (append ("-s" ∷ ip ∷ rest) ∈ (append ("-m" ∷ r) ∷ []))
source_ne ip r rest (inl e) = differ (cc e)
source_ne ip r rest (inr n) = elim n [ ]

module _ (ipv6 : Bool) (p : Policy) (t : Target) (listed : t ∈ p.targets) where
  mem-chain_spec :
      (rule : List String)
      → rule ∈ target_rules ipv6 p.enable_quic_block_global t
      → rule ∈ chain_spec ipv6 p
  mem-chain_spec rule m =
      (mem-flat_map (target_rules ipv6 p.enable_quic_block_global) rule p.targets).1 (t, listed, m)

  mem-block_rules :
      (rule : List String) → t.action ≡ block → rule ∈ block_rules ipv6 t → rule ∈ chain_spec ipv6 p
  mem-block_rules rule b m = mem-chain_spec rule (
      (mem-append rule (if is_block t.action then block_rules ipv6 t else []) (
          (if t.vpn_block then vpn_rules ipv6 t else [])
          ++ (if p.enable_quic_block_global || t.quic_block then quic_rules ipv6 t else []))).1
        (inl (rw b m)))

  -- A blocked target that has an address of the pass's family is dropped by it.
  pub blocked_by_address :
      (a : String)
      → t.action ≡ block
      → address_of ipv6 t ≡ some a
      → a ≢ ""
      → ip_rule t.device_id a ∈ chain_spec ipv6 p
  blocked_by_address a b e h = mem-block_rules _ b (
      (mem-append _ _ _).1
        (inl (mem-with_address_some _ (λ x. ip_rule t.device_id x ∷ []) a _ e h (inl refl))))

  -- A blocked target that has a MAC address is dropped by it, in the passes of both families.
  pub blocked_by_mac :
      (mac : String)
      → t.action ≡ block
      → t.mac_address ≡ some mac
      → mac ≢ ""
      → mac_rule t.device_id mac ∈ chain_spec ipv6 p
  blocked_by_mac mac b e h = mem-block_rules _ b (
      (mem-append _ (with_address (address_of ipv6 t) [] (λ x. ip_rule t.device_id x ∷ [])) _).1
        (inr (mem-with_address_some _ (λ x. mac_rule t.device_id x ∷ []) mac _ e h (inl refl))))

-- A rule of a target that names a source address names the target's own.
module _ (ipv6 : Bool) (t : Target) (ip : String) (rest : List String) where
  abbrev rule : List String
  rule = append ("-s" ∷ ip ∷ rest)

  source-block_rules : rule ∈ block_rules ipv6 t → address_of ipv6 t ≡ some ip
  unfolding string_eq
  source-block_rules m =
      elim ((mem-append rule (with_address (address_of ipv6 t) [] (λ x. ip_rule t.device_id x ∷ []))
          (with_address t.mac_address [] (λ x. mac_rule t.device_id x ∷ []))).0
        m) [
          | inl by_ip ↦
              let (a, e, _, k) =
                mem-with_address (address_of ipv6 t) (λ x. ip_rule t.device_id x ∷ []) rule by_ip in
              e ∙ ap some (source_eq a ip _ _ k)
          | inr by_mac ↦
              let (a, e, _, k) =
                mem-with_address t.mac_address (λ x. mac_rule t.device_id x ∷ []) rule by_mac in
              absurd (source_ne ip _ rest k)
        ]

  source-vpn_rules : rule ∈ vpn_rules ipv6 t → address_of ipv6 t ≡ some ip
  source-vpn_rules m =
      let by_port =
        λ (a : String). flat_map (λ s. vpn_port_rule t.device_id a s ∷ []) vpn_port_signatures in
      let by_range =
        λ (a : String). flat_map (λ r. vpn_range_rule t.device_id a r ∷ []) vpn_ip_ranges in
      let (a, e, _, k) =
        mem-with_address (address_of ipv6 t)
          (λ a. by_port a ++ (if not ipv6 then by_range a else [])) rule m in
      e
      ∙ ap some (elim ((mem-append rule (by_port a) (if not ipv6 then by_range a else [])).0 k) [
        | inl port ↦
            let (s, _, j) =
              (mem-flat_map (λ s. vpn_port_rule t.device_id a s ∷ []) rule vpn_port_signatures).0
                port in
            source_eq a ip _ rest j
        | inr range ↦
            let (s, _, j) =
              (mem-flat_map (λ r. vpn_range_rule t.device_id a r ∷ []) rule vpn_ip_ranges).0
                (mem-if (not ipv6) (by_range a) rule range) in
            source_eq a ip _ rest j
      ])

  source-quic_rules : rule ∈ quic_rules ipv6 t → address_of ipv6 t ≡ some ip
  source-quic_rules m =
      let (a, e, _, k) =
        mem-with_address (address_of ipv6 t) (λ x. quic_rule t.device_id x ∷ []) rule m in
      e ∙ ap some (source_eq a ip _ rest k)

  source-target_rules :
      (quic : Bool) → rule ∈ target_rules ipv6 quic t → address_of ipv6 t ≡ some ip
  source-target_rules quic m =
      let blocks = if is_block t.action then block_rules ipv6 t else [] in
      let vpns = if t.vpn_block then vpn_rules ipv6 t else [] in
      let quics = if quic || t.quic_block then quic_rules ipv6 t else [] in
      elim ((mem-append rule blocks (vpns ++ quics)).0 m) [
        | inl k ↦ source-block_rules (mem-if (is_block t.action) _ rule k)
        | inr k ↦ elim ((mem-append rule vpns quics).0 k) [
          | inl j ↦ source-vpn_rules (mem-if t.vpn_block _ rule j)
          | inr j ↦ source-quic_rules (mem-if (quic || t.quic_block) _ rule j)
        ]
      ]

-- Whatever the targets, the IPv4 chain holds no rule whose source is the gateway's own address, if
-- the targets went through the management guard. (An empty address is no address.)
pub management_never_dropped :
    (g : Guard) (p : Policy) (given : List Target) (ip : String) (rest : List String)
    → p.targets ≡ filter_targets g given
    → ip ≢ ""
    → IsManagement g ip
    → ¬ (append ("-s" ∷ ip ∷ rest) ∈ chain_spec false p)
management_never_dropped g p given ip rest guarded h own m =
    let (t, listed, k) =
      (mem-flat_map (target_rules false p.enable_quic_block_global) (append ("-s" ∷ ip ∷ rest))
          p.targets).0
        m in
    ((filter_targets_exact g t given).0 (subst (λ ts. t ∈ ts) guarded listed)).1 ip h
      (source-target_rules false t ip rest p.enable_quic_block_global k) own

-- The guard does not look at IPv6 addresses: a target without an IPv4 address is blocked in the
-- IPv6 pass even where its IPv6 address is the gateway's own.
pub management_ipv6_dropped :
    (g : Guard) (p : Policy) (given : List Target) (t : Target) (ip : String)
    → p.targets ≡ filter_targets g given
    → t ∈ given
    → t.action ≡ block
    → t.ip_address ≡ none
    → t.ipv6_address ≡ some ip
    → ip ≢ ""
    → IsManagement g ip
    → ip_rule t.device_id ip ∈ chain_spec true p
management_ipv6_dropped g p given t ip guarded listed b no_v4 v6 h own =
    let through = (filter_targets_exact g t given).1 (listed, λ a _ e. absurd (cc (e, no_v4))) in
    blocked_by_address true p t (subst (λ ts. t ∈ ts) (sym guarded) through) ip b v6 h
