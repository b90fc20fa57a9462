-- ===== src/Agent/Firewall/Iptables/Skips.antt =====
-- The rules of a policy, and its signature, by which a pass is skipped.
use mathlib.Core.List.{Perm, flat_map}
use mathlib.Core.Option.{some-injective}
use guardtime.Base.{
  String, ◌≡◌, ◌≢◌, refl, sym, ap, ◌∙◌, Bool, true, false, Option, none, some, List, [], ◌∷◌, ◌++◌,
  map, arith, string_eq, or_null, fun_ext, subst,
}
use guardtime.Agent.Host.{Host, World, ok}
use guardtime.Agent.Config.{Config}
use guardtime.Agent.Target.{Target}
use guardtime.Agent.Firewall.Signature.{
  Policy, SignedTarget, Signature, sign_target, build_signature,
}
use guardtime.Agent.Firewall.Signature.Laws.{build_signature-perm, flat_map-perm}
use guardtime.Agent.Firewall.Iptables.{
  address_of, with_address, binary_of, Iptables, remembered, pass_signature, sync_family,
}
use guardtime.Agent.Firewall.Iptables.Rules.{chain_of, chain_spec, target_rules}
use guardtime.Agent.Firewall.Iptables.Chain.{sync_family-chain}

abbrev unsign : SignedTarget → Target
unsign t = record {
  device_id = t.device_id;
  action = t.action;
  ip_address = t.ip_address;
  ipv6_address = t.ipv6_address;
  mac_address = t.mac_address;
  vpn_block = t.vpn_block;
  quic_block = t.quic_block;
  bandwidth_limits = [];
}

with_address-or_null :
    {A : Type 0} (o : Option String) (z : A) (f : String → A)
    → with_address (or_null o) z f ≡ with_address o z f
with_address-or_null none z f = refl
with_address-or_null (some s) z f = ground arith

address_of-sign_target :
    (ipv6 : Bool) (t : Target)
    → address_of ipv6 (unsign (sign_target t)) ≡ or_null (address_of ipv6 t)
unfolding sign_target
address_of-sign_target true t = refl
address_of-sign_target false t = refl

target_rules-sign_target :
    (ipv6 quic : Bool) (t : Target)
    → target_rules ipv6 quic (unsign (sign_target t)) ≡ target_rules ipv6 quic t
unfolding sign_target
target_rules-sign_target true quic t = simp with_address-or_null
target_rules-sign_target false quic t = simp with_address-or_null

flat_map-map :
    {A B : Type 0} {C : Type 0} (f : B → List C) (g : A → B) (xs : List A)
    → flat_map f (map g xs) ≡ flat_map (λ x. f (g x)) xs
unfolding flat_map
flat_map-map f g [] = refl
flat_map-map f g (x ∷ xs) = ap (λ r. f (g x) ++ r) (flat_map-map f g xs)

-- The rules of a policy, read off its signed targets.
chain_spec_lem :
    (ipv6 : Bool) (p : Policy)
    → flat_map
        (λ t. target_rules ipv6 p.enable_quic_block_global (unsign t))
        (map sign_target p.targets)
      ≡ chain_spec ipv6 p
chain_spec_lem ipv6 p =
    flat_map-map _ sign_target p.targets
    ∙ ap (λ f. flat_map f p.targets)
        (fun_ext (λ t. target_rules-sign_target ipv6 p.enable_quic_block_global t))

chain_spec-perm :
    (ipv6 : Bool) (p q : Policy)
    → pass_signature ipv6 p ≡ pass_signature ipv6 q
    → Perm (chain_spec ipv6 p) (chain_spec ipv6 q)
unfolding build_signature
chain_spec-perm ipv6 p q h =
    let quic : p.enable_quic_block_global ≡ q.enable_quic_block_global =
      ap (λ (s : Signature). s.enable_quic_block_global) h in
    let rules = λ (t : SignedTarget). target_rules ipv6 q.enable_quic_block_global (unsign t) in
    let targets = flat_map-perm rules (
      build_signature-perm (record p { dns_redirect_ipv6 = "" })
        (record q { dns_redirect_ipv6 = "" }) ipv6 h) in
    subst (λ l. Perm l (chain_spec ipv6 q))
      (ap (λ b. flat_map (λ t. target_rules ipv6 b (unsign t)) (map sign_target p.targets))
          (sym quic)
        ∙ chain_spec_lem ipv6 p)
      (subst (λ l. Perm (flat_map rules (map sign_target p.targets)) l) (chain_spec_lem ipv6 q)
        targets)

-- Skipping is sound: where a pass for `p` has succeeded and its signature makes the next pass, for
-- `q`, be skipped, the filter chain already holds the rules of `q`, in some order. (All of them
-- drop, so the order does not matter.)
pub sync_family_skip :
    {H : Host} (c : Config) (ipv6 : Bool)
    → c.dry_run ≡ false
    → (p q : Policy) (this : Iptables) (w : World H) (this' : Iptables) (w' : World H)
    → remembered this ipv6 ≢ some (pass_signature ipv6 p)
    → sync_family c ipv6 p this w ≡ (ok tt, this', w')
    → remembered this' ipv6 ≡ some (pass_signature ipv6 q)
    → Perm (chain_of (binary_of c ipv6) w'.applied) (chain_spec ipv6 q)
sync_family_skip c ipv6 live p q this w this' w' fresh h known =
    let (holds, remembers) = sync_family-chain c ipv6 live p this w this' w' fresh h in
    rw holds (chain_spec-perm ipv6 p q (some-injective _ _ (sym remembers ∙ known)))
