-- ===== src/Agent/Firewall/Iptables/Passes.antt =====
-- The three ways in which a pass ends: skipped, renewed, or rolled back.
use guardtime.Base.{String, ◌≡◌, ◌≢◌, refl, sym, ap, ◌∙◌, Bool, true, false, some, arith, option_eq}
use guardtime.Agent.Host.{Host, World, Result, ok, err}
use guardtime.Agent.Config.{Config}
use guardtime.Agent.Firewall.Signature.{Policy, Signature, signature_eq}
use guardtime.Agent.Firewall.Iptables.{
  rebuild, snapshot_ruleset, restore_ruleset, Iptables, remembered, remember, pass_signature,
  sync_family,
}

pub remembered-remember :
    (this : Iptables) (ipv6 : Bool) (s : Signature)
    → remembered (remember this ipv6 s) ipv6 ≡ some s
remembered-remember this true s = refl
remembered-remember this false s = refl

module _ {H : Host} (c : Config) (ipv6 : Bool) (p : Policy) (this : Iptables) (w : World H) where
  pub data Pass (x : Result (Unit {0}) × Iptables × World H) : Type 0 where
    skipped : remembered this ipv6 ≡ some (pass_signature ipv6 p) → x ≡ (ok tt, this, w) → Pass x
    renewed :
        remembered this ipv6 ≢ some (pass_signature ipv6 p)
        → (a : Unit {0}) (w2 : World H)
        → rebuild c ipv6 p (snapshot_ruleset c ipv6 w).1 ≡ (ok a, w2)
        → x ≡ (ok tt, remember this ipv6 (pass_signature ipv6 p), w2)
        → Pass x
    rolled_back :
        remembered this ipv6 ≢ some (pass_signature ipv6 p)
        → (e : String) (w2 : World H) → rebuild c ipv6 p (snapshot_ruleset c ipv6 w).1 ≡ (err e, w2)
        → x ≡ (err e, this, restore_ruleset c ipv6 (snapshot_ruleset c ipv6 w).0 w2)
        → Pass x

  ended :
      (r : Result (Unit {0}) × World H)
      → rebuild c ipv6 p (snapshot_ruleset c ipv6 w).1 ≡ r
      → remembered this ipv6 ≢ some (pass_signature ipv6 p)
      → Pass (sync_family c ipv6 p this w)
  unfolding sync_family
  ended (ok a, w2) e fresh = renewed fresh a w2 e (ground (arith))
  ended (err m, w2) e fresh = rolled_back fresh m w2 e (ground (arith))

  pub sync_family-Pass : Pass (sync_family c ipv6 p this w)
  unfolding sync_family
  sync_family-Pass = elim (option_eq.dec (remembered this ipv6) (some (pass_signature ipv6 p))) [
    | yes same ↦ skipped same (ground arith)
    | no fresh ↦ ended (rebuild c ipv6 p (snapshot_ruleset c ipv6 w).1) refl fresh
  ]

-- A pass that has succeeded is not made again for the same policy: the second one runs no command
-- and changes nothing.
pub sync_family_twice :
    {H : Host} (c : Config) (ipv6 : Bool) (p : Policy) (this : Iptables) (w : World H)
    (this' : Iptables) (w' : World H)
    → sync_family c ipv6 p this w ≡ (ok tt, this', w')
    → sync_family c ipv6 p this' w' ≡ (ok tt, this', w')
sync_family_twice c ipv6 p this w this' w' h =
    let known : remembered this' ipv6 ≡ some (pass_signature ipv6 p) =
      elim (sync_family-Pass c ipv6 p this w) [
        | skipped same e ↦ ap (λ x. remembered x.1 ipv6) (sym h ∙ e) ∙ same
        | renewed _ a w2 filled e ↦
            ap (λ x. remembered x.1 ipv6) (sym h ∙ e)
            ∙ remembered-remember this ipv6 (pass_signature ipv6 p)
        | rolled_back _ _ _ _ e ↦ absurd (cc (h, e))
      ] in
    elim (sync_family-Pass c ipv6 p this' w') [
      | skipped _ e ↦ e
      | renewed fresh _ _ _ _ ↦ absurd (fresh known)
      | rolled_back fresh _ _ _ _ ↦ absurd (fresh known)
    ]
