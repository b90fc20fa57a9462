-- ===== src/Agent/Firewall/Signature/Laws.antt =====
-- What a signature holds of the targets.
use mathlib.Core.List.{Perm, Permᴰ, flat_map, perm_append_comm, append_assoc}
use mathlib.Core.List.Perm
use mathlib.Core.Logic.{∥∥₁_elim}
use text.Mathlib.Text.{is_lt}
use Prim.Native.String.{compare}
use guardtime.Base.{◌≡◌, ap, Bool, List, [], ◌∷◌, map, Bool-cases, inl, inr}
use guardtime.Agent.Firewall.Signature.{
  Policy, SignedTarget, Signature, sign_target, insert_by_id, sort_by_id, build_signature,
}

insert_by_id-perm : (t : SignedTarget) (us : List SignedTarget) → Perm (insert_by_id t us) (t ∷ us)
unfolding insert_by_id
insert_by_id-perm t [] = Perm.refl (t ∷ [])
insert_by_id-perm t (u ∷ us) = elim (Bool-cases (is_lt (compare u.device_id t.device_id))) [
  | inl later ↦ rw later (Perm.trans (Perm.cons u (insert_by_id-perm t us)) (Perm.swap t u us))
  | inr here ↦ rw here (Perm.refl (t ∷ u ∷ us))
]

sort_by_id-perm : (ts : List SignedTarget) → Perm (sort_by_id ts) ts
unfolding sort_by_id
sort_by_id-perm [] = Perm.refl []
sort_by_id-perm (t ∷ ts) =
    Perm.trans (insert_by_id-perm t (sort_by_id ts)) (Perm.cons t (sort_by_id-perm ts))

-- Policies with one signature have the same targets in some order, up to what is not signed.
pub build_signature-perm :
    (p q : Policy) (ipv6 : Bool)
    → build_signature p ipv6 ≡ build_signature q ipv6
    → Perm (map sign_target p.targets) (map sign_target q.targets)
unfolding build_signature
build_signature-perm p q ipv6 h =
    let same : sort_by_id (map sign_target p.targets) ≡ sort_by_id (map sign_target q.targets) =
      ap (λ (s : Signature). s.targets) h in
    Perm.trans (Perm.symm (sort_by_id-perm (map sign_target p.targets)))
      (rw same (sort_by_id-perm (map sign_target q.targets)))

module _ {A B : Type 0} (f : A → List B) where
  flat_map-permᴰ : {xs ys : List A} → Permᴰ xs ys → Perm (flat_map f xs) (flat_map f ys)
  unfolding flat_map
  flat_map-permᴰ Permᴰ.nil = Perm.refl []
  flat_map-permᴰ (Permᴰ.cons {b} e d) = rw e (Perm.append (Perm.refl (f b)) (flat_map-permᴰ d))
  flat_map-permᴰ (Permᴰ.swap {a} {b} {l} e e') =
      rw
        (
          ← e,
          ← e',
          ← append_assoc (f a) (f b) (flat_map f l),
          ← append_assoc (f b) (f a) (flat_map f l),
        )
        (Perm.append (perm_append_comm (f a) (f b)) (Perm.refl (flat_map f l)))
  flat_map-permᴰ (Permᴰ.trans d e) = Perm.trans (flat_map-permᴰ d) (flat_map-permᴰ e)

  -- What is generated from each element of two such lists is the same, in some order.
  pub flat_map-perm : {xs ys : List A} → Perm xs ys → Perm (flat_map f xs) (flat_map f ys)
  flat_map-perm p = ∥∥₁_elim p squash₁ flat_map-permᴰ
