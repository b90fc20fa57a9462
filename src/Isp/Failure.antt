-- ===== src/Isp/Failure.antt =====
-- What a call leaves that throws.
use guardtime.Base.{
  String, subst, ◌≡◌, ◌≢◌, refl, ◌∙◌, Option, arith, string_eq, Option-cases, inl, inr, or_null,
}
use guardtime.Base.Dict
use guardtime.Base.Dict.{lookup-insert_self}
use guardtime.Base.Result.{Result, ok, err}
use guardtime.Isp.Store.{
  new_tenant, Resolved, Tenant, Store, Method, ◌>>=◌, pure, get_tenant, tenant_of, update_tenant,
}
use guardtime.Isp.Services.{with_subscriber}
use guardtime.Isp.Policy.{Payload, apply, apply_policy, normalize_action}
use guardtime.Isp.Steps.{
  Meets, Within, found-Within, normalize_action-Within, resolve-Within, resolve-Yields,
}

-- Where the method throws, the store it leaves is in the relation to the one it was called on.
abbrev FailsWithin : (Store → Store → Type 0) → {A : Type 0} → Method A → Type 0
FailsWithin R m = (s : Store) (message : String) (s' : Store) → m s ≡ (err message, s') → R s s'

abbrev NeverFails : {A : Type 0} → Method A → Type 0
NeverFails m = (s : Store) (message : String) (s' : Store) → m s ≢ (err message, s')

pure-NeverFails : {A : Type 0} (a : A) → NeverFails (pure a)
unfolding pure
pure-NeverFails a s message s' e = cc e

get_tenant-NeverFails : (tid : String) → NeverFails (get_tenant tid)
unfolding get_tenant
get_tenant-NeverFails tid s message s' = ground arith

update_tenant-NeverFails : (tid : String) (f : Tenant → Tenant) → NeverFails (update_tenant tid f)
unfolding update_tenant
update_tenant-NeverFails tid f s message s' e = cc e

>>=-NeverFails :
    {A B : Type 0} (m : Method A) (f : A → Method B)
    → NeverFails m
    → ((a : A) → NeverFails (f a))
    → NeverFails (m >>= f)
unfolding ◌>>=◌
>>=-NeverFails {A} {B} m f hm hf s message s' = go (m s) refl
  where
    go :
        (x : Result A × Store)
        → m s ≡ x
        → (let (r, s1) = x in
            let y : Result B × Store = elim r [ ok b ↦ f b s1 | err e ↦ (err e, s1) ] in
            y ≢ (err message, s'))
    go (ok a, s1) e = hf a s1 message s'
    go (err m', s1) e = absurd (hm s m' s1 e)

module _ (R : Store → Store → Type 0) (R_trans : (a b c : Store) → R a b → R b c → R a c) where
  Within-FailsWithin : {A : Type 0} (m : Method A) → Within R m → FailsWithin R m
  Within-FailsWithin m h s message s' e = subst (λ x. R s x.1) e (h s)

  NeverFails-FailsWithin : {A : Type 0} (m : Method A) → NeverFails m → FailsWithin R m
  NeverFails-FailsWithin m h s message s' e = absurd (h s message s' e)

  >>=-FailsWithin :
      {A B : Type 0} (m : Method A) (f : A → Method B)
      → Within R m
      → ((a : A) (s s1 : Store) → m s ≡ (ok a, s1) → FailsWithin R (f a))
      → FailsWithin R (m >>= f)
  unfolding ◌>>=◌
  >>=-FailsWithin {A} {B} m f hm hf s message s' = go (m s) refl (hm s)
    where
      go :
          (x : Result A × Store)
          → m s ≡ x
          → R s x.1
          → (let (r, s1) = x in
              let y : Result B × Store = elim r [ ok b ↦ f b s1 | err e ↦ (err e, s1) ] in
              y ≡ (err message, s') → R s s')
      go (ok a, s1) e k = λ last. R_trans s s1 s' k (hf a s s1 e s1 message s' last)
      go (err m', s1) e k = λ last. subst (λ x. R s x.1) last k

  >>=-FailsWithin_of :
      {A B : Type 0} (m : Method A) (f : A → Method B)
      → FailsWithin R m
      → ((a : A) → NeverFails (f a))
      → FailsWithin R (m >>= f)
  unfolding ◌>>=◌
  >>=-FailsWithin_of {A} {B} m f hm hf s message s' = go (m s) refl
    where
      go :
          (x : Result A × Store)
          → m s ≡ x
          → (let (r, s1) = x in
              let y : Result B × Store = elim r [ ok b ↦ f b s1 | err e ↦ (err e, s1) ] in
              y ≡ (err message, s') → R s s')
      go (ok a, s1) e = λ last. absurd (hf a s1 message s' last)
      go (err m', s1) e = λ last. subst (λ x. R s x.1) last (hm s m' s1 e)

-- The policies and the gateway states of the tenant are what they were.
abbrev pub EnforcementKept : (tid : String) → Store → Store → Type 0
EnforcementKept tid s s' =
    ((tenant_of tid s').policies ≡ (tenant_of tid s).policies)
    × ((tenant_of tid s').bng_state ≡ (tenant_of tid s).bng_state)

EnforcementKept-trans :
    (tid : String) (a b c : Store)
    → EnforcementKept tid a b
    → EnforcementKept tid b c
    → EnforcementKept tid a c
EnforcementKept-trans tid a b c (p, q) (p', q') = (p' ∙ p, q' ∙ q)

pub get_tenant-EnforcementKept : (tid : String) → Within (EnforcementKept tid) (get_tenant tid)
unfolding get_tenant tenant_of
get_tenant-EnforcementKept tid s = elim (Option-cases (Dict.lookup tid s)) [
  | inl e ↦
      let kept = lookup-insert_self tid (new_tenant tid) s in
      rw (e, kept, get_tenant, tenant_of) (refl, refl)
  | inr (t, e) ↦ rw (e, get_tenant) (refl, refl)
]

touch-EnforcementKept :
    (tid now id : String)
    → Within (EnforcementKept tid) (update_tenant tid (with_subscriber now id (λ s. s)))
unfolding update_tenant with_subscriber
touch-EnforcementKept tid now id s =
    let t = with_subscriber now id (λ s. s) (tenant_of tid s) in
    let kept = lookup-insert_self tid t s in (rw (kept, tenant_of) refl, rw (kept, tenant_of) refl)

apply_policy-failure :
    (now bng : String) (r : Resolved) (action : String) (reason : Option String)
    → FailsWithin (EnforcementKept r.tenant_id) (apply_policy now bng r action reason)
unfolding apply_policy
apply_policy-failure now bng r action reason =
    let tid = r.tenant_id in
    let R = EnforcementKept tid in
    let refl' : (s : Store) → R s s = λ s. (refl, refl) in
    let trans' = EnforcementKept-trans tid in
    >>=-FailsWithin R trans' _ _ (found-Within R refl' trans' (or_null r.enforcement_ip) _)
      λ ip _ _ _.
        >>=-FailsWithin R trans' (get_tenant tid) _ (get_tenant-EnforcementKept tid) λ _ _ _ _.
          >>=-FailsWithin R trans' (normalize_action action) _
            (normalize_action-Within R refl' trans' action)
            λ a _ _ _. NeverFails-FailsWithin R trans' _ (
              >>=-NeverFails (update_tenant tid _) _ (update_tenant-NeverFails tid _)
                (λ _. pure-NeverFails _))

-- Where applying a policy throws, whatever the reason, the tenant's policies and its gateway's
-- states are what they were.
pub apply-failure :
    (now bng tid : String) (payload : Payload) (message : String) (s s' : Store)
    → apply now bng tid payload s ≡ (err message, s')
    → ((tenant_of tid s').policies ≡ (tenant_of tid s).policies)
      × ((tenant_of tid s').bng_state ≡ (tenant_of tid s).bng_state)
unfolding apply
apply-failure now bng tid payload message s s' e =
    let R = EnforcementKept tid in
    let refl' : (s : Store) → R s s = λ s. (refl, refl) in
    let trans' = EnforcementKept-trans tid in
    >>=-FailsWithin R trans' _ _
      (resolve-Within R refl' trans' tid (get_tenant-EnforcementKept tid)
        (touch-EnforcementKept tid) now payload.input)
      (λ r s0 s1 got.
        let same : r.tenant_id ≡ tid =
          subst (λ x. Meets (λ r. r.tenant_id ≡ tid) x.0) got
            (resolve-Yields now tid payload.input s0) in
        >>=-FailsWithin_of R trans' _ _
          (subst
            (λ x.
              FailsWithin (EnforcementKept x)
                (apply_policy now bng r payload.action payload.reason))
            same (apply_policy-failure now bng r payload.action payload.reason))
          λ b. >>=-NeverFails (get_tenant tid) _ (get_tenant-NeverFails tid) λ _.
            >>=-NeverFails (update_tenant tid _) _ (update_tenant-NeverFails tid _)
              (λ _. pure-NeverFails _))
      s message s' e
