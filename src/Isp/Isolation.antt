-- ===== src/Isp/Isolation.antt =====
-- What a call for one tenant changes: the methods that write. (What is read is not at issue here:
-- `listTenants` lists every tenant.)
use guardtime.Base.{String, ◌≡◌, ◌≢◌, refl, ◌∙◌, string_eq, Option-cases, inl, inr}
use guardtime.Base.Dict
use guardtime.Base.Dict.{lookup-insert_ne}
use guardtime.Isp.Store.{Store, new_tenant, get_tenant, tenant_of, update_tenant}
use guardtime.Isp.Services.{LeaseData, SessionData, upsert_lease, upsert_session, stop_session}
use guardtime.Isp.Policy.{Payload, apply}
use guardtime.Isp.Steps.{
  Change, change, Within, upsert_lease-Within, upsert_session-Within, stop_session-Within,
  apply-Within,
}

-- The entries of the other tenants are what they were.
abbrev pub OthersKept : (tenant_id : String) → Store → Store → Type 0
OthersKept tid s s' = (other : String) → other ≢ tid → Dict.lookup other s' ≡ Dict.lookup other s

OthersKept-refl : (tid : String) (s : Store) → OthersKept tid s s
OthersKept-refl tid s other h = refl

OthersKept-trans :
    (tid : String) (a b c : Store) → OthersKept tid a b → OthersKept tid b c → OthersKept tid a c
OthersKept-trans tid a b c p q other h = q other h ∙ p other h

get_tenant-OthersKept : (tid : String) → Within (OthersKept tid) (get_tenant tid)
unfolding get_tenant
get_tenant-OthersKept tid s other h = elim (Option-cases (Dict.lookup tid s)) [
  | inl e ↦ rw (e, get_tenant) (lookup-insert_ne other tid (new_tenant tid) s h)
  | inr (t, e) ↦ rw (e, get_tenant)
]

change-OthersKept :
    (tid : String) (c : Change) → Within (OthersKept tid) (update_tenant tid (change c))
unfolding update_tenant
change-OthersKept tid c s other h = lookup-insert_ne other tid (change c (tenant_of tid s)) s h

-- Whether they return or throw, the lease and session services and the policy engine, called for
-- one tenant, leave what the store holds of every other tenant as it was.
pub services-isolated :
    (now bng tid : String) (s : Store)
    → ((d : LeaseData) → OthersKept tid s (upsert_lease now tid d s).1)
      × (((d : SessionData) → OthersKept tid s (upsert_session now bng tid d s).1)
          × (((id : String) → OthersKept tid s (stop_session now tid id s).1)
              × ((p : Payload) → OthersKept tid s (apply now bng tid p s).1)))
services-isolated now bng tid s =
    let R = OthersKept tid in
    let r = OthersKept-refl tid in
    let t = OthersKept-trans tid in
    let g = get_tenant-OthersKept tid in
    let c = change-OthersKept tid in
    (
      λ d. upsert_lease-Within R r t tid g c now d s,
      (
        λ d. upsert_session-Within R r t tid g c now bng d s,
        (
          λ id. stop_session-Within R r t tid g c now id s,
          λ p. apply-Within R r t tid g c now bng p s,
        ),
      ),
    )
