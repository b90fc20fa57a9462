-- ===== src/Isp/Invariant.antt =====
-- What a tenant's tables have in common, whatever was called.
use guardtime.Base.{
  String, subst, ◌≡◌, refl, ap, sym, ◌∙◌, Option, none, some, arith, ◌==◌, string_eq, if◌then◌else◌,
  Option-cases, inl, inr,
}
use guardtime.Base.Dict
use mathlib.Core.Option.{some-injective}
use guardtime.Base.Dict.{Dict, lookup-insert, lookup-erase, lookup-insert_self, lookup-insert_ne}
use guardtime.Isp.Store.{
  Tenant, Session, Lease, Subscriber, PolicyRecord, Store, new_tenant, get_tenant, tenant_of,
  update_tenant,
}
use guardtime.Isp.Services.{
  LeaseData, SessionData, upsert_lease, upsert_session, stop_session, store_lease, store_session,
  drop_session, with_subscriber, add_device, set_session, subscriber_of,
}
use guardtime.Isp.Policy.{Payload, apply}
use guardtime.Isp.Steps.{
  keep_lease, keep_session, lose_session, keep_subscriber, keep_bng_state, keep_policy, Change,
  change, Within, upsert_lease-Within, upsert_session-Within, stop_session-Within, apply-Within,
}

-- The session that the subscriber's own record holds, and the device that it lists.
abbrev pub active : Option Subscriber → Option Session
active none = none
active (some b) = b.active_session

abbrev pub listed : (mac : String) → Option Subscriber → Option Lease
listed mac none = none
listed mac (some b) = Dict.lookup mac b.devices

-- The session table agrees with the subscribers, each lease is a device of its subscriber, and
-- each table is keyed by the fields of what it holds.
pub record Coherent (t : Tenant) : Type 0 where
  pub session_agrees :
      (id : String) → Dict.lookup id t.radius_sessions ≡ active (Dict.lookup id t.subscribers)
  pub lease_listed :
      (mac : String) (l : Lease)
      → Dict.lookup mac t.dhcp_leases_by_mac ≡ some l
      → listed mac (Dict.lookup l.subscriber_id t.subscribers) ≡ some l
  pub lease_keyed :
      (mac : String) (l : Lease)
      → Dict.lookup mac t.dhcp_leases_by_mac ≡ some l
      → l.mac_address ≡ mac
  pub session_keyed :
      (id : String) (x : Session) → Dict.lookup id t.radius_sessions ≡ some x → x.subscriber_id ≡ id
  pub policy_keyed :
      (id : String) (p : PolicyRecord) → Dict.lookup id t.policies ≡ some p → p.subscriber_id ≡ id

new_tenant-Coherent : (tid : String) → Coherent (new_tenant tid)
unfolding Dict.lookup
new_tenant-Coherent tid = record {
  session_agrees = λ id. refl;
  lease_listed = λ mac l. ground arith;
  lease_keyed = λ mac l. ground arith;
  session_keyed = λ id x. ground arith;
  policy_keyed = λ id p. ground arith;
}

-- What is put on the subscriber leaves its session as it was.
active-insert :
    (now id j : String) (f : Subscriber → Subscriber) (t : Tenant)
    → ((b : Subscriber) → (f b).active_session ≡ b.active_session)
    → active (Dict.lookup j (with_subscriber now id f t).subscribers)
      ≡ active (Dict.lookup j t.subscribers)
unfolding with_subscriber
active-insert now id j f t h = ground (
  arith,
  lookup-insert j id (f (subscriber_of now id t)) t.subscribers,
  h (subscriber_of now id t),
)

listed-insert :
    (now id j mac : String) (f : Subscriber → Subscriber) (t : Tenant)
    → ((b : Subscriber) → Dict.lookup mac (f b).devices ≡ Dict.lookup mac b.devices)
    → (l : Lease) → listed mac (Dict.lookup j t.subscribers) ≡ some l
    → listed mac (Dict.lookup j (with_subscriber now id f t).subscribers) ≡ some l
unfolding with_subscriber
listed-insert now id j mac f t h l e = ground (
  arith,
  lookup-insert j id (f (subscriber_of now id t)) t.subscribers,
  h (subscriber_of now id t),
)

-- What is put on one subscriber and into one session slot.
active-set :
    (now id j : String) (o : Option Session) (t : Tenant)
    → active (Dict.lookup j (with_subscriber now id (set_session o) t).subscribers)
      ≡ (if j == id then o else active (Dict.lookup j t.subscribers))
unfolding with_subscriber
active-set now id j o t =
    ground (arith, lookup-insert j id (set_session o (subscriber_of now id t)) t.subscribers)

-- The lease that was stored is a device of its subscriber.
listed-add :
    (now : String) (x : Lease) (t : Tenant)
    → listed x.mac_address (
        Dict.lookup x.subscriber_id
          (with_subscriber now x.subscriber_id (add_device now x) t).subscribers)
      ≡ some x
unfolding with_subscriber
listed-add now x t =
    let b = subscriber_of now x.subscriber_id t in
    rw (lookup-insert_self x.subscriber_id (add_device now x b) t.subscribers)
      (lookup-insert_self x.mac_address x b.devices)

store_lease-Coherent :
    (now : String) (x : Lease) (t : Tenant) → Coherent t → Coherent (store_lease now x t)
unfolding with_subscriber
store_lease-Coherent now x t c = record {
  session_agrees = λ id.
      c.session_agrees id
      ∙ sym (active-insert now x.subscriber_id id (add_device now x) t' (λ b. refl));
  lease_listed = λ mac l e. lease_listed_after mac l e (string_eq.dec mac x.mac_address);
  lease_keyed = λ mac l e.
      ground (arith, lookup-insert mac x.mac_address x t.dhcp_leases_by_mac, c.lease_keyed mac l);
  session_keyed = c.session_keyed;
  policy_keyed = c.policy_keyed;
}
  where
    t' : Tenant
    t' = record t { dhcp_leases_by_mac = Dict.insert x.mac_address x t.dhcp_leases_by_mac }

    lease_listed_after :
        (mac : String) (l : Lease)
        → Dict.lookup mac t'.dhcp_leases_by_mac ≡ some l
        → Dec (mac ≡ x.mac_address)
        → listed mac (Dict.lookup l.subscriber_id (store_lease now x t).subscribers) ≡ some l
    lease_listed_after mac l e (yes p) =
        let is_x : x ≡ l =
          ground (arith, p, lookup-insert mac x.mac_address x t.dhcp_leases_by_mac) in
        subst
          (λ y. listed mac (Dict.lookup y.subscriber_id (store_lease now x t).subscribers) ≡ some y)
          is_x
          (subst
            (λ m. listed m (Dict.lookup x.subscriber_id (store_lease now x t).subscribers) ≡ some x)
            (sym p) (listed-add now x t'))
    lease_listed_after mac l e (no p) =
        listed-insert now x.subscriber_id l.subscriber_id mac (add_device now x) t'
          (λ b. lookup-insert_ne mac x.mac_address x b.devices p) l
          (c.lease_listed mac l
            (sym (lookup-insert_ne mac x.mac_address x t.dhcp_leases_by_mac p) ∙ e))

store_session-Coherent :
    (now : String) (x : Session) (t : Tenant) → Coherent t → Coherent (store_session now x t)
unfolding with_subscriber
store_session-Coherent now x t c = record {
  session_agrees = λ id. ground (
    arith,
    lookup-insert id x.subscriber_id x t.radius_sessions,
    c.session_agrees id,
    active-set now x.subscriber_id id (some x) t',
  );
  lease_listed = λ mac l e.
      listed-insert now x.subscriber_id l.subscriber_id mac (set_session (some x)) t' (λ b. refl) l
        (c.lease_listed mac l e);
  lease_keyed = c.lease_keyed;
  session_keyed = λ id y e.
      ground (arith, lookup-insert id x.subscriber_id x t.radius_sessions, c.session_keyed id y);
  policy_keyed = c.policy_keyed;
}
  where
    t' : Tenant
    t' = record t { radius_sessions = Dict.insert x.subscriber_id x t.radius_sessions }

drop_session-Coherent :
    (now id : String) (t : Tenant) → Coherent t → Coherent (drop_session now id t)
unfolding with_subscriber
drop_session-Coherent now id t c = record {
  session_agrees = λ j.
      ground (
        arith,
        lookup-erase j id t.radius_sessions,
        c.session_agrees j,
        active-set now id j none t',
      );
  lease_listed = λ mac l e.
      listed-insert now id l.subscriber_id mac (set_session none) t' (λ b. refl) l
        (c.lease_listed mac l e);
  lease_keyed = c.lease_keyed;
  session_keyed = λ j y e. ground (arith, lookup-erase j id t.radius_sessions, c.session_keyed j y);
  policy_keyed = c.policy_keyed;
}
  where
    t' : Tenant
    t' = record t { radius_sessions = Dict.erase id t.radius_sessions }

with_subscriber-Coherent :
    (now id : String) (t : Tenant) → Coherent t → Coherent (with_subscriber now id (λ s. s) t)
unfolding with_subscriber
with_subscriber-Coherent now id t c = record {
  session_agrees = λ j. c.session_agrees j ∙ sym (active-insert now id j (λ s. s) t (λ b. refl));
  lease_listed = λ mac l e.
      listed-insert now id l.subscriber_id mac (λ s. s) t (λ b. refl) l (c.lease_listed mac l e);
  lease_keyed = c.lease_keyed;
  session_keyed = c.session_keyed;
  policy_keyed = c.policy_keyed;
}

change-Coherent : (x : Change) (t : Tenant) → Coherent t → Coherent (change x t)
change-Coherent (keep_lease now l) t c = store_lease-Coherent now l t c
change-Coherent (keep_session now x) t c = store_session-Coherent now x t c
change-Coherent (lose_session now id) t c = drop_session-Coherent now id t c
change-Coherent (keep_subscriber now id) t c = with_subscriber-Coherent now id t c
change-Coherent (keep_bng_state b) t c = record {
  session_agrees = c.session_agrees;
  lease_listed = c.lease_listed;
  lease_keyed = c.lease_keyed;
  session_keyed = c.session_keyed;
  policy_keyed = c.policy_keyed;
}
change-Coherent (keep_policy q) t c = record {
  session_agrees = c.session_agrees;
  lease_listed = c.lease_listed;
  lease_keyed = c.lease_keyed;
  session_keyed = c.session_keyed;
  policy_keyed =
      λ id p e. ground (arith, lookup-insert id q.subscriber_id q t.policies, c.policy_keyed id p);
}

-- Every tenant of the store is coherent.
abbrev pub AllCoherent : Store → Type 0
AllCoherent s = (tid : String) (t : Tenant) → Dict.lookup tid s ≡ some t → Coherent t

-- What a method does to the store keeps that.
abbrev Keeping : Store → Store → Type 0
Keeping s s' = AllCoherent s → AllCoherent s'

insert-AllCoherent :
    (tid : String) (t : Tenant) (s : Store)
    → Coherent t
    → AllCoherent s
    → AllCoherent (Dict.insert tid t s)
insert-AllCoherent tid t s c h j x e = elim (string_eq.dec j tid) [
  | yes p ↦
      subst Coherent
        (some-injective _ _ (
          sym (lookup-insert_self tid t s)
          ∙ (sym (ap (λ k. Dict.lookup k (Dict.insert tid t s)) p) ∙ e)))
        c
  | no p ↦ h j x (sym (lookup-insert_ne j tid t s p) ∙ e)
]

tenant_of-Coherent : (tid : String) (s : Store) → AllCoherent s → Coherent (tenant_of tid s)
unfolding tenant_of
tenant_of-Coherent tid s h = elim (Option-cases (Dict.lookup tid s)) [
  | inl e ↦ rw (e, tenant_of) (new_tenant-Coherent tid)
  | inr (t, e) ↦ rw (e, tenant_of) (h tid t e)
]

get_tenant-Keeping : (tid : String) → Within Keeping (get_tenant tid)
unfolding get_tenant
get_tenant-Keeping tid s h = elim (Option-cases (Dict.lookup tid s)) [
  | inl e ↦
      rw (e, get_tenant) (insert-AllCoherent tid (new_tenant tid) s (new_tenant-Coherent tid) h)
  | inr (t, e) ↦ rw (e, get_tenant) h
]

change-Keeping : (tid : String) (c : Change) → Within Keeping (update_tenant tid (change c))
unfolding update_tenant
change-Keeping tid c s h =
    insert-AllCoherent tid (change c (tenant_of tid s)) s
      (change-Coherent c (tenant_of tid s) (tenant_of-Coherent tid s h)) h

-- In a store whose tenants are coherent (the session table of each agrees with the active
-- sessions of its subscribers, each lease is a device of the subscriber it names, and leases,
-- sessions and policies are kept under their own keys) every tenant is coherent after the lease
-- service, the session service or the policy engine is called, whether the call returns or throws.
pub services-coherent :
    (now bng tid : String) (s : Store)
    → AllCoherent s
    → ((d : LeaseData) → AllCoherent (upsert_lease now tid d s).1)
      × (((d : SessionData) → AllCoherent (upsert_session now bng tid d s).1)
          × (((id : String) → AllCoherent (stop_session now tid id s).1)
              × ((p : Payload) → AllCoherent (apply now bng tid p s).1)))
services-coherent now bng tid s h =
    let r = λ (s : Store) (h : AllCoherent s). h in
    let t : (a b c : Store) → Keeping a b → Keeping b c → Keeping a c = λ a b c p q x. q (p x) in
    let g = get_tenant-Keeping tid in
    let c = change-Keeping tid in
    (
      λ d. upsert_lease-Within Keeping r t tid g c now d s h,
      (
        λ d. upsert_session-Within Keeping r t tid g c now bng d s h,
        (
          λ id. stop_session-Within Keeping r t tid g c now id s h,
          λ p. apply-Within Keeping r t tid g c now bng p s h,
        ),
      ),
    )
