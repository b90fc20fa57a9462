-- ===== src/Isp/Lease.antt =====
-- A lease that moves to another subscriber.
use guardtime.Base.{String, ◌≡◌, ◌≢◌, refl, ap, ◌∙◌, Option, some, arith, string_eq}
use guardtime.Base.Dict
use guardtime.Base.Dict.{lookup-insert, lookup-insert_self, lookup-insert_ne}
use guardtime.Base.Result.{ok}
use guardtime.Isp.Store.{
  new_tenant, Tenant, Lease, Store, pure, throw, required, get_tenant, tenant_of,
}
use guardtime.Isp.Store.Laws.{Ends, Ends-eq-ok, pure-Ends, >>=-Ends, update_tenant-Ends}
use guardtime.Isp.Services.{
  LeaseData, upsert_lease, store_lease, with_subscriber, subscriber_of, add_device,
}
use guardtime.Isp.Invariant.{listed}

required-keeps :
    (x : Option String) (field : String) (s : Store) {v : String} {s' : Store}
    → required x field s ≡ (ok v, s')
    → s' ≡ s
unfolding required pure throw
required-keeps x field s e = ground arith

get_tenant-keeps :
    (tid : String) (s : Store) {t : Tenant} {s' : Store}
    → get_tenant tid s ≡ (ok t, s')
    → tenant_of tid s' ≡ tenant_of tid s
unfolding get_tenant tenant_of
get_tenant-keeps tid s e = ground (arith, lookup-insert_self tid (new_tenant tid) s)

tenant_of-insert : (tid : String) (t : Tenant) (s : Store) → tenant_of tid (Dict.insert tid t s) ≡ t
unfolding tenant_of
tenant_of-insert tid t s = rw (lookup-insert_self tid t s, tenant_of) refl

-- What the lease service does to the tenant when it returns.
upsert_lease-stores :
    (now tid : String) (d : LeaseData) (s : Store)
    → Ends
        (λ l s'. tenant_of tid s' ≡ store_lease now l (tenant_of tid s))
        (upsert_lease now tid d)
        s
unfolding upsert_lease
upsert_lease-stores now tid d s =
    let Q = λ (l : Lease) (s' : Store). tenant_of tid s' ≡ store_lease now l (tenant_of tid s) in
    >>=-Ends Q _ _ s λ _ s1 e1. >>=-Ends Q _ _ s1 λ _ s2 e2. >>=-Ends Q _ _ s2 λ _ s3 e3.
      >>=-Ends Q _ _ s3 λ _ s4 e4.
        let kept =
          ap (tenant_of tid)
            (required-keeps _ _ s3 e4 ∙ (required-keeps _ _ s2 e3 ∙ required-keeps _ _ s1 e2))
          ∙ get_tenant-keeps tid s e1 in
        update_tenant-Ends Q tid _ _ s4
          (pure-Ends Q _ _ (tenant_of-insert tid _ s4 ∙ ap (store_lease now _) kept))

-- A device whose lease is stored for one subscriber and then for another is found under the second
-- subscriber, and is still listed, with the first lease, among the devices of the first.
pub moved_lease_stays_listed :
    (now now' tid : String) (d d' : LeaseData) (l l' : Lease) (s s1 s2 : Store)
    → upsert_lease now tid d s ≡ (ok l, s1)
    → upsert_lease now' tid d' s1 ≡ (ok l', s2)
    → l'.mac_address ≡ l.mac_address
    → l.subscriber_id ≢ l'.subscriber_id
    → (Dict.lookup l.mac_address (tenant_of tid s2).dhcp_leases_by_mac ≡ some l')
      × (listed l.mac_address (Dict.lookup l.subscriber_id (tenant_of tid s2).subscribers) ≡ some l)
unfolding with_subscriber
moved_lease_stays_listed now now' tid d d' l l' s s1 s2 e1 e2 same other =
    let t1 =
      Ends-eq-ok (λ l s'. tenant_of tid s' ≡ store_lease now l (tenant_of tid s))
        (upsert_lease now tid d) s (upsert_lease-stores now tid d s) e1 in
    let t2 =
      Ends-eq-ok (λ l' s'. tenant_of tid s' ≡ store_lease now' l' (tenant_of tid s1))
        (upsert_lease now' tid d') s1 (upsert_lease-stores now' tid d' s1) e2 in
    (
      ap (λ t. Dict.lookup l.mac_address t.dhcp_leases_by_mac) t2
          ∙ ground (
            arith,
            same,
            lookup-insert l.mac_address l'.mac_address l' (tenant_of tid s1).dhcp_leases_by_mac,
          ),
      ap (λ t. listed l.mac_address (Dict.lookup l.subscriber_id t.subscribers)) t2
          ∙ (ap (listed l.mac_address) (
                lookup-insert_ne l.subscriber_id l'.subscriber_id _ (tenant_of tid s1).subscribers
                  other)
              ∙ (ap (λ t. listed l.mac_address (Dict.lookup l.subscriber_id t.subscribers)) t1
                  ∙ (ap (listed l.mac_address) (
                        lookup-insert_self l.subscriber_id
                          (add_device now l (subscriber_of now l.subscriber_id (tenant_of tid s)))
                          (tenant_of tid s).subscribers)
                      ∙ lookup-insert_self l.mac_address l
                          (subscriber_of now l.subscriber_id (tenant_of tid s)).devices))),
    )
