-- ===== src/Isp/Effects.antt =====
-- What the services and the policy engine leave for later calls to read.
use guardtime.Base.{
  String, ◌≡◌, refl, ap, sym, subst, ◌∙◌, true, false, Option, none, some, arith, string_eq,
  Option-cases, inl, inr, Bool-cases, to_lower, ◌↔◌, or_null, ◌∈◌, contains, contains_iff,
}
use guardtime.Base.Dict
use guardtime.Base.Dict.{lookup-insert, lookup-insert_self, lookup-erase}
use guardtime.Base.Result.{ok}
use guardtime.Isp.Store.{
  Resolved, BngState, new_tenant, Tenant, Lease, Session, Store, PolicyRecord, Method, ◌>>=◌, pure,
  throw, get_tenant, tenant_of, update_tenant,
}
use guardtime.Isp.Store.Laws.{
  Ends, Ends-eq-ok, pure-Ends, >>=-Ends, update_tenant-Ends, get_tenant-insert,
}
use guardtime.Isp.Services.{
  LeaseData, SessionData, upsert_lease, find_by_mac, upsert_session, stop_session, get_session,
  drop_session, with_subscriber,
}
use guardtime.Isp.Steps.{Meets, resolve-Yields}
use guardtime.Isp.Failure.{get_tenant-EnforcementKept}
use guardtime.Isp.Policy.{
  actions, normalize_action, apply_policy, Payload, apply, get_policy, bng_key, put_bng_state,
  put_policy, policy_of,
}

lookup-insert_of :
    {V : Type 0} (k j : String) (v : V) (d : Dict.Dict String V)
    → k ≡ j
    → Dict.lookup k (Dict.insert j v d) ≡ some v
lookup-insert_of k j v d h = ground (arith, h, lookup-insert k j v d)

-- Reading the session, the lease or the policy of a tenant that has just been stored.
get_session-insert :
    (tid id : String) (t : Tenant) (s : Store)
    → (get_session tid id (Dict.insert tid t s)).0 ≡ ok (Dict.lookup id t.radius_sessions)
unfolding get_session pure
get_session-insert tid id t s = ap (λ x. x.0) (get_tenant-insert tid t _ s)

find_by_mac-insert :
    (tid mac : String) (t : Tenant) (s : Store)
    → (find_by_mac tid mac (Dict.insert tid t s)).0
      ≡ ok (Dict.lookup (to_lower mac) t.dhcp_leases_by_mac)
unfolding find_by_mac pure
find_by_mac-insert tid mac t s = ap (λ x. x.0) (get_tenant-insert tid t _ s)

get_policy-insert :
    (tid id : String) (t : Tenant) (s : Store)
    → (get_policy tid id (Dict.insert tid t s)).0 ≡ ok (Dict.lookup id t.policies)
unfolding get_policy pure
get_policy-insert tid id t s = ap (λ x. x.0) (get_tenant-insert tid t _ s)

-- A lease that the lease service has stored and returned is what it finds afterwards under every
-- spelling of the address that has the lower case of the lease's.
pub find_by_mac-upsert_lease :
    (now tid mac : String) (d : LeaseData) (l : Lease) (s s' : Store)
    → upsert_lease now tid d s ≡ (ok l, s')
    → to_lower mac ≡ l.mac_address
    → (find_by_mac tid mac s').0 ≡ ok (some l)
unfolding upsert_lease with_subscriber
find_by_mac-upsert_lease now tid mac d l s s' e h =
    Ends-eq-ok Q (upsert_lease now tid d) s
      (>>=-Ends Q _ _ s λ _ s1 _. >>=-Ends Q _ _ s1 λ _ s2 _. >>=-Ends Q _ _ s2 λ _ s3 _.
        >>=-Ends Q _ _ s3 λ _ s4 _. update_tenant-Ends Q tid _ _ s4 (
          pure-Ends Q _ _
            λ k. find_by_mac-insert tid mac _ s4 ∙ ap ok (lookup-insert_of (to_lower mac) _ _ _ k)))
      e h
  where
    Q : Lease → Store → Type 0
    Q l s' = to_lower mac ≡ l.mac_address → (find_by_mac tid mac s').0 ≡ ok (some l)

-- A session that the session service has stored and returned is what it reads afterwards for the
-- subscriber.
pub get_session-upsert_session :
    (now bng tid : String) (d : SessionData) (x : Session) (s s' : Store)
    → upsert_session now bng tid d s ≡ (ok x, s')
    → (get_session tid x.subscriber_id s').0 ≡ ok (some x)
unfolding upsert_session with_subscriber
get_session-upsert_session now bng tid d x s s' e =
    Ends-eq-ok Q (upsert_session now bng tid d) s
      (>>=-Ends Q _ _ s λ _ s1 _. >>=-Ends Q _ _ s1 λ _ s2 _. >>=-Ends Q _ _ s2 λ _ s3 _.
        update_tenant-Ends Q tid _ _ s3
          (pure-Ends Q _ _ (get_session-insert tid _ _ s3 ∙ ap ok (lookup-insert_self _ _ _))))
      e
  where
    Q : Session → Store → Type 0
    Q x s' = (get_session tid x.subscriber_id s').0 ≡ ok (some x)

tenant_of-get_tenant :
    (tid : String) (s : Store)
    → (s1 : Store) × (get_tenant tid s ≡ (ok (tenant_of tid s), s1))
      × (get_tenant tid s1 ≡ (ok (tenant_of tid s), s1))
      × (tenant_of tid s1 ≡ tenant_of tid s)
unfolding get_tenant tenant_of
tenant_of-get_tenant tid s = elim (Option-cases (Dict.lookup tid s)) [
  | inl e ↦
      let kept = lookup-insert_self tid (new_tenant tid) s in
      (
        Dict.insert tid (new_tenant tid) s,
        rw (e, get_tenant, tenant_of) refl,
        rw (e, kept, get_tenant, tenant_of) refl,
        rw (e, kept, tenant_of) refl,
      )
  | inr (t, e) ↦ (s, rw (e, get_tenant, tenant_of) refl, rw (e, get_tenant, tenant_of) refl, refl)
]

-- Stopping a subscriber's session never throws, and afterwards the subscriber has no session.
pub stop_session-stops :
    (now tid id : String) (s : Store)
    → (o : Option Session) × (s' : Store) × (stop_session now tid id s ≡ (ok o, s'))
      × ((get_session tid id s').0 ≡ ok none)
unfolding stop_session get_session ◌>>=◌ pure update_tenant with_subscriber
stop_session-stops now tid id s =
    let (s1, got, again, same) = tenant_of-get_tenant tid s in
    elim (Option-cases (Dict.lookup id (tenant_of tid s).radius_sessions)) [
      | inl e ↦ (none, s1, cc (got, e), cc (again, e))
      | inr (x, e) ↦ (
        some (record x { active = false; stopped_at = some now }),
        Dict.insert tid (drop_session now id (tenant_of tid s1)) s1,
        cc (got, e),
        get_session-insert tid id (drop_session now id (tenant_of tid s1)) s1
            ∙ ap ok (ground (arith, lookup-erase id id (tenant_of tid s1).radius_sessions)),
      )
    ]

action-allowed :
    (action : String) (s s' : Store) (a : String)
    → normalize_action action s ≡ (ok a, s')
    → (a ≡ action) × (action ∈ actions)
unfolding normalize_action pure throw
action-allowed action s s' a e = elim (Bool-cases (contains actions action)) [
  | inl yes_in ↦ (ground arith, (contains_iff actions action).0 yes_in)
  | inr not_in ↦ absurd (ground arith)
]

found-eq-ok :
    {A : Type 0} (o : Option A) (message : String) (s s' : Store) (a : A)
    → elim o as (λ _. Method A) [ none ↦ throw message | some a ↦ pure a ] s ≡ (ok a, s')
    → o ≡ some a
unfolding pure throw
found-eq-ok none message s s' a e = absurd (cc e)
found-eq-ok (some b) message s s' a e = cc e

-- The gateway's state that has just been stored.
kept-insert :
    (bng : String) (r : Resolved) (b : BngState) (s : Store)
    → Dict.lookup
        (bng_key bng r)
        (tenant_of r.tenant_id (
          Dict.insert r.tenant_id
            (put_bng_state (bng_key bng r) b (tenant_of r.tenant_id s))
            s)).bng_state
      ≡ some b
unfolding tenant_of
kept-insert bng r b s =
    let t = tenant_of r.tenant_id s in
    let key = bng_key bng r in
    rw (lookup-insert_self r.tenant_id (put_bng_state key b t) s, tenant_of)
      (lookup-insert_self key b t.bng_state)

abbrev GatewayDoes : (bng : String) → (r : Resolved) → (action : String) → BngState → Store → Type 0
GatewayDoes bng r action b s' =
    (Dict.lookup (bng_key bng r) (tenant_of r.tenant_id s').bng_state ≡ some b)
    × ((action ∈ actions)
        × ((b.action ≡ action)
            × ((b.enforcement_ip ≡ or_null r.enforcement_ip)
                × (b.blackhole ≡ true ↔ action ≡ "BLOCK"))))

apply_policy-GatewayDoes :
    (now bng : String) (r : Resolved) (action : String) (reason : Option String) (s : Store)
    → Ends (GatewayDoes bng r action) (apply_policy now bng r action reason) s
unfolding apply_policy
apply_policy-GatewayDoes now bng r action reason s =
    let Q = GatewayDoes bng r action in
    >>=-Ends Q _ _ s λ ip s1 found. >>=-Ends Q _ _ s1 λ _ s2 _. >>=-Ends Q _ _ s2 λ a s3 e.
      let (same, allowed) = action-allowed action s2 s3 a e in
      update_tenant-Ends Q r.tenant_id _ _ s3 (
        pure-Ends Q _ _ (
          kept-insert bng r _ s3,
          (
            allowed,
            (
              same,
              (
                sym (found-eq-ok (or_null r.enforcement_ip) _ s s1 ip found),
                ((λ h. ground arith), (λ h. ground arith)),
              ),
            ),
          ),
        ))

-- How the store stands to a policy that has been applied: the tenant's own table of gateway states
-- holds the policy's under the gateway and the subscriber that were resolved.
abbrev pub Enforced : (bng tid : String) → PolicyRecord → Store → Type 0
Enforced bng tid p s' =
    ((get_policy tid p.subscriber_id s').0 ≡ ok (some p))
    × ((Dict.lookup (bng_key bng p.resolved) (tenant_of tid s').bng_state ≡ some p.bng_state)
        × ((p.action ∈ actions)
            × ((p.bng_state.action ≡ p.action)
                × ((p.bng_state.enforcement_ip ≡ or_null p.resolved.enforcement_ip)
                    × (p.bng_state.blackhole ≡ true ↔ p.action ≡ "BLOCK")))))

-- Storing a policy keeps the gateway's states.
put_policy-keeps :
    (tid : String) (p : PolicyRecord) (s : Store)
    → (tenant_of tid (Dict.insert tid (put_policy p (tenant_of tid s)) s)).bng_state
      ≡ (tenant_of tid s).bng_state
unfolding tenant_of
put_policy-keeps tid p s =
    rw (lookup-insert_self tid (put_policy p (tenant_of tid s)) s, tenant_of) refl

-- A policy that the engine has applied and returned is stored under its subscriber. The tenant's
-- table of gateway states holds, under the gateway and the subscriber that were resolved, a state
-- with the policy's action, which is BLOCK, ALLOW or THROTTLE, and with the address that was
-- resolved; and it drops all traffic exactly where the action is BLOCK.
pub apply-Enforced :
    (now bng tid : String) (payload : Payload) (p : PolicyRecord) (s s' : Store)
    → apply now bng tid payload s ≡ (ok p, s')
    → Enforced bng tid p s'
unfolding apply
apply-Enforced now bng tid payload p s s' e =
    Ends-eq-ok Q (apply now bng tid payload) s
      (>>=-Ends Q _ _ s λ r s1 got. >>=-Ends Q _ _ s1 λ b s2 e2. >>=-Ends Q _ _ s2 λ _ s3 e3.
        let does : GatewayDoes bng r payload.action b s2 =
          Ends-eq-ok (GatewayDoes bng r payload.action)
            (apply_policy now bng r payload.action payload.reason) s1
            (apply_policy-GatewayDoes now bng r payload.action payload.reason s1) e2 in
        let own : r.tenant_id ≡ tid =
          subst (λ x. Meets (λ r. r.tenant_id ≡ tid) x.0) got
            (resolve-Yields now tid payload.input s) in
        let held : (tenant_of tid s3).bng_state ≡ (tenant_of tid s2).bng_state =
          subst (λ x. (tenant_of tid x.1).bng_state ≡ (tenant_of tid s2).bng_state) e3
            (get_tenant-EnforcementKept tid s2).1 in
        let policy = policy_of tid payload r b in
        update_tenant-Ends Q tid _ _ s3 (
          pure-Ends Q _ _ (
            get_policy-insert tid _ _ s3 ∙ ap ok (lookup-insert_self _ _ _),
            (
              ap (λ d. Dict.lookup (bng_key bng r) d) (put_policy-keeps tid policy s3 ∙ held)
                  ∙ subst (λ x. Dict.lookup (bng_key bng r) (tenant_of x s2).bng_state ≡ some b) own
                      does.0,
              does.1,
            ),
          )))
      e
  where
    Q : PolicyRecord → Store → Type 0
    Q = Enforced bng tid
