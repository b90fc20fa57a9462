-- ===== src/Isp/Steps.antt =====
-- Every method of the services, of the gateway controller and of the policy engine changes the
-- store by a sequence of few kinds of changes to its own tenant. Here is what a
-- relation of stores needs to be kept by a method, whether it returns or throws.
use guardtime.Base.{
  String, subst, sym, ◌<>◌, ◌≡◌, refl, Bool, true, false, Option, none, some, ◌==◌, string_eq,
  truthy, Bool-cases, Option-cases, inl, inr, if◌then◌else◌, or_null, contains, ◌or_else◌,
}
use guardtime.Base.Dict
use guardtime.Base.Result.{Result, ok, err}
use guardtime.Isp.Store.{
  Tenant, Store, Session, Lease, BngState, PolicyRecord, Method, Resolved, ◌>>=◌, pure, throw,
  get_tenant, update_tenant, required,
}
use guardtime.Isp.Services.{
  LeaseData, SessionData, Input, upsert_lease, upsert_session, stop_session, list_by_subscriber,
  find_by_mac, get_session, resolve_subscriber_id_from_device, resolve, store_lease, store_session,
  drop_session, with_subscriber,
}
use guardtime.Isp.Policy.{
  Payload, actions, normalize_action, apply_policy, get_state, apply, get_policy, put_bng_state,
  put_policy,
}

-- What the methods do to a tenant.
pub data Change : Type 0 where
  keep_lease : (now : String) → Lease → Change
  keep_session : (now : String) → Session → Change
  lose_session : (now id : String) → Change
  keep_subscriber : (now id : String) → Change
  keep_bng_state : BngState → Change
  keep_policy : PolicyRecord → Change

abbrev pub change : Change → Tenant → Tenant
change (keep_lease now l) = store_lease now l
change (keep_session now x) = store_session now x
change (lose_session now id) = drop_session now id
change (keep_subscriber now id) = with_subscriber now id (λ s. s)
change (keep_bng_state b) = put_bng_state (b.bng_id <> ":" <> b.subscriber_id) b
change (keep_policy p) = put_policy p

abbrev pub Within : (Store → Store → Type 0) → {A : Type 0} → Method A → Type 0
Within R m = (s : Store) → R s (m s).1

abbrev pub Meets : {A : Type 0} → (A → Type 0) → Result A → Type 0
Meets P (ok a) = P a
Meets P (err _) = Unit

-- What the method returns, where it returns, has the property.
abbrev pub Yields : {A : Type 0} → (A → Type 0) → Method A → Type 0
Yields P m = (s : Store) → Meets P (m s).0

module _ {A : Type 0} (P : A → Type 0) where
  pure-Yields : (a : A) → P a → Yields P (pure a)
  unfolding pure
  pure-Yields a p s = p

  >>=-Yields :
      {B : Type 0} (m : Method B) (f : B → Method A)
      → ((b : B) → Yields P (f b))
      → Yields P (m >>= f)
  unfolding ◌>>=◌
  >>=-Yields {B} m f hf s = go (m s)
    where
      go :
          (x : Result B × Store)
          → (let (r, s') = x in
              let y : Result A × Store = elim r [ ok a ↦ f a s' | err e ↦ (err e, s') ] in
              Meets P y.0)
      go (ok a, s') = hf a s'
      go (err e, s') = tt

pub resolve-Yields :
    (now tid : String) (input : Input) → Yields (λ r. r.tenant_id ≡ tid) (resolve now tid input)
unfolding resolve
resolve-Yields now tid input =
    let P = λ (r : Resolved). r.tenant_id ≡ tid in
    >>=-Yields P _ _ λ _. >>=-Yields P _ _ λ _. >>=-Yields P _ _ λ id.
      >>=-Yields P _ _
        λ _. >>=-Yields P _ _ (λ session. >>=-Yields P _ _ (λ devices. pure-Yields P _ refl))

module _ (R : Store → Store → Type 0) (R_refl : (s : Store) → R s s)
    (R_trans : (a b c : Store) → R a b → R b c → R a c) where
  pub pure-Within : {A : Type 0} (a : A) → Within R (pure a)
  unfolding pure
  pure-Within a = R_refl

  pub throw-Within : (A : Type 0) (message : String) → Within R (throw {A = A} message)
  unfolding throw
  throw-Within A message = R_refl

  >>=-Within_of :
      {A B : Type 0} (P : A → Type 0) (m : Method A) (f : A → Method B)
      → Within R m
      → Yields P m
      → ((a : A) → P a → Within R (f a))
      → Within R (m >>= f)
  unfolding ◌>>=◌
  >>=-Within_of {A} {B} P m f hm hp hf s = go (m s) (hm s) (hp s)
    where
      go :
          (x : Result A × Store)
          → R s x.1
          → Meets P x.0
          → (let (r, s') = x in
              let y : Result B × Store = elim r [ ok a ↦ f a s' | err e ↦ (err e, s') ] in R s y.1)
      go (ok a, s') k p = R_trans s s' _ k (hf a p s')
      go (err e, s') k p = k

  >>=-Within :
      {A B : Type 0} (m : Method A) (f : A → Method B)
      → Within R m
      → ((a : A) → Within R (f a))
      → Within R (m >>= f)
  unfolding ◌>>=◌
  >>=-Within {A} {B} m f hm hf s = go (m s) (hm s)
    where
      go :
          (x : Result A × Store)
          → R s x.1
          → (let (r, s') = x in
              let y : Result B × Store = elim r [ ok a ↦ f a s' | err e ↦ (err e, s') ] in R s y.1)
      go (ok a, s') k = R_trans s s' _ k (hf a s')
      go (err e, s') k = k

  if-Within :
      {A : Type 0} (b : Bool) (m k : Method A)
      → Within R m
      → Within R k
      → Within R (if b then m else k)
  if-Within true m k p q = p
  if-Within false m k p q = q

  required-Within : (x : Option String) (field : String) → Within R (required x field)
  unfolding required
  required-Within none field = throw-Within _ _
  required-Within (some v) field =
      if-Within (v == "") (throw (field <> " is required")) (pure v) (throw-Within _ _)
        (pure-Within v)

  pub found-Within :
      {A : Type 0} (o : Option A) (message : String)
      → Within R (elim o as (λ _. Method A) [ none ↦ throw message | some a ↦ pure a ])
  found-Within none message = throw-Within _ message
  found-Within (some a) message = pure-Within a

  pub normalize_action-Within : (action : String) → Within R (normalize_action action)
  unfolding normalize_action
  normalize_action-Within action =
      if-Within (contains actions action) _ _ (pure-Within action) (throw-Within _ _)

  module _ (tid : String) (get : Within R (get_tenant tid))
      (touch : (now id : String)
        → Within R (update_tenant tid (with_subscriber now id (λ s. s)))) where
    find_by_mac-Within : (mac : String) → Within R (find_by_mac tid mac)
    unfolding find_by_mac
    find_by_mac-Within mac = >>=-Within (get_tenant tid) _ get (λ t. pure-Within _)

    list_by_subscriber-Within : (id : String) → Within R (list_by_subscriber tid id)
    unfolding list_by_subscriber
    list_by_subscriber-Within id = >>=-Within (get_tenant tid) _ get (λ t. pure-Within _)

    get_session-Within : (id : String) → Within R (get_session tid id)
    unfolding get_session
    get_session-Within id = >>=-Within (get_tenant tid) _ get (λ t. pure-Within _)

    get_state-Within : (id : String) → Within R (get_state tid id)
    unfolding get_state
    get_state-Within id = >>=-Within (get_tenant tid) _ get (λ t. pure-Within _)

    get_policy-Within : (id : String) → Within R (get_policy tid id)
    unfolding get_policy
    get_policy-Within id = >>=-Within (get_tenant tid) _ get (λ t. pure-Within _)

    from_device-Within :
        (mac : Option String) → Within R (resolve_subscriber_id_from_device tid mac)
    unfolding resolve_subscriber_id_from_device
    from_device-Within none = pure-Within none
    from_device-Within (some mac) = elim (Bool-cases (mac == "")) [
      | inl e ↦ rw e (pure-Within none)
      | inr e ↦
          rw e (>>=-Within (find_by_mac tid mac) _ (find_by_mac-Within mac) (λ _. pure-Within _))
    ]

    pub resolve-Within : (now : String) (input : Input) → Within R (resolve now tid input)
    unfolding resolve
    resolve-Within now input = >>=-Within (get_tenant tid) _ get λ _.
        >>=-Within _ _
          (if-Within (truthy input.subscriber_id) _ _ (pure-Within none)
            (from_device-Within input.mac_address))
          λ o. >>=-Within _ _ (found-Within (input.subscriber_id or_else o) _) λ id.
            >>=-Within (update_tenant tid _) _ (touch now id) λ _.
              >>=-Within (get_session tid id) _ (get_session-Within id) λ session.
                >>=-Within (list_by_subscriber tid id) _ (list_by_subscriber-Within id)
                  (λ devices. pure-Within _)

  module _ (tid : String) (get : Within R (get_tenant tid))
      (put : (c : Change) → Within R (update_tenant tid (change c))) where
    pub upsert_lease-Within : (now : String) (d : LeaseData) → Within R (upsert_lease now tid d)
    unfolding upsert_lease
    upsert_lease-Within now d = >>=-Within (get_tenant tid) _ get λ _.
        >>=-Within (required d.mac_address "macAddress") _ (required-Within _ _) λ mac.
          >>=-Within (required d.subscriber_id "subscriberId") _ (required-Within _ _) λ id.
            >>=-Within (required d.ip_address "ipAddress") _ (required-Within _ _)
              λ ip. >>=-Within (update_tenant tid _) _ (put (keep_lease now _)) (λ _. pure-Within _)

    pub upsert_session-Within :
        (now bng : String) (d : SessionData) → Within R (upsert_session now bng tid d)
    unfolding upsert_session
    upsert_session-Within now bng d = >>=-Within (get_tenant tid) _ get λ _.
        >>=-Within (required d.subscriber_id "subscriberId") _ (required-Within _ _) λ id.
          >>=-Within (required d.assigned_ip "assignedIp") _ (required-Within _ _)
            λ ip. >>=-Within (update_tenant tid _) _ (put (keep_session now _)) (λ _. pure-Within _)

    pub stop_session-Within : (now id : String) → Within R (stop_session now tid id)
    unfolding stop_session
    stop_session-Within now id = >>=-Within (get_tenant tid) _ get λ t.
        elim (Option-cases (Dict.lookup id t.radius_sessions)) [
          | inl e ↦ rw e (pure-Within none)
          | inr (x, e) ↦
              rw e (
                >>=-Within (update_tenant tid _) _ (put (lose_session now id)) (λ _. pure-Within _))
        ]

    apply_policy-Within :
        (now bng : String) (r : Resolved) (action : String) (reason : Option String)
        → r.tenant_id ≡ tid
        → Within R (apply_policy now bng r action reason)
    unfolding apply_policy
    apply_policy-Within now bng r action reason same =
        let back = sym same in
        let get' = subst (λ x. Within R (get_tenant x)) back get in
        let put' : (c : Change) → Within R (update_tenant r.tenant_id (change c)) =
          λ c. subst (λ x. Within R (update_tenant x (change c))) back (put c) in
        >>=-Within _ _ (found-Within (or_null r.enforcement_ip) _) λ ip.
          >>=-Within (get_tenant r.tenant_id) _ get' λ _.
            >>=-Within (normalize_action action) _ (normalize_action-Within action) λ a.
              >>=-Within (update_tenant r.tenant_id _) _ (put' (keep_bng_state _))
                (λ _. pure-Within _)

    pub apply-Within : (now bng : String) (payload : Payload) → Within R (apply now bng tid payload)
    unfolding apply
    apply-Within now bng payload =
        >>=-Within_of (λ r. r.tenant_id ≡ tid) _ _
          (resolve-Within tid get (λ now id. put (keep_subscriber now id)) now payload.input)
          (resolve-Yields now tid payload.input)
          λ r same.
            >>=-Within _ _ (apply_policy-Within now bng r payload.action payload.reason same)
              λ state.
                >>=-Within (get_tenant tid) _ get
                  λ _. >>=-Within (update_tenant tid _) _ (put (keep_policy _)) (λ _. pure-Within _)
