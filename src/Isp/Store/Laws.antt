-- ===== src/Isp/Store/Laws.antt =====
-- What holds after a method has returned, step by step.
use guardtime.Base.{String, ◌≡◌, refl, ap, sym, subst, Bool, true, false, string_eq, if◌then◌else◌}
use guardtime.Base.Dict
use guardtime.Base.Dict.{lookup-insert_self}
use guardtime.Base.Result.{Result, ok, err}
use guardtime.Isp.Store.{
  Tenant, Store, Method, ◌>>=◌, pure, throw, get_tenant, tenant_of, update_tenant,
}

abbrev pub Holds : {A : Type 0} → (A → Store → Type 0) → Result A × Store → Type 0
Holds Q (ok a, s) = Q a s
Holds Q (err _, s) = Unit

-- If the method, called on the store, returns, then `Q` holds of the result and the store it leaves.
abbrev pub Ends : {A : Type 0} → (A → Store → Type 0) → Method A → Store → Type 0
Ends Q m s = Holds Q (m s)

module _ {A : Type 0} (Q : A → Store → Type 0) where
  pub Ends-eq-ok :
      (m : Method A) (s : Store) {a : A} {s' : Store} → Ends Q m s → m s ≡ (ok a, s') → Q a s'
  Ends-eq-ok m s h e = subst (Holds Q) e h

  pub pure-Ends : (a : A) (s : Store) → Q a s → Ends Q (pure a) s
  unfolding pure
  pure-Ends a s q = q

  pub throw-Ends : (message : String) (s : Store) → Ends Q (throw {A = A} message) s
  unfolding throw
  throw-Ends message s = tt

  pub >>=-Ends :
      {B : Type 0} (m : Method B) (f : B → Method A) (s : Store)
      → ((b : B) (s' : Store) → m s ≡ (ok b, s') → Ends Q (f b) s')
      → Ends Q (m >>= f) s
  unfolding ◌>>=◌
  >>=-Ends {B} m f s h = go (m s) refl
    where
      go :
          (x : Result B × Store)
          → m s ≡ x
          → Holds Q (
              let (r, s') = x in
              let y : Result A × Store = elim r [ ok b ↦ f b s' | err e ↦ (err e, s') ] in y)
      go (ok b, s') e = h b s' e
      go (err e, s') _ = tt

  pub if-Ends :
      (b : Bool) (m k : Method A) (s : Store)
      → (b ≡ true → Ends Q m s)
      → (b ≡ false → Ends Q k s)
      → Ends Q (if b then m else k) s
  if-Ends true m k s p q = p refl
  if-Ends false m k s p q = q refl

  -- An assignment to the tenant, and a step after it.
  pub update_tenant-Ends :
      (tid : String) (f : Tenant → Tenant) (k : Unit {0} → Method A) (s : Store)
      → Ends Q (k tt) (Dict.insert tid (f (tenant_of tid s)) s)
      → Ends Q (update_tenant tid f >>= k) s
  unfolding ◌>>=◌ update_tenant
  update_tenant-Ends tid f k s h = h

-- Reading the tenant that has just been stored.
get_tenant-stored :
    (tid : String) (t : Tenant) (s : Store)
    → get_tenant tid (Dict.insert tid t s) ≡ (ok t, Dict.insert tid t s)
unfolding get_tenant
get_tenant-stored tid t s = rw (lookup-insert_self tid t s, get_tenant) refl

pub get_tenant-insert :
    {A : Type 0} (tid : String) (t : Tenant) (k : Tenant → Method A) (s : Store)
    → (get_tenant tid >>= k) (Dict.insert tid t s) ≡ k t (Dict.insert tid t s)
unfolding ◌>>=◌
get_tenant-insert {A} tid t k s =
    ap
      (λ x.
        let (r, s1) = x in
        let y : Result A × Store = elim r [ ok a ↦ k a s1 | err e ↦ (err e, s1) ] in y)
      (get_tenant-stored tid t s)

-- A step after reading it.
pub get_tenant-Ends :
    {A : Type 0} (Q : A → Store → Type 0) (tid : String) (t : Tenant) (k : Tenant → Method A)
    (s : Store)
    → Ends Q (k t) (Dict.insert tid t s)
    → Ends Q (get_tenant tid >>= k) (Dict.insert tid t s)
get_tenant-Ends Q tid t k s h = subst (Holds Q) (sym (get_tenant-insert tid t k s)) h
