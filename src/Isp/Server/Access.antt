-- ===== src/Isp/Server/Access.antt =====
-- Who may change the store.
use guardtime.Base.{
  ◌==◌, string_eq, ◌≡◌, refl, ◌⊎◌, inl, inr, Bool, true, false, String, Option, none, some,
  if◌then◌else◌,
}
use guardtime.Isp.Store.{Store}
use guardtime.Isp.Settings.{Settings}
use guardtime.Isp.Server.{
  Request, Reply, health, reply, is_admitted, rejected, not_found, is_post, look_up,
  subscriber_segment, route, route_get, route_post,
}

-- A reply that tells nothing of the store.
abbrev pub IsBlind : Reply → Type 0
IsBlind x = (x ≡ rejected) ⊎ ((x ≡ not_found) ⊎ (x ≡ reply 200 health))

Untouched : Store → Reply × Store → Type 0
Untouched s x = IsBlind x.0 × (x.1 ≡ s)

if-either :
    (P : Reply × Store → Type 0) (b : Bool) (x y : Reply × Store)
    → P x
    → P y
    → P (if b then x else y)
if-either P true x y p q = p
if-either P false x y p q = q

blind : (s : Store) (x : Reply) → IsBlind x → Untouched s (x, s)
unfolding Untouched
blind s x b = (b, refl)

if-found :
    (s : Store) (admitted : Bool) (f : String → Reply × Store) (o : Option String)
    → admitted ≡ false
    → Untouched s
        (elim o [ none ↦ (not_found, s) | some t ↦ if admitted then f t else (rejected, s) ])
if-found s admitted f none h = blind s _ (inr (inl refl))
if-found s admitted f (some t) h = rw h (blind s _ (inl refl))

module _ (c : Settings) (decode : String → Option String) (now : String) where
  route_get-Untouched :
      (r : Request) (s : Store) → is_admitted c r ≡ false → Untouched s (route_get c decode now r s)
  unfolding route_get
  route_get-Untouched r s h =
      let no = blind s rejected (inl refl) in
      let segment =
        if-found s (is_admitted c r) (λ t. look_up c decode now r t s)
          (subscriber_segment r.pathname) h in
      rw h (
        if-either (Untouched s) (r.pathname == "/health") _ _ (blind s _ (inr (inr refl)))
          (if-either (Untouched s) (r.pathname == "/isp/tenants") _ _ no segment))

  route_post-Untouched :
      (r : Request) (s : Store)
      → is_admitted c r ≡ false
      → Untouched s (route_post c decode now r s)
  unfolding route_post
  route_post-Untouched r s h =
      let no = blind s rejected (inl refl) in
      rw h (
        if-either (Untouched s) (is_post "/isp/radius/session" r) _ _ no (
          if-either (Untouched s) (is_post "/isp/radius/stop" r) _ _ no (
            if-either (Untouched s) (is_post "/isp/dhcp/lease" r) _ _ no (
              if-either (Untouched s) (is_post "/isp/policy/apply" r) _ _ no
                (blind s _ (inr (inl refl)))))))

  -- Whatever a request without the adapter's token asks for, where one is set, the store stays as it
  -- was, and the reply tells nothing of it: it is the rejection, that nothing is found, or the
  -- service's health.
  pub route-denied :
      (r : Request) (s : Store)
      → is_admitted c r ≡ false
      → IsBlind (route c decode now r s).0 × ((route c decode now r s).1 ≡ s)
  unfolding route Untouched
  route-denied r s h =
      if-either (Untouched s) (r.method == "GET") _ _ (route_get-Untouched r s h)
        (route_post-Untouched r s h)
