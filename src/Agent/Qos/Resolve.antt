-- ===== src/Agent/Qos/Resolve.antt =====
-- gateway-agent/src/category-domains.js and dns-resolve-cache.js. The queries for the domains that
-- are not cached run side by side in the source; here they are answered in the order in which they
-- are made.
use guardtime.Base.{
  ℕ, ◌+◌, String, string_eq, Option, none, some, List, [], ◌∷◌, ◌++◌, contains, ltb, if◌then◌else◌,
}
use guardtime.Base.Dict
use guardtime.Base.Dict.{Dict}
use guardtime.Agent.Host.{Host, Result, ok, err}

abbrev pub category_domains : Dict String (List String)
category_domains =
    (
      "GAMING",
      "steampowered.com" ∷ "epicgames.com" ∷ "xboxlive.com" ∷ "playstation.net" ∷ "roblox.com" ∷ [],
    )
    ∷ ("STREAMING", "youtube.com" ∷ "googlevideo.com" ∷ "netflix.com" ∷ "twitch.tv" ∷ [])
    ∷ ("SOCIAL", "instagram.com" ∷ "tiktok.com" ∷ "snapchat.com" ∷ "facebook.com" ∷ [])
    ∷ []

-- The names that every JavaScript object has are no categories.
unfoldable pub domains_for_category : String → List String
domains_for_category category = elim (Dict.lookup category category_domains) [
  | none ↦ []
  | some ds ↦ ds
]

pub record Entry : Type 0 where
  pub ips : List String
  pub expires_at : ℕ

abbrev pub Cache : Type 0
Cache = Dict String Entry

-- `set.add`, on a set in insertion order.
abbrev pub add_once : List String → String → List String
add_once known ip = if contains known ip then known else known ++ ip ∷ []

unfoldable pub add_all : (known ips : List String) → List String
add_all known [] = known
add_all known (ip ∷ ips) = add_all (add_once known ip) ips

-- `dns.resolve4`
pub record Resolver (H : Host) : Type 0 where
  pub resolve4 : (domain : String) → H.State → Result (List String) × H.State

abbrev pub is_fresh :
    (now : ℕ) → Option Entry → List String → (List String → List String) → List String
is_fresh now none otherwise use_it = otherwise
is_fresh now (some e) otherwise use_it = if ltb now e.expires_at then use_it e.ips else otherwise

-- The domains whose entry has not expired, in the first, synchronous part of each query.
unfoldable pub add_cached : (now : ℕ) → Cache → List String → (results : List String) → List String
unfolding add_all
add_cached now cache [] results = results
add_cached now cache (d ∷ ds) results =
    add_cached now cache ds (is_fresh now (Dict.lookup d cache) results (add_all results))

unfoldable pub missing : (now : ℕ) → Cache → List String → List String
missing now cache [] = []
missing now cache (d ∷ ds) =
    let rest = missing now cache ds in is_fresh now (Dict.lookup d cache) (d ∷ rest) (λ _. rest)

abbrev stale_ips : Option Entry → List String
stale_ips none = []
stale_ips (some e) = e.ips

module _ {H : Host} (R : Resolver H) (ttl_ms : ℕ) where
  -- A domain that does not resolve is served from its entry, though that has expired.
  unfoldable pub resolve_missing :
      (now : ℕ)
      → List String
      → (results : List String) → Cache × H.State
      → List String × Cache × H.State
  unfolding add_all
  resolve_missing now [] results (cache, s) = (results, cache, s)
  resolve_missing now (d ∷ ds) results (cache, s) =
      let (r, s1) = R.resolve4 d s in
      elim r [
        | ok ips ↦
            resolve_missing now ds (add_all results ips)
              (Dict.insert d (record { ips = ips; expires_at = now + ttl_ms }) cache, s1)
        | err _ ↦
            resolve_missing now ds (add_all results (stale_ips (Dict.lookup d cache))) (cache, s1)
      ]

  unfoldable pub resolve_all : List String → Cache × H.State → List String × Cache × H.State
  unfolding add_cached missing resolve_missing
  resolve_all domains (cache, s) =
      let now = H.now s in
      resolve_missing now (missing now cache domains) (add_cached now cache domains []) (cache, s)
