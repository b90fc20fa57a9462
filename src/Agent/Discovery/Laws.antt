-- ===== src/Agent/Discovery/Laws.antt =====
-- What a merged device is.
use guardtime.Base.{
  String, ◌≡◌, refl, ap, ◌∙◌, ◌==◌, string_eq, Bool, true, false, ◌&&◌, Option, none, some, List,
  [], ◌∷◌, truthy, arith, Bool-cases, inl, inr, if◌then◌else◌,
}
use guardtime.Base.Dict
use guardtime.Base.Dict.{Dict, lookup-insert}
use guardtime.Agent.Discovery.{Device, fill, absorb, merge_into}

-- The first address that is there, among those that the entries for a MAC address give.
abbrev pub first_address :
    (mac : String) → (field : Device → Option String) → List Device → Option String
first_address mac field [] = none
first_address mac field (e ∷ es) =
    if mac == e.mac_address && truthy (field e) then field e else first_address mac field es

abbrev pub is_listed : (mac : String) → List Device → Bool
is_listed mac [] = false
is_listed mac (e ∷ es) = if mac == e.mac_address then true else is_listed mac es

-- What the loop holds for a MAC address, step by step.
track : (mac : String) → Option Device → List Device → Option Device
track mac o [] = o
track mac o (e ∷ es) = track mac (if mac == e.mac_address then some (absorb o e) else o) es

lookup-merge_into :
    (mac : String) (es : List Device) (d : Dict String Device)
    → Dict.lookup mac (merge_into d es) ≡ track mac (Dict.lookup mac d) es
unfolding merge_into track
lookup-merge_into mac [] d = refl
lookup-merge_into mac (e ∷ es) d =
    lookup-merge_into mac es (Dict.insert e.mac_address (absorb (Dict.lookup e.mac_address d) e) d)
    ∙ ap (λ o. track mac o es)
        (ground (arith, lookup-insert mac e.mac_address (absorb (Dict.lookup e.mac_address d) e) d))

-- What the loop makes of one address field.
collect :
    (mac : String) → (field : Device → Option String) → Option String → List Device → Option String
collect mac field a [] = a
collect mac field a (e ∷ es) =
    collect mac field (if mac == e.mac_address then fill a (field e) else a) es

collect-kept :
    (mac : String) (field : Device → Option String) (a : Option String) (es : List Device)
    → truthy a ≡ true
    → collect mac field a es ≡ a
unfolding collect
collect-kept mac field a [] h = refl
collect-kept mac field a (e ∷ es) h =
    ap (λ x. collect mac field x es) (ground arith) ∙ collect-kept mac field a es h

collect-first_address :
    (mac : String) (field : Device → Option String) (es : List Device)
    → collect mac field none es ≡ first_address mac field es
unfolding collect
collect-first_address mac field [] = refl
collect-first_address mac field (e ∷ es) =
    elim (Bool-cases (mac == e.mac_address && truthy (field e))) [
      | inl found ↦
          let taken : (if mac == e.mac_address then fill none (field e) else none) ≡ field e =
            ground arith in
          ap (λ x. collect mac field x es) taken
          ∙ (collect-kept mac field (field e) es (ground arith) ∙ ground arith)
      | inr passed ↦
          let left : (if mac == e.mac_address then fill none (field e) else none) ≡ none =
            ground arith in
          ap (λ x. collect mac field x es) left
          ∙ (collect-first_address mac field es ∙ ground arith)
    ]

abbrev device_of : (mac : String) → (a b : Option String) → Device
device_of mac a b = record { mac_address = mac; ip_address = a; ipv6_address = b }

abbrev ip_field : Device → Option String
ip_field d = d.ip_address

abbrev ipv6_field : Device → Option String
ipv6_field d = d.ipv6_address

track-some :
    (mac : String) (es : List Device) (m : String) (a b : Option String)
    → track mac (some (device_of m a b)) es
      ≡ some (device_of m (collect mac ip_field a es) (collect mac ipv6_field b es))
unfolding track collect
track-some mac [] m a b = refl
track-some mac (e ∷ es) m a b = elim (Bool-cases (mac == e.mac_address)) [
  | inl same ↦ rw same (track-some mac es m (fill a e.ip_address) (fill b e.ipv6_address))
  | inr other ↦ rw other (track-some mac es m a b)
]

track-none :
    (mac : String) (es : List Device)
    → track mac none es ≡ (
        if is_listed mac es
        then some (device_of mac (collect mac ip_field none es) (collect mac ipv6_field none es))
        else none)
unfolding track collect
track-none mac [] = refl
track-none mac (e ∷ es) = elim (Bool-cases (mac == e.mac_address)) [
  | inl same ↦
      let at : e.mac_address ≡ mac = ground arith in
      rw same (
        track-some mac es e.mac_address (fill none e.ip_address) (fill none e.ipv6_address)
        ∙ ap
            (λ m. some (
              device_of m (collect mac ip_field (fill none e.ip_address) es)
                (collect mac ipv6_field (fill none e.ipv6_address) es)))
            at)
  | inr other ↦ rw other (track-none mac es)
]

-- Merging gives a device for exactly the MAC addresses that have an entry, and gives it the first
-- IPv4 address and the first IPv6 address that are there among the entries for its MAC address.
pub lookup-merge_by_mac :
    (mac : String) (es : List Device)
    → Dict.lookup mac (merge_into [] es) ≡ (
        if is_listed mac es
        then some (record {
          mac_address = mac;
          ip_address = first_address mac (λ d. d.ip_address) es;
          ipv6_address = first_address mac (λ d. d.ipv6_address) es;
        })
        else none)
unfolding Dict.lookup
lookup-merge_by_mac mac es =
    lookup-merge_into mac es []
    ∙ (track-none mac es
        ∙ ap
            (λ (x : Option String × Option String).
              if is_listed mac es then some (device_of mac x.0 x.1) else none)
            (ap (λ y. (y, collect mac ipv6_field none es)) (collect-first_address mac ip_field es)
              ∙ ap (λ y. (first_address mac ip_field es, y))
                  (collect-first_address mac ipv6_field es)))
