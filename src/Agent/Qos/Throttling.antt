-- ===== src/Agent/Qos/Throttling.antt =====
-- The throttle filters that an interface holds, by the commands that a cycle of the QoS controller
-- runs.
pub mod Clearing
pub mod Cycles
pub mod Limits
use mathlib.Core.List.{flat_map, append-nil}
use guardtime.Base.{
  ℕ, ◌+◌, String, ◌≡◌, ◌≢◌, refl, sym, ap, subst, ◌∙◌, ◌==◌, string_eq, nat_eq, Bool, true, false,
  not, ◌&&◌, ◌||◌, Option, none, some, List, [], ◌∷◌, ◌++◌, map, filter, length, ltb, if◌then◌else◌,
  arith, inl, inr, Bool-cases,
}
use guardtime.Agent.Host.{
  Host, World, Command, Result, ok, err, Action, ◌>>◌, done, when, for_each, run_command,
}
use guardtime.Agent.Host.Laws.{
  >>=-eq-ok, run_command-eq-ok, run_command-applied, Adds, Adds-done, Adds->>=, Adds->>, Adds-when,
  Adds-when_nil, Adds-if, Adds-for_each, Adds-for_each_nil, Keeps, Keeps->>=, Keeps->>, Keeps-when,
  Keeps-for_each,
}
use guardtime.Agent.Config.{Config}
use guardtime.Agent.Target.{Target, BandwidthLimit}
use guardtime.Agent.Metrics.{Metrics, inc}
use guardtime.Agent.Qos.Marks.{bandwidth_class_id, bandwidth_class_id-reserved}
use guardtime.Agent.Qos.Resolve.{Resolver}
use guardtime.Agent.Qos.{
  throttle_class, throttle_filter, bandwidth_filter, Match, throttled, all_interfaces, with_present,
  run, try_run, ensure_qdisc, clear_filters, add_throttle_filters, add_throttle_filters_v6,
  throttle_target, sync_throttling, ensure_bandwidth_class, add_bandwidth_filter, add_filters,
  limit_interface, apply_directional_limit, apply_direction, Shaping, resolve_category,
  limit_download, limit_upload, download_interfaces, upload_interfaces, matches_of, apply_limit,
  apply_limits, limit_targets, sync_bandwidth_limits, sync, has_limits, text_of,
}

abbrev pub last : List String → String
last [] = ""
last (x ∷ []) = x
last (x ∷ y ∷ ys) = last (y ∷ ys)

abbrev pub begins_filter : List String → Bool
begins_filter (a ∷ b ∷ _) = a == "filter" && b == "add"
begins_filter _ = false

-- A command that adds a filter for the throttle class.
abbrev pub is_throttle_filter : List String → Bool
is_throttle_filter args = begins_filter args && last args == throttle_class

-- A command that adds a filter for a protocol on an interface.
abbrev pub is_for : (iface protocol : String) → List String → Bool
is_for iface protocol (_ ∷ _ ∷ _ ∷ d ∷ _ ∷ p ∷ _) = d == iface && p == protocol
is_for iface protocol _ = false

abbrev pub names : (protocol : String) → List String → Bool
names protocol (_ ∷ p ∷ _) = p == protocol
names protocol _ = false

-- A command that removes the filters of a protocol on an interface: it deletes them, or the whole
-- queueing discipline of the interface.
abbrev pub removes : (iface protocol : String) → List String → Bool
removes iface protocol (object ∷ verb ∷ _ ∷ d ∷ rest) =
    verb == "del" && (d == iface && (object == "qdisc" || names protocol rest))
removes iface protocol _ = false

abbrev pub effect :
    (iface protocol : String) → List String → List (List String) → List (List String)
effect iface protocol args held =
    if is_throttle_filter args
    then if is_for iface protocol args then held ++ args ∷ [] else held
    else if removes iface protocol args
    then []
    else held

-- The filters of a protocol for the throttle class that an interface holds after the commands of a
-- binary that have succeeded, by the documented effect of `filter add`, `filter del` and
-- `qdisc del`; the oldest first. Replacing a queueing discipline or a class by one of the same kind
-- leaves the filters alone.
abbrev pub held_filters : (binary iface protocol : String) → List Command → List (List String)
held_filters binary iface protocol [] = []
held_filters binary iface protocol (k ∷ ks) =
    let held = held_filters binary iface protocol ks in
    if k.binary == binary then effect iface protocol k.args held else held

-- The filters that a throttled device has on an interface.
abbrev pub filters_of : Option String → (String → List (List String)) → List (List String)
filters_of none f = []
filters_of (some a) f = if a == "" then [] else f a

abbrev pub device_filters : Config → (iface : String) → Target → List (List String)
device_filters c iface t =
    filters_of t.ip_address (λ a.
      throttle_filter iface "ip" "10" "ip" "src" a
      ∷ throttle_filter iface "ip" "11" "ip" "dst" a
      ∷ [])
    ++ (if c.enable_ipv6
        then filters_of t.ipv6_address (λ a.
          throttle_filter iface "ipv6" "12" "ip6" "src" a
          ∷ throttle_filter iface "ipv6" "13" "ip6" "dst" a
          ∷ [])
        else [])

-- All that a cycle should install.
abbrev pub throttle_spec : Config → List Target → List (List String)
throttle_spec c targets =
    flat_map (λ iface. flat_map (device_filters c iface) (throttled targets)) c.qos_interfaces

-- The protocols whose filters a cycle manages.
pub data Managed (c : Config) : (protocol : String) → Type 0 where
  ipv4 : Managed c "ip"
  ipv6 : c.enable_ipv6 ≡ true → Managed c "ipv6"

filter-append :
    (f : List String → Bool) (xs ys : List (List String))
    → filter f (xs ++ ys) ≡ filter f xs ++ filter f ys
unfolding filter
filter-append f [] ys = refl
filter-append f (x ∷ xs) ys = elim (Bool-cases (f x)) [
  | inl e ↦ rw e (ap (λ l. x ∷ l) (filter-append f xs ys))
  | inr e ↦ rw e (filter-append f xs ys)
]

pub filter-flat_map :
    {A : Type 0} (f : List String → Bool) (g : A → List (List String)) (xs : List A)
    → flat_map (λ x. filter f (g x)) xs ≡ filter f (flat_map g xs)
unfolding filter flat_map
filter-flat_map f g [] = refl
filter-flat_map f g (x ∷ xs) =
    ap (λ l. filter f (g x) ++ l) (filter-flat_map f g xs)
    ∙ sym (filter-append f (g x) (flat_map g xs))

abbrev pub view : Config → (iface protocol : String) → List Command → List (List String)
view c = held_filters c.tc_bin

module _ {H : Host} (c : Config) (live : c.dry_run ≡ false) (i p : String) where
  pub run-applied :
      (args : List String) (w : World H) (a : Unit {0}) (w' : World H)
      → run c args w ≡ (ok a, w')
      → w'.applied ≡ record { binary = c.tc_bin; args = args } ∷ w.applied
  unfolding run
  run-applied args w a w' h =
      let (r, w1, first, rest) =
        >>=-eq-ok (run_command c.dry_run c.tc_bin false args) (λ _. done) w h in
      cc (run_command-eq-ok c.dry_run live c.tc_bin args w first)

  -- A command that removes nothing adds itself if it is a filter of the interface and the protocol.
  view-run :
      (args : List String)
      → removes i p args ≡ false
      → Adds
          (view c i p)
          (run {H = H} c args)
          (filter (is_for i p) (if is_throttle_filter args then args ∷ [] else []))
  unfolding filter
  view-run args keeps w a w' h =
      rw (run-applied args w a w' h) (ground (arith, keeps, append-nil (view c i p w.applied)))

  Adds-throttle :
      (iface protocol prio word direction address : String)
      → Adds
          (view c i p)
          (run {H = H} c (throttle_filter iface protocol prio word direction address))
          (filter (is_for i p) (throttle_filter iface protocol prio word direction address ∷ []))
  unfolding string_eq
  Adds-throttle iface protocol prio word direction address w a w' h =
      view-run (throttle_filter iface protocol prio word direction address) refl w a w' h

  Adds-with_present :
      (o : Option String) (f : String → Action H (Unit {0})) (g : String → List (List String))
      → ((a : String) → Adds (view c i p) (f a) (filter (is_for i p) (g a)))
      → Adds (view c i p) (with_present o f) (filter (is_for i p) (filters_of o g))
  unfolding filter
  Adds-with_present none f g h = Adds-done (view c i p)
  Adds-with_present (some a) f g h = elim (Bool-cases (a == "")) [
    | inl e ↦ rw e (Adds-done (view c i p))
    | inr e ↦ rw e (h a)
  ]

  Adds-both :
      (m k : Action H (Unit {0})) (xs ys : List (List String))
      → Adds (view c i p) m (filter (is_for i p) xs)
      → Adds (view c i p) k (filter (is_for i p) ys)
      → Adds (view c i p) (m >> k) (filter (is_for i p) (xs ++ ys))
  Adds-both m k xs ys h g =
      subst (λ l. Adds (view c i p) (m >> k) l) (sym (filter-append (is_for i p) xs ys))
        (Adds->> (view c i p) m k _ _ h g)

  Adds-where :
      (b : Bool) (m : Action H (Unit {0})) (xs : List (List String))
      → Adds (view c i p) m (filter (is_for i p) xs)
      → Adds (view c i p) (when b m) (filter (is_for i p) (if b then xs else []))
  unfolding filter
  Adds-where true m xs h = h
  Adds-where false m xs h = Adds-done (view c i p)

  Adds-throttle_target :
      (iface : String) (t : Target)
      → Adds
          (view c i p)
          (throttle_target {H = H} c iface t)
          (filter (is_for i p) (device_filters c iface t))
  unfolding throttle_target add_throttle_filters add_throttle_filters_v6
  Adds-throttle_target iface t =
      Adds-both _ _ _ _
        (Adds-with_present t.ip_address _ _ (λ a.
          Adds-both _ _ (_ ∷ []) (_ ∷ []) (Adds-throttle iface "ip" "10" "ip" "src" a)
            (Adds-throttle iface "ip" "11" "ip" "dst" a)))
        (Adds-where c.enable_ipv6 _ _ (
          Adds-with_present t.ipv6_address _ _ (λ a.
            Adds-both _ _ (_ ∷ []) (_ ∷ []) (Adds-throttle iface "ipv6" "12" "ip6" "src" a)
              (Adds-throttle iface "ipv6" "13" "ip6" "dst" a))))

  -- The second loop of a cycle.
  pub Adds-throttle_all :
      (targets : List Target)
      → Adds
          (view c i p)
          (for_each {H = H} c.qos_interfaces
            λ iface. for_each (throttled targets) (throttle_target c iface))
          (filter (is_for i p) (throttle_spec c targets))
  Adds-throttle_all targets =
      let rules = λ (iface : String). flat_map (device_filters c iface) (throttled targets) in
      subst
        (λ l.
          Adds (view c i p)
            (for_each {H = H} c.qos_interfaces
              λ iface. for_each (throttled targets) (throttle_target c iface))
            l)
        (filter-flat_map (is_for i p) rules c.qos_interfaces)
        (Adds-for_each (view c i p) _ (λ iface. filter (is_for i p) (rules iface))
          (λ iface.
            subst
              (λ l.
                Adds {H = H} (view c i p) (for_each (throttled targets) (throttle_target c iface))
                  l)
              (filter-flat_map (is_for i p) (device_filters c iface) (throttled targets))
              (Adds-for_each (view c i p) (throttle_target c iface)
                (λ t. filter (is_for i p) (device_filters c iface t)) (Adds-throttle_target iface)
                (throttled targets)))
          c.qos_interfaces)

pub last-bandwidth_filter :
    (iface id : String) (m : Match) → last (bandwidth_filter iface id m) ≡ id
last-bandwidth_filter iface id m = ground arith

-- A filter of another class.
pub bandwidth_filter-aside :
    (iface id : String) (m : Match)
    → id ≢ throttle_class
    → is_throttle_filter (bandwidth_filter iface id m) ≡ false
bandwidth_filter-aside iface id m h = let e = last-bandwidth_filter iface id m in ground arith

pub class-ne :
    (device_id : String) (category : Option String) (direction : String)
    → bandwidth_class_id device_id category direction ≢ throttle_class
class-ne device_id category direction =
    bandwidth_class_id-reserved device_id category direction throttle_class (omega arith)
