-- ===== src/Agent/Qos/Throttling/Limits.antt =====
-- What the bandwidth limits of a cycle make of the throttle filters of an interface.
use guardtime.Base.{
  ℕ, ◌+◌, ◌≤◌, ◌<◌, String, ◌≡◌, ◌≢◌, refl, sym, ap, subst, ◌∙◌, ◌==◌, string_eq, nat_eq, Bool,
  true, false, ◌&&◌, Option, none, some, List, [], ◌∷◌, filter, ltb, if◌then◌else◌, inl, inr, ◌⊎◌,
  Bool-cases, arith,
}
use guardtime.Agent.Host.{Host, World, Command, Result, ok, err, Action, ◌>>◌, done, run_command}
use guardtime.Agent.Rotation.Laws.{eq-true}
use guardtime.Agent.Config.{Config}
use guardtime.Agent.Target.{Target, BandwidthLimit}
use guardtime.Agent.Metrics.{Metrics, inc}
use guardtime.Agent.Qos.Marks.{bandwidth_class_id}
use guardtime.Agent.Qos.Resolve.{Resolver}
use guardtime.Agent.Qos.{
  throttle_class, bandwidth_filter, Match, run, try_run, ensure_bandwidth_class,
  add_bandwidth_filter, add_filters, limit_interface, apply_directional_limit, apply_direction,
  Shaping, resolve_category, limit_download, limit_upload, download_interfaces, upload_interfaces,
  matches_of, apply_limit, apply_limits, limit_targets, sync_bandwidth_limits, has_limits, text_of,
}
use guardtime.Agent.Qos.Throttling.{
  is_throttle_filter, removes, view, bandwidth_filter-aside, class-ne,
}

-- A command that removes the queueing discipline of an interface, and with it all of its filters.
abbrev pub is_drop : (iface : String) → List String → Bool
is_drop iface (object ∷ verb ∷ _ ∷ d ∷ _) = verb == "del" && (d == iface && object == "qdisc")
is_drop iface _ = false

-- How many of them have succeeded.
abbrev pub drops : (binary iface : String) → List Command → ℕ
drops binary iface [] = 0
drops binary iface (k ∷ ks) =
    let n = drops binary iface ks in if k.binary == binary && is_drop iface k.args then n + 1 else n

-- What may come of the filters of an interface: they stay, or they are lost with the queueing
-- discipline of the interface.
pub data Later (c : Config) (i p : String) (a b : List Command) : Type 0 where
  kept : view c i p b ≡ view c i p a → drops c.tc_bin i a ≤ drops c.tc_bin i b → Later c i p a b
  dropped : view c i p b ≡ [] → drops c.tc_bin i a < drops c.tc_bin i b → Later c i p a b

Later-refl : {c : Config} {i p : String} {a : List Command} → Later c i p a a
Later-refl = kept refl (omega arith)

also :
    {c : Config} {i p : String} {x y z : List Command}
    → Later c i p y z
    → Later c i p x y
    → Later c i p x z
also (kept e n) (kept f m) = kept (e ∙ f) (omega (arith, n, m))
also (kept e n) (dropped f m) = dropped (e ∙ f) (omega (arith, n, m))
also (dropped e n) (kept f m) = dropped e (omega (arith, n, m))
also (dropped e n) (dropped f m) = dropped e (omega (arith, n, m))

Later-log :
    (c : Config) (i p : String) (args : List String) (log : List Command)
    → is_throttle_filter args ≡ false
    → (removes i p args ≡ true → is_drop i args ≡ true)
    → Later c i p log (record { binary = c.tc_bin; args = args } ∷ log)
Later-log c i p args log h d = elim (Bool-cases (removes i p args)) [
  | inl r ↦
      let lost = d r in
      dropped (ground (arith, h, r, eq-true c.tc_bin c.tc_bin refl))
        (ground (arith, lost, eq-true c.tc_bin c.tc_bin refl))
  | inr r ↦ kept (ground (arith, h, r)) (ground arith)
]

module _ {H : Host} (c : Config) (i p : String) where
  run_command-log :
      (ignore_failure : Bool) (args : List String) (w : World H)
      → ((run_command c.dry_run c.tc_bin ignore_failure args w).1.applied ≡ w.applied)
        ⊎ ((run_command c.dry_run c.tc_bin ignore_failure args w).1.applied
            ≡ record { binary = c.tc_bin; args = args } ∷ w.applied)
  unfolding run_command
  run_command-log ignore_failure args w = ground arith

  >>-done : {A : Type 0} (m : Action H A) (w : World H) → ((m >> done) w).1 ≡ (m w).1
  >>-done {A} m w = go (m w)
    where
      go :
          (x : Result A × World H)
          → (let (r, w1) = x in
              let y : Result (Unit {0}) × World H = elim r [
                | ok a ↦ done w1
                | err e ↦ (err e, w1)
              ] in
              y).1
            ≡ x.1
      go (ok a, w1) = refl
      go (err e, w1) = refl

  Later-command :
      (ignore_failure : Bool) (args : List String) (w : World H)
      → is_throttle_filter args ≡ false
      → (removes i p args ≡ true → is_drop i args ≡ true)
      → Later c i p w.applied
          ((run_command c.dry_run c.tc_bin ignore_failure args >> done) w).1.applied
  Later-command ignore_failure args w h d =
      let m = run_command {H = H} c.dry_run c.tc_bin ignore_failure args in
      let same = ap (λ (x : World H). x.applied) (>>-done m w) in
      elim (run_command-log ignore_failure args w) [
        | inl e ↦ subst (Later c i p w.applied) (sym (same ∙ e)) Later-refl
        | inr e ↦
            subst (Later c i p w.applied) (sym (same ∙ e)) (Later-log c i p args w.applied h d)
      ]

  Later-run :
      (args : List String) (w : World H)
      → is_throttle_filter args ≡ false
      → (removes i p args ≡ true → is_drop i args ≡ true)
      → Later c i p w.applied (run c args w).1.applied
  unfolding run
  Later-run args w h d = Later-command false args w h d

  -- The rollback of `applyDirectionalLimit`.
  Later-drop :
      (iface : String) (w : World H)
      → Later c i p w.applied
          (try_run c ("qdisc" ∷ "del" ∷ "dev" ∷ iface ∷ "root" ∷ []) w).1.applied
  unfolding try_run string_eq
  Later-drop iface w = Later-command true _ w refl (λ r. ground (arith, r))

  Later-add_bandwidth_filter :
      (iface id : String) (m : Match) (w : World H)
      → id ≢ throttle_class
      → Later c i p w.applied (add_bandwidth_filter c iface id m w).1.applied
  unfolding add_bandwidth_filter string_eq
  Later-add_bandwidth_filter iface id m w h =
      Later-run (bandwidth_filter iface id m) w (bandwidth_filter-aside iface id m h)
        (λ r. absurd (cc r))

  add_filters-Later :
      (iface id : String) (ms : List Match) (n : ℕ) (w : World H)
      → id ≢ throttle_class
      → Later c i p w.applied (add_filters c iface id ms n w).2.applied
  unfolding add_filters
  add_filters-Later iface id [] n w h = Later-refl
  add_filters-Later iface id (m ∷ ms) n w h =
      go (add_bandwidth_filter c iface id m w) (Later-add_bandwidth_filter iface id m w h)
        (λ w1. add_filters-Later iface id ms (n + 1) w1 h)
    where
      go :
          (x : Result (Unit {0}) × World H)
          → Later c i p w.applied x.1.applied
          → ((w1 : World H)
              → Later c i p w1.applied (add_filters c iface id ms (n + 1) w1).2.applied)
          → (let (r, w1) = x in
              let y : Result (Unit {0}) × ℕ × World H = elim r [
                | err e ↦ (err e, n, w1)
                | ok _ ↦ add_filters c iface id ms (n + 1) w1
              ] in
              Later c i p w.applied y.2.applied)
      go (ok a, w1) k rest = also (rest w1) k
      go (err e, w1) k rest = k

  limit_interface-Later :
      (id : String) (rate : ℕ) (ms : List Match) (iface : String) (n : ℕ) (w : World H)
      → id ≢ throttle_class
      → Later c i p w.applied (limit_interface c id rate ms iface n w).2.applied
  unfolding limit_interface ensure_bandwidth_class string_eq
  limit_interface-Later id rate ms iface n w h =
      go (ensure_bandwidth_class c iface id rate w) (Later-run _ w refl (λ r. absurd (cc r)))
    where
      go :
          (x : Result (Unit {0}) × World H)
          → Later c i p w.applied x.1.applied
          → (let (r, w1) = x in
              let y : Result (Unit {0}) × ℕ × World H = elim r [
                | err e ↦ (err e, n, w1)
                | ok _ ↦ add_filters c iface id ms n w1
              ] in
              Later c i p w.applied y.2.applied)
      go (ok a, w1) k = also (add_filters-Later iface id ms n w1 h) k
      go (err e, w1) k = k

  apply_directional_limit-Later :
      (ifaces : List String) (id : String) (rate : ℕ) (ms : List Match) (n : ℕ) (m : Metrics)
      (w : World H)
      → id ≢ throttle_class
      → Later c i p w.applied (apply_directional_limit c ifaces id rate ms n (m, w)).2.applied
  unfolding apply_directional_limit string_eq
  apply_directional_limit-Later [] id rate ms n m w h = Later-refl
  apply_directional_limit-Later (iface ∷ rest) id rate ms n m w h =
      go (limit_interface c id rate ms iface n w) (limit_interface-Later id rate ms iface n w h)
        (λ k m1 w1. apply_directional_limit-Later rest id rate ms k m1 w1 h)
    where
      del : List String
      del = "qdisc" ∷ "del" ∷ "dev" ∷ iface ∷ "root" ∷ []

      go :
          (x : Result (Unit {0}) × ℕ × World H)
          → Later c i p w.applied x.2.applied
          → ((k : ℕ) (m1 : Metrics) (w1 : World H)
              → Later c i p w1.applied
                  (apply_directional_limit c rest id rate ms k (m1, w1)).2.applied)
          → (let (r, k, w1) = x in
              let y : ℕ × Metrics × World H = elim r [
                | ok _ ↦ apply_directional_limit c rest id rate ms k (m, w1)
                | err _ ↦
                    let w2 = (try_run c del w1).1 in
                    apply_directional_limit c rest id rate ms k (inc "bandwidth.rollback" 1 m, w2)
              ] in
              Later c i p w.applied y.2.applied)
      go (ok a, k, w1) e again = also (again k m w1) e
      go (err a, k, w1) e again =
          also (again k (inc "bandwidth.rollback" 1 m) (try_run c del w1).1)
            (also (Later-drop iface w1) e)

  apply_direction-Later :
      (ifaces : List String) (id : String) (rate : ℕ) (ms : List Match) (n : ℕ) (s : Shaping H)
      → id ≢ throttle_class
      → Later c i p s.world.applied (apply_direction c ifaces id rate ms (n, s)).1.world.applied
  unfolding apply_direction
  apply_direction-Later ifaces id rate ms n s h = elim (Bool-cases (ltb 0 rate)) [
    | inl limited ↦
        rw limited (apply_directional_limit-Later ifaces id rate ms 0 s.metrics s.world h)
    | inr free ↦ rw free Later-refl
  ]

  limit_download-Later :
      (device_id ip : String) (limit : BandwidthLimit) (ips : Option (List String))
      (a : ℕ × Shaping H)
      → Later c i p a.1.world.applied (limit_download c device_id ip limit ips a).1.world.applied
  unfolding limit_download
  limit_download-Later device_id ip limit ips a =
      apply_direction-Later (download_interfaces c)
        (bandwidth_class_id device_id limit.category "dl") limit.download_kbps
        (matches_of ips (λ x. record { src = some x; dst = some ip })
          (record { src = none; dst = some ip }))
        a.0 a.1 (class-ne device_id limit.category "dl")

  limit_upload-Later :
      (device_id ip : String) (limit : BandwidthLimit) (ips : Option (List String))
      (a : ℕ × Shaping H)
      → Later c i p a.1.world.applied (limit_upload c device_id ip limit ips a).1.world.applied
  unfolding limit_upload
  limit_upload-Later device_id ip limit ips a =
      apply_direction-Later (upload_interfaces c) (bandwidth_class_id device_id limit.category "ul")
        limit.upload_kbps
        (matches_of ips (λ x. record { src = some ip; dst = some x })
          (record { src = some ip; dst = none }))
        a.0 a.1 (class-ne device_id limit.category "ul")

  module _ (R : Resolver H) (ttl_ms : ℕ) where
    resolve_category-Later :
        (category : Option String) (s : Shaping H)
        → Later c i p s.world.applied (resolve_category c R ttl_ms category s).1.world.applied
    unfolding resolve_category
    resolve_category-Later none s = Later-refl
    resolve_category-Later (some category) s = elim (Bool-cases (category == "")) [
      | inl e ↦ rw e Later-refl
      | inr e ↦ rw e Later-refl
    ]

    apply_limit-Later :
        (device_id ip : String) (limit : BandwidthLimit) (n : ℕ) (s : Shaping H)
        → Later c i p s.world.applied
            (apply_limit c R ttl_ms device_id ip limit (n, s)).1.world.applied
    unfolding apply_limit
    apply_limit-Later device_id ip limit n s =
        let (ips, s1) = resolve_category c R ttl_ms limit.category s in
        also
          (limit_upload-Later device_id ip limit ips
            (limit_download c device_id ip limit ips (n, s1)))
          (also (limit_download-Later device_id ip limit ips (n, s1))
            (resolve_category-Later limit.category s))

    apply_limits-Later :
        (device_id ip : String) (limits : List BandwidthLimit) (a : ℕ × Shaping H)
        → Later c i p a.1.world.applied
            (apply_limits c R ttl_ms device_id ip limits a).1.world.applied
    unfolding apply_limits
    apply_limits-Later device_id ip [] a = Later-refl
    apply_limits-Later device_id ip (l ∷ ls) a =
        also (apply_limits-Later device_id ip ls (apply_limit c R ttl_ms device_id ip l a))
          (apply_limit-Later device_id ip l a.0 a.1)

    limit_targets-Later :
        (ts : List Target) (a : ℕ × Shaping H)
        → Later c i p a.1.world.applied (limit_targets c R ttl_ms ts a).1.world.applied
    unfolding limit_targets
    limit_targets-Later [] a = Later-refl
    limit_targets-Later (t ∷ ts) a =
        also
          (limit_targets-Later ts
            (apply_limits c R ttl_ms t.device_id (text_of t.ip_address) t.bandwidth_limits a))
          (apply_limits-Later t.device_id (text_of t.ip_address) t.bandwidth_limits a)

    pub sync_bandwidth_limits-Later :
        (ts : List Target) (s : Shaping H)
        → Later c i p s.world.applied (sync_bandwidth_limits c R ttl_ms ts s).world.applied
    unfolding sync_bandwidth_limits
    sync_bandwidth_limits-Later ts s =
        let done' = limit_targets-Later (filter has_limits ts) (0, s) in
        elim (Bool-cases (ltb 0 (limit_targets c R ttl_ms (filter has_limits ts) (0, s)).0)) [
          | inl e ↦ rw e done'
          | inr e ↦ rw e done'
        ]
