-- ===== src/Agent/Killer/Spares.antt =====
-- Whom the killer spares.
use guardtime.Base.{
  ℕ, String, ◌≡◌, ◌≢◌, refl, ap, sym, subst, ◌∙◌, string_eq, Bool, true, false, not, Option, none,
  some, List, [], ◌∷◌, filter, ◌∈◌, mem-append, mem-filter, arith, if◌then◌else◌, inl, inr, any,
  length, ltb, ◌-◌,
}
use guardtime.Base.Dict.{Dict}
use guardtime.Base.Result.{Result, ok, err}
use guardtime.Agent.Target.{Target}
use guardtime.Agent.Guard.Defs.{Guard, filter_targets}
use guardtime.Agent.Guard.Laws.{IsManagement, filter_targets_exact}
use guardtime.Agent.Metrics.{inc}
use guardtime.Agent.Retry.{retry-keeps}
use guardtime.Agent.Killer.{
  Tools, Run, Previous, inc_if, lift, flows_of, try_kill, count_retry, pause, should_run, present,
  addresses, kill_with_retries, kill_address, kill_all, kill_one, kill_each, sync,
}

mem-present : (o : Option String) (a : String) → a ∈ present o → (o ≡ some a) × (a ≢ "")
mem-present none a m = elim m [ ]
mem-present (some b) a m = ground arith

module _ (T : Tools) (ip : String) (P : T.State → Type 0)
    (lists : (a : String) (s : T.State) → a ≢ ip → P s → P (T.list_tcp_connections a s).1)
    (kills : (a : String) (s : T.State) → a ≢ ip → P s → P (T.kill_connections a s).1)
    (resets : (a : String) (flows : List T.Flow) (s : T.State)
      → a ≢ ip
      → P s
      → P (T.reset_connections a flows s).1)
    (sleeps : (ms : ℕ) (s : T.State) → P s → P (T.sleep ms s)) where
  Kept : Run T → Type 0
  Kept r = P r.machine

  kill_with_retries-Kept :
      (a : String) → a ≢ ip → (r : Run T) → Kept r → Kept (kill_with_retries T a r).1
  unfolding kill_with_retries Kept
  kill_with_retries-Kept a h =
      retry-keeps (try_kill T a) (count_retry T) (pause T) 3 150 Kept (λ r. kills a r.machine h)
        (λ _ _ r p. p) (λ ms r. sleeps ms r.machine)

  kill_address-Kept : (a : String) → a ≢ ip → (r : Run T) → Kept r → Kept (kill_address T a r).1
  unfolding kill_address Kept
  kill_address-Kept a h r p =
      let (listed, s1) = T.list_tcp_connections a r.machine in
      let r1 : Run T = record r { machine = s1 } in
      go (flows_of T listed) (kill_with_retries T a r1)
        (kill_with_retries-Kept a h r1 (lists a r.machine h p))
    where
      go :
          (flows : List T.Flow) (x : Result (Unit {0}) × Run T)
          → Kept x.1
          → Kept (
              (let (killed, r2) = x in
                let y : Result (Unit {0}) × Run T = elim killed [
                  | err e ↦ (err e, r2)
                  | ok _ ↦ lift T (T.reset_connections a flows) r2
                ] in
                y).1)
      go flows (ok _, r2) q = resets a flows r2.machine h q
      go flows (err _, r2) q = q

  kill_all-Kept :
      (xs : List String)
      → ((a : String) → a ∈ xs → a ≢ ip)
      → (r : Run T) → Kept r
      → Kept (kill_all T xs r).1
  unfolding kill_all
  kill_all-Kept [] h r p = p
  kill_all-Kept (a ∷ xs) h r p =
      kill_all-Kept xs (λ b m. h b (inr m)) (kill_address T a r).1
        (kill_address-Kept a (h a (inl refl)) r p)

  inc_if-Kept : (b : Bool) (name : String) (r : Run T) → Kept r → Kept (inc_if T b name r)
  unfolding Kept
  inc_if-Kept true name r p = p
  inc_if-Kept false name r p = p

  kill_one-Kept :
      (t : Target)
      → ((a : String) → a ∈ addresses t → a ≢ ip)
      → (r : Run T) → Kept r
      → Kept (kill_one T t r)
  unfolding kill_one
  kill_one-Kept t h r p =
      let r1 = inc_if T true "connectionKiller.attempts" r in
      let (results, r2) = kill_all T (addresses t) r1 in
      inc_if-Kept (any not results) "connectionKiller.failed" _ (
        inc_if-Kept (any (λ x. x) results) "connectionKiller.killed" r2
          (kill_all-Kept (addresses t) h r1 (inc_if-Kept true "connectionKiller.attempts" r p)))

  kill_each-Kept :
      (ts : List Target)
      → ((t : Target) → t ∈ ts → (a : String) → a ∈ addresses t → a ≢ ip)
      → (r : Run T) → Kept r
      → Kept (kill_each T ts r)
  unfolding kill_each
  kill_each-Kept [] h r p = p
  kill_each-Kept (t ∷ ts) h r p =
      kill_each-Kept ts (λ x m. h x (inr m)) (kill_one T t r) (kill_one-Kept t (h t (inl refl)) r p)

  -- Let a property of the machine be kept by pauses and by whatever the tools do about an address
  -- other than `ip`. If the guard protects `ip` and no target has it as its IPv6 address, then a
  -- cycle keeps the property: nothing is done about the connections of `ip`.
  pub sync_spares :
      (guard : Guard) (ts : List Target) (d : Dict String Previous) (r : Run T)
      → ip ≢ ""
      → IsManagement guard ip
      → ((t : Target) → t ∈ ts → t.ipv6_address ≢ some ip)
      → P r.machine
      → P (sync T guard ts (d, r)).1.machine
  unfolding sync Kept
  sync_spares guard ts d r named own no_v6 p =
      let candidates = filter (should_run d) ts in
      kill_each-Kept (filter_targets guard candidates)
        (λ t m a k same.
          let (listed, free) = (filter_targets_exact guard t candidates).0 m in
          elim ((mem-append a (present t.ip_address) (present t.ipv6_address)).0 k) [
            | inl j ↦
                let (e, ne) = mem-present t.ip_address a j in
                free a ne e (subst (IsManagement guard) (sym same) own)
            | inr j ↦
                let (e, ne) = mem-present t.ipv6_address a j in
                no_v6 t ((mem-filter (should_run d) t ts).0 listed).0 (e ∙ ap some same)
          ])
        _
        (kept_by_count (ltb (length (filter_targets guard candidates)) (length candidates))
          (length candidates - length (filter_targets guard candidates)))
    where
      kept_by_count :
          (b : Bool) (n : ℕ)
          → Kept (
              if b
              then record r { metrics = inc "connectionKiller.protectedSkipped" n r.metrics }
              else r)
      kept_by_count true n = p
      kept_by_count false n = p
