-- ===== src/Agent/Killer/Controllers.antt =====
-- connection-killer.js with the conntrack and TCP reset controllers that main.js gives it.
use guardtime.Base.{
  ℕ, ◌+◌, ◌≢◌, String, ◌≡◌, refl, ap, ◌∙◌, Bool, true, false, not, ◌||◌, ◌==◌, string_eq, some,
  List, [], ◌∷◌, any, arith,
}
use guardtime.Base.Dict.{lookup-insert}
use guardtime.Agent.Host.{Host, World, Result, ok, err, done, ◌>>◌, run_command}
use guardtime.Agent.Host.Laws.{Succeeds, Succeeds->>=, Succeeds-if, run_command-Succeeds}
use guardtime.Agent.Config.{Config}
use guardtime.Agent.Target.{Target}
use guardtime.Agent.Metrics.{inc, count, add_to}
use guardtime.Agent.Retry.{retry-ok}
use guardtime.Agent.Conntrack.{
  Flow, list_tcp_connections, kill_device, delete_by_source, delete_by_destination,
}
use guardtime.Agent.Sniffers.{Python, reset_device}
use guardtime.Agent.Killer.{
  Tools, Run, lift, try_kill, count_retry, pause, kill_with_retries, kill_address, kill_all,
  kill_one, kill_each, inc_if, addresses, flows_of,
}

abbrev wait : {H : Host} → (H.State → H.State) → World H → World H
wait f w = record w { state = f w.state }

-- The controllers, where `pauses` is what the timers of `retry` do.
unfoldable pub controllers :
    {H : Host} → Config → Python H → (pauses : ℕ → H.State → H.State) → Tools
unfolding list_tcp_connections kill_device reset_device
controllers {H} c P pauses = record {
  State = World H;
  Flow = Flow;
  list_tcp_connections = list_tcp_connections c;
  kill_connections = kill_device c;
  reset_connections = λ ip flows w. (ok tt, reset_device c P ip (some flows) w);
  sleep = λ ms. wait (pauses ms);
}

module _ {H : Host} (c : Config) where
  delete-Succeeds :
      (args : List String)
      → Succeeds (run_command {H = H} c.dry_run c.conntrack_bin true args >> done)
  delete-Succeeds args =
      Succeeds->>= (run_command c.dry_run c.conntrack_bin true args) (λ _. done)
        (run_command-Succeeds c.dry_run c.conntrack_bin args) (λ _ w. (tt, refl))

  kill_device-Succeeds : (ip : String) → Succeeds (kill_device {H = H} c ip)
  unfolding kill_device delete_by_source delete_by_destination
  kill_device-Succeeds ip =
      Succeeds-if (not c.enable_conntrack_kill || ip == "") done _ (λ w. (tt, refl))
        (Succeeds->>= (delete_by_source c ip) (λ _. delete_by_destination c ip)
          (delete-Succeeds ("-D" ∷ "-s" ∷ ip ∷ [])) (λ _. delete-Succeeds ("-D" ∷ "-d" ∷ ip ∷ [])))

module _ {H : Host} (c : Config) where
  kill_device-ok : (ip : String) (w : World H) → (kill_device {H = H} c ip w).0 ≡ ok tt
  kill_device-ok ip w = let (a, e) = kill_device-Succeeds c ip w in e

paired : {A B : Type 0} (x : A × B) (a : A) → x.0 ≡ a → x ≡ (a, x.1)
paired (a', b) a e = ap (λ y. (y, b)) e

abbrev total : {T : Tools} → String → Run T → ℕ
total name r = count name r.metrics.totals

-- Tools whose kills and resets do not throw.
module _ (T : Tools) (kills : (ip : String) (s : T.State) → (T.kill_connections ip s).0 ≡ ok tt)
    (resets : (ip : String) (flows : List T.Flow) (s : T.State)
      → (T.reset_connections ip flows s).0 ≡ ok tt) where
  kill_with_retries-first :
      (ip : String) (r : Run T) → kill_with_retries T ip r ≡ (ok tt, (try_kill T ip r).1)
  unfolding kill_with_retries
  kill_with_retries-first ip r =
      retry-ok (try_kill T ip) (count_retry T) (pause T) 3 150 r tt (try_kill T ip r).1
        (omega arith) (paired (try_kill T ip r) (ok tt) (kills ip r.machine))

  -- The kill of an address succeeds at its first attempt, and counts nothing.
  kill_address-ok :
      (ip : String) (r : Run T)
      → ((kill_address T ip r).0 ≡ ok tt) × ((kill_address T ip r).1.metrics ≡ r.metrics)
  unfolding kill_address
  kill_address-ok ip r =
      let (listed, r1) = lift T (T.list_tcp_connections ip) r in
      go (flows_of T listed) (kill_with_retries T ip r1)
        (ap (λ (x : Result (Unit {0}) × Run T). x.0) (kill_with_retries-first ip r1))
        (ap (λ (x : Result (Unit {0}) × Run T). x.1.metrics) (kill_with_retries-first ip r1))
    where
      go :
          (flows : List T.Flow) (x : Result (Unit {0}) × Run T)
          → x.0 ≡ ok tt
          → x.1.metrics ≡ r.metrics
          → (let (killed, r2) = x in
              let y : Result (Unit {0}) × Run T = elim killed [
                | err e ↦ (err e, r2)
                | ok _ ↦ lift T (T.reset_connections ip flows) r2
              ] in
              (y.0 ≡ ok tt) × (y.1.metrics ≡ r.metrics))
      go flows (ok _, r2) e m = (resets ip flows r2.machine, m)
      go flows (err _, r2) e m = absurd (cc e)

  abbrev AllTrue : List Bool → Type 0
  AllTrue bs = any not bs ≡ false

  kill_all-ok :
      (ips : List String) (r : Run T)
      → AllTrue (kill_all T ips r).0 × ((kill_all T ips r).1.metrics ≡ r.metrics)
  unfolding kill_all
  kill_all-ok [] r = (refl, refl)
  kill_all-ok (ip ∷ ips) r =
      let (first, kept) = kill_address-ok ip r in
      let (rest, kept') = kill_all-ok ips (kill_address T ip r).1 in rw first (rest, kept' ∙ kept)

  total-inc_if :
      (b : Bool) (name other : String) (r : Run T)
      → name ≢ other
      → total name (inc_if T b other r) ≡ total name r
  unfolding inc add_to count
  total-inc_if true name other r h =
      ground (arith, lookup-insert name other (count other r.metrics.totals + 1) r.metrics.totals)
  total-inc_if false name other r h = refl

  kill_one-total :
      (name : String) (t : Target) (r : Run T)
      → name ≢ "connectionKiller.attempts"
      → name ≢ "connectionKiller.killed"
      → total name (kill_one T t r) ≡ total name r
  unfolding kill_one
  kill_one-total name t r ha hk =
      let r0 = inc_if T true "connectionKiller.attempts" r in
      let (results, r1) = kill_all T (addresses t) r0 in
      let (all_true, kept) = kill_all-ok (addresses t) r0 in
      rw all_true (
        total-inc_if (any (λ x. x) results) name "connectionKiller.killed" r1 hk
        ∙ (ap (λ m. count name m.totals) kept
            ∙ total-inc_if true name "connectionKiller.attempts" r ha))

  kill_each-total :
      (name : String) (ts : List Target) (r : Run T)
      → name ≢ "connectionKiller.attempts"
      → name ≢ "connectionKiller.killed"
      → total name (kill_each T ts r) ≡ total name r
  unfolding kill_each
  kill_each-total name [] r ha hk = refl
  kill_each-total name (t ∷ ts) r ha hk =
      kill_each-total name ts (kill_one T t r) ha hk ∙ kill_one-total name t r ha hk

module _ {H : Host} (c : Config) (P : Python H) (pauses : ℕ → H.State → H.State) where
  -- With the controllers of the agent, whatever the machine answers to the commands, a cycle of
  -- kills counts no failed kill and no retry: their totals, and all others than those of the
  -- attempts and the kills, stay as they were.
  pub controllers-total :
      (name : String) (ts : List Target) (r : Run (controllers c P pauses))
      → name ≢ "connectionKiller.attempts"
      → name ≢ "connectionKiller.killed"
      → count name (kill_each (controllers c P pauses) ts r).metrics.totals
        ≡ count name r.metrics.totals
  unfolding controllers
  controllers-total name ts r ha hk =
      kill_each-total (controllers c P pauses) (λ ip w. kill_device-ok c ip w) (λ ip flows w. refl)
        name ts r ha hk
