-- ===== src/Agent/Qos/Throttling/Clearing.antt =====
-- The first loop of a cycle of the QoS controller: `ensureQdisc` and `clearFilters`.
use guardtime.Base.{
  String, ◌≡◌, refl, sym, ap, subst, ◌∙◌, string_eq, Bool, true, false, Option, List, [], ◌∷◌, ◌⊎◌,
  inl, inr, ◌∈◌, arith, Bool-cases,
}
use guardtime.Agent.Host.{
  Host, World, Result, ok, exited, failed, Action, ◌>>=◌, ◌>>◌, done, when, for_each, run_command,
  exec_file, answer,
}
use guardtime.Agent.Host.Laws.{>>=-eq-ok, Outcome-cases}
use guardtime.Agent.Rotation.Laws.{eq-true}
use guardtime.Agent.Config.{Config}
use guardtime.Agent.Qos.{del_filters, run, try_run, ensure_qdisc, clear_filters}
use guardtime.Agent.Qos.Throttling.{
  removes, is_throttle_filter, view, run-applied, Managed, ipv4, ipv6,
}

-- `tc` refuses to delete the filters of a protocol on an interface, when it is asked in this world.
pub data Denies {H : Host} (c : Config) (iface protocol : String) (w : World H) : Type 0 where
  denies :
      (s' : H.State) (out errors : Option String) (message : String)
      → H.exec c.tc_bin
          ("filter" ∷ "del" ∷ "dev" ∷ iface ∷ "protocol" ∷ protocol ∷ "parent" ∷ "1:" ∷ [])
          w.state
        ≡ (failed out errors message, s')
      → Denies c iface protocol w

-- It refuses in the turn of the loop that is about the interface.
pub data Turn {H : Host} (c : Config) (iface : String)
    : (protocol : String) → World H → Type 0 where
  at_ipv4 :
      (w w1 : World H)
      → ensure_qdisc c iface w ≡ (ok tt, w1)
      → Denies c iface "ip" w1
      → Turn c iface "ip" w
  at_ipv6 :
      (w w1 w2 : World H)
      → ensure_qdisc c iface w ≡ (ok tt, w1)
      → try_run c (del_filters iface "ip") w1 ≡ (ok tt, w2)
      → Denies c iface "ipv6" w2
      → Turn c iface "ipv6" w

-- It refuses when the loop over the interfaces comes to that turn.
pub data Refused {H : Host} (c : Config) (i p : String) : List String → World H → Type 0 where
  here : (js : List String) (w : World H) → Turn c i p w → Refused c i p (i ∷ js) w
  there :
      (j : String) (js : List String) (w w1 : World H)
      → (ensure_qdisc c j >> clear_filters c j) w ≡ (ok tt, w1)
      → Refused c i p js w1
      → Refused c i p (j ∷ js) w

del-removes : (i p : String) → removes i p (del_filters i p) ≡ true
del-removes i p = ground (arith, eq-true i i refl, eq-true p p refl)

module _ {H : Host} (c : Config) (live : c.dry_run ≡ false) (i p : String) where
  abbrev held : World H → List (List String)
  held w = view c i p w.applied

  -- A step that only removes: what is held stays, or all of it goes.
  abbrev Fewer : Action H (Unit {0}) → Type 0
  Fewer m =
      (w : World H) (a : Unit {0}) (w' : World H)
      → m w ≡ (ok a, w')
      → (held w' ≡ held w) ⊎ (held w' ≡ [])

  Fewer->> : (m k : Action H (Unit {0})) → Fewer m → Fewer k → Fewer (m >> k)
  Fewer->> m k hm hk w b w' h =
      let (a, w1, first, rest) = >>=-eq-ok m (λ _. k) w h in
      elim (hk w1 b w' rest) [
        | inr gone ↦ inr gone
        | inl same ↦ elim (hm w a w1 first) [
          | inl before ↦ inl (same ∙ before)
          | inr gone ↦ inr (same ∙ gone)
        ]
      ]

  Fewer-done : Fewer done
  Fewer-done w a w' h = inl (ap (λ (x : Result (Unit {0}) × World H). held x.1) (sym h))

  Fewer-for_each :
      {A : Type 0} (f : A → Action H (Unit {0}))
      → ((x : A) → Fewer (f x))
      → (xs : List A) → Fewer (for_each xs f)
  unfolding for_each
  Fewer-for_each f h [] = Fewer-done
  Fewer-for_each f h (x ∷ xs) = Fewer->> (f x) (for_each xs f) (h x) (Fewer-for_each f h xs)

  logged :
      (args : List String) (w w' : World H)
      → is_throttle_filter args ≡ false
      → w'.applied ≡ record { binary = c.tc_bin; args = args } ∷ w.applied
      → (held w' ≡ held w) ⊎ (held w' ≡ [])
  logged args w w' h e = elim (Bool-cases (removes i p args)) [
    | inl r ↦ inr (rw e (ground (arith, h, r)))
    | inr r ↦ inl (rw e (ground (arith, h, r)))
  ]

  Fewer-run : (args : List String) → is_throttle_filter args ≡ false → Fewer (run c args)
  Fewer-run args h w a w' e = logged args w w' h (run-applied c live i p args w a w' e)

  Fewer-ensure_qdisc : (iface : String) → Fewer (ensure_qdisc c iface)
  unfolding ensure_qdisc string_eq
  Fewer-ensure_qdisc iface =
      Fewer->> _ _ (Fewer-run _ refl)
        (Fewer->> _ _ (Fewer-run _ refl) (Fewer->> _ _ (Fewer-run _ refl) (Fewer-run _ refl)))

  -- What `tc` answers to a command that may fail, and what is logged of it.
  try_run-cases :
      (args : List String) (w : World H)
      → ((out errors : String) × (s' : H.State) × (H.exec c.tc_bin args w.state
            ≡ (exited out errors, s'))
          × ((try_run c args w).1.applied ≡ record { binary = c.tc_bin; args = args } ∷ w.applied))
        ⊎ ((out errors : Option String) × (message : String) × (s' : H.State) × (H.exec c.tc_bin
                args w.state
              ≡ (failed out errors message, s'))
            × ((try_run c args w).1.applied ≡ w.applied))
  unfolding try_run run_command exec_file answer
  try_run-cases args w =
      let s' = (H.exec c.tc_bin args w.state).1 in
      elim (Outcome-cases (H.exec c.tc_bin args w.state).0) [
        | inl (out, errors, h) ↦ inl (
          out,
          errors,
          s',
          ap (λ o. (o, s')) h,
          rw (live, h, ◌>>=◌, run_command, exec_file) (rw (live, h, run_command, exec_file) refl),
        )
        | inr (out, errors, m, h) ↦ inr (
          out,
          errors,
          m,
          s',
          ap (λ o. (o, s')) h,
          rw (live, h, ◌>>=◌, run_command, exec_file) (rw (live, h, run_command, exec_file) refl),
        )
      ]

  Fewer-try_run : (args : List String) → is_throttle_filter args ≡ false → Fewer (try_run c args)
  Fewer-try_run args h w a w' e =
      let same : (try_run c args w).1.applied ≡ w'.applied =
        ap (λ (x : Result (Unit {0}) × World H). x.1.applied) e in
      elim (try_run-cases args w) [
        | inl (_, _, _, _, log) ↦ logged args w w' h (sym same ∙ log)
        | inr (_, _, _, _, _, log) ↦ inl (ap (view c i p) (sym same ∙ log))
      ]

  Fewer-when : (b : Bool) (m : Action H (Unit {0})) → Fewer m → Fewer (when b m)
  Fewer-when true m h = h
  Fewer-when false m h = Fewer-done

  Fewer-clear_filters : (iface : String) → Fewer (clear_filters c iface)
  unfolding clear_filters string_eq
  Fewer-clear_filters iface =
      Fewer->> _ _ (Fewer-try_run _ refl) (Fewer-when c.enable_ipv6 _ (Fewer-try_run _ refl))

  -- A step after which the interface holds no filter of the protocol, unless something is so of the
  -- world in which it starts.
  abbrev Empties : (World H → Type 0) → Action H (Unit {0}) → Type 0
  Empties R m =
      (w : World H) (a : Unit {0}) (w' : World H) → m w ≡ (ok a, w') → (held w' ≡ []) ⊎ R w

  Empties-first :
      (R : World H → Type 0) (m k : Action H (Unit {0}))
      → Empties R m
      → Fewer k
      → Empties R (m >> k)
  Empties-first R m k hm hk w b w' h =
      let (a, w1, first, rest) = >>=-eq-ok m (λ _. k) w h in
      elim (hm w a w1 first) [
        | inr out ↦ inr out
        | inl gone ↦ elim (hk w1 b w' rest) [ inl same ↦ inl (same ∙ gone) | inr e ↦ inl e ]
      ]

  Empties-last :
      (R S : World H → Type 0) (m k : Action H (Unit {0}))
      → Empties S k
      → ((w w1 : World H) → m w ≡ (ok tt, w1) → S w1 → R w)
      → Empties R (m >> k)
  Empties-last R S m k hk back w b w' h =
      let (a, w1, first, rest) = >>=-eq-ok m (λ _. k) w h in
      elim (hk w1 b w' rest) [ inl gone ↦ inl gone | inr out ↦ inr (back w w1 first out) ]

  Empties-del : Empties (Denies c i p) (try_run c (del_filters i p))
  unfolding string_eq
  Empties-del w a w' e =
      let same : (try_run c (del_filters i p) w).1.applied ≡ w'.applied =
        ap (λ (x : Result (Unit {0}) × World H). x.1.applied) e in
      elim (try_run-cases (del_filters i p) w) [
        | inl (_, _, _, _, log) ↦
            let r = del-removes i p in
            inl (rw (sym same ∙ log) (ground (arith, r, eq-true c.tc_bin c.tc_bin refl)))
        | inr (out, errors, m, s', h, _) ↦ inr (denies s' out errors m h)
      ]

-- The turn of the interface.
Empties-Turn :
    {H : Host} (c : Config) (live : c.dry_run ≡ false) (i p : String)
    → Managed c p
    → Empties {H = H} c live i p (Turn c i p) (ensure_qdisc c i >> clear_filters c i)
unfolding clear_filters string_eq
Empties-Turn c live i _ ipv4 =
    let later = when c.enable_ipv6 (try_run c (del_filters i "ipv6")) in
    Empties-last c live i "ip" (Turn c i "ip") (Denies c i "ip") (ensure_qdisc c i)
      (clear_filters c i)
      (Empties-first c live i "ip" (Denies c i "ip") (try_run c (del_filters i "ip")) later
        (Empties-del c live i "ip")
        (Fewer-when c live i "ip" c.enable_ipv6 (try_run c (del_filters i "ipv6"))
          (Fewer-try_run c live i "ip" (del_filters i "ipv6") refl)))
      (λ w w1 made no_del. at_ipv4 w w1 made no_del)
Empties-Turn {H} c live i _ (ipv6 on) =
    let first = try_run {H = H} c (del_filters i "ip") in
    let later = when {H = H} c.enable_ipv6 (try_run c (del_filters i "ipv6")) in
    let Then = λ (w : World H). (w2 : World H) × (first w ≡ (ok tt, w2)) × Denies c i "ipv6" w2 in
    Empties-last c live i "ipv6" (Turn c i "ipv6") Then (ensure_qdisc c i) (clear_filters c i)
      (Empties-last c live i "ipv6" Then (Denies c i "ipv6") first later
        (subst
          (λ b.
            Empties {H = H} c live i "ipv6" (Denies c i "ipv6")
              (when b (try_run c (del_filters i "ipv6"))))
          (sym on) (Empties-del c live i "ipv6"))
        (λ w w2 asked no_del. (w2, asked, no_del)))
      (λ w w1 made t. at_ipv6 w w1 t.0 made t.1 t.2)

-- The first loop of a cycle.
pub cleared :
    {H : Host} (c : Config) (live : c.dry_run ≡ false) (i p : String)
    → Managed c p
    → (ifaces : List String) (w : World H) (a : Unit {0}) (w' : World H) → i ∈ ifaces
    → for_each ifaces (λ j. ensure_qdisc c j >> clear_filters c j) w ≡ (ok a, w')
    → (view c i p w'.applied ≡ []) ⊎ Refused c i p ifaces w
unfolding for_each
cleared c live i p m [] w a w' listed h = elim listed [ ]
cleared {H} c live i p m (j ∷ js) w a w' (inl same) h =
    let step = λ (j : String). ensure_qdisc {H = H} c j >> clear_filters c j in
    let fewer =
      Fewer-for_each {H = H} c live i p step
        (λ j.
          Fewer->> c live i p (ensure_qdisc c j) (clear_filters c j)
            (Fewer-ensure_qdisc c live i p j) (Fewer-clear_filters c live i p j))
        js in
    let moved = subst (λ x. for_each (x ∷ js) step w ≡ (ok a, w')) (sym same) h in
    elim (Empties-first c live i p (Turn c i p) (step i) (for_each js step)
      (Empties-Turn c live i p m) fewer w a w' moved) [
        | inl gone ↦ inl gone
        | inr t ↦ inr (subst (λ x. Refused c i p (x ∷ js) w) same (here js w t))
      ]
cleared {H} c live i p m (j ∷ js) w a w' (inr later) h =
    let step = λ (j : String). ensure_qdisc {H = H} c j >> clear_filters c j in
    let (b, w1, first, rest) = >>=-eq-ok (step j) (λ _. for_each js step) w h in
    elim (cleared c live i p m js w1 a w' later rest) [
      | inl gone ↦ inl gone
      | inr out ↦ inr (there j js w w1 first out)
    ]
