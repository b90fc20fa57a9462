-- ===== src/Agent/Router/Sessions.antt =====
-- gateway-agent/src/router-command-executor.js: `runEndGamingSession`, with what the plugin and the
-- health check do at each strategy.
use guardtime.Base.{
  String, ◌≡◌, refl, ap, subst, Bool, true, false, Option, none, some, List, [], ◌∷◌, inl, inr,
  Option-cases, if◌then◌else◌,
}
use guardtime.Base.Result.{Result, ok, err, Result-cases}
use guardtime.Agent.Router.{
  Services, RouterTarget, Answer, Attempt, CommandResult, execute_single_action, roll_back, push,
  run_end_gaming_session, strategy_method, inverse_method,
}

abbrev attempt : String → Answer → (rolled_back : Option Bool) → Attempt
attempt x a back = record { strategy = x; answer = a; rolled_back = back }

abbrev ended : Bool → Option String → List Attempt → CommandResult
ended success used_one as' = record {
  success = success;
  message = none;
  strategy_used = used_one;
  attempts = as';
}

-- The result, with an attempt that was made before.
abbrev tried : Attempt → Result CommandResult → Result CommandResult
tried a (ok r) = ok (record r { attempts = a ∷ r.attempts })
tried a (err e) = err e

module _ (V : Services) (plugin : V.Plugin) (target : RouterTarget) where
  -- A call of the plugin's function of the name, which may throw; a plugin without it answers that
  -- it failed.
  pub data Calls (name : String) (s : V.State) : Result Answer → V.State → Type 0 where
    absent : (a : Answer) → V.method plugin name ≡ none → a.success ≡ false → Calls name s (ok a) s
    called :
        (f : RouterTarget → V.State → Result Answer × V.State)
        → V.method plugin name ≡ some f
        → Calls name s (f target s).0 (f target s).1

  -- Taking a strategy back: the plugin's inverse function is called, where the strategy has one, and
  -- the strategy is taken back where it answers that it succeeded.
  pub data TakesBack (strategy : String) (s : V.State) : Bool → V.State → Type 0 where
    no_inverse : inverse_method strategy ≡ none → TakesBack strategy s false s
    answered :
        {name : String} {a : Answer} {s1 : V.State}
        → inverse_method strategy ≡ some name
        → Calls name s (ok a) s1
        → TakesBack strategy s a.success s1
    threw :
        {name message : String} {s1 : V.State}
        → inverse_method strategy ≡ some name
        → Calls name s (err message) s1
        → TakesBack strategy s false s1

  -- How a session is ended: from one state to another, by which calls of the plugin and of the
  -- health check, and with which result. A strategy that cuts the gateway off is taken back before
  -- the next is tried.
  pub data Session : List String → V.State → Result CommandResult → V.State → Type 0 where
    exhausted : {s : V.State} → Session [] s (ok (ended false none [])) s
    skipped :
        {x : String} {xs : List String} {s s1 : V.State} {r : Result CommandResult}
        → strategy_method x ≡ none
        → Session xs s r s1
        → Session (x ∷ xs) s r s1
    threw_error :
        {x name message : String} {xs : List String} {s s1 : V.State}
        → strategy_method x ≡ some name
        → Calls name s (err message) s1
        → Session (x ∷ xs) s (err message) s1
    failed :
        {x name : String} {xs : List String} {s s1 s2 : V.State} {a : Answer}
        {r : Result CommandResult}
        → strategy_method x ≡ some name
        → Calls name s (ok a) s1
        → a.success ≡ false
        → Session xs s1 r s2
        → Session (x ∷ xs) s (tried (attempt x a none) r) s2
    undone :
        {x name : String} {xs : List String} {s s1 s2 s3 s4 : V.State} {a : Answer} {back : Bool}
        {r : Result CommandResult}
        → strategy_method x ≡ some name
        → Calls name s (ok a) s1
        → a.success ≡ true
        → V.check_connectivity s1 ≡ (false, s2)
        → TakesBack x s2 back s3
        → Session xs s3 r s4
        → Session (x ∷ xs) s (tried (attempt x a (some back)) r) s4
    succeeded :
        {x name : String} {xs : List String} {s s1 s2 : V.State} {a : Answer}
        → strategy_method x ≡ some name
        → Calls name s (ok a) s1
        → a.success ≡ true
        → V.check_connectivity s1 ≡ (true, s2)
        → Session (x ∷ xs) s (ok (ended true (some x) (attempt x a none ∷ []))) s2

  execute_single_action-Calls :
      (name : String) (s : V.State)
      → Calls name s
          (execute_single_action V plugin target name s).0
          (execute_single_action V plugin target name s).1
  unfolding execute_single_action
  execute_single_action-Calls name s = elim (Option-cases (V.method plugin name)) [
    | inl e ↦ rw (e, execute_single_action) (absent _ e refl)
    | inr (f, e) ↦ rw (e, execute_single_action) (called f e)
  ]

  -- A call whose answer is known.
  Calls-of :
      (name : String) (s : V.State) (r : Result Answer)
      → (execute_single_action V plugin target name s).0 ≡ r
      → Calls name s r (execute_single_action V plugin target name s).1
  Calls-of name s r e =
      subst (λ x. Calls name s x (execute_single_action V plugin target name s).1) e
        (execute_single_action-Calls name s)

  roll_back-TakesBack :
      (x : String) (s : V.State)
      → TakesBack x s (roll_back V plugin target x s).0 (roll_back V plugin target x s).1
  unfolding roll_back
  roll_back-TakesBack x s = elim (Option-cases (inverse_method x)) [
    | inl e ↦ rw (e, roll_back) (no_inverse e)
    | inr (name, e) ↦ elim (Result-cases (execute_single_action V plugin target name s).0) [
      | inl (a, f) ↦ rw (e, f, roll_back) (answered e (Calls-of name s (ok a) f))
      | inr (m, f) ↦ rw (e, f, roll_back) (threw e (Calls-of name s (err m) f))
    ]
  ]

  abbrev pub Ends : List String → V.State → Result CommandResult × V.State → Type 0
  Ends ss s y = Session ss s y.0 y.1

  push-Ends :
      (x : String) (xs : List String) (s s1 : V.State) (a : Attempt)
      (y : Result CommandResult × V.State)
      → ((r : Result CommandResult) (s2 : V.State)
          → Session xs s1 r s2
          → Session (x ∷ xs) s (tried a r) s2)
      → Ends xs s1 y
      → Ends (x ∷ xs) s (push a y)
  push-Ends x xs s s1 a (ok r, s2) f t = f (ok r) s2 t
  push-Ends x xs s s1 a (err e, s2) f t = f (err e) s2 t

  if-Ends :
      (ss : List String) (s : V.State) (b : Bool) (y z : Result CommandResult × V.State)
      → (b ≡ true → Ends ss s y)
      → (b ≡ false → Ends ss s z)
      → Ends ss s (if b then y else z)
  if-Ends ss s true y z p q = p refl
  if-Ends ss s false y z p q = q refl

  -- Ending a gaming session goes through the strategies in their order and skips those without a
  -- method. A strategy whose function fails is recorded, and the next is tried. After one that
  -- succeeds the health check is asked: if the gateway is connected the command ends and names the
  -- strategy; if not, the plugin's inverse function is called, where there is one, from the state
  -- that the check left, the attempt records whether that succeeded, and the next is tried. If none
  -- is left the command fails and names none. If the function of a strategy throws, its error ends
  -- the command.
  pub run_end_gaming_session-Session :
      (ss : List String) (s : V.State)
      → Session ss s
          (run_end_gaming_session V plugin target ss s).0
          (run_end_gaming_session V plugin target ss s).1
  unfolding run_end_gaming_session
  run_end_gaming_session-Session [] s = exhausted
  run_end_gaming_session-Session (x ∷ xs) s = elim (Option-cases (strategy_method x)) [
    | inl e ↦ rw (e, run_end_gaming_session) (skipped e (run_end_gaming_session-Session xs s))
    | inr (name, e) ↦
        let s1 = (execute_single_action V plugin target name s).1 in
        let s2 = (V.check_connectivity s1).1 in
        let (back, s3) = roll_back V plugin target x s2 in
        elim (Result-cases (execute_single_action V plugin target name s).0) [
          | inr (m, f) ↦
              rw (e, f, run_end_gaming_session) (threw_error e (Calls-of name s (err m) f))
          | inl (a, f) ↦
              let call = Calls-of name s (ok a) f in
              rw (e, f, run_end_gaming_session)
                (if-Ends (x ∷ xs) s a.success _ _
                  (λ won.
                    if-Ends (x ∷ xs) s (V.check_connectivity s1).0 _ _
                      (λ on. succeeded e call won (ap (λ b. (b, s2)) on))
                      (λ off.
                        push-Ends x xs s s3 (attempt x a (some back)) _
                          (λ r s4 t.
                            undone e call won (ap (λ b. (b, s2)) off) (roll_back-TakesBack x s2) t)
                          (run_end_gaming_session-Session xs s3)))
                  (λ lost.
                    push-Ends x xs s s1 (attempt x a none) _ (λ r s2 t. failed e call lost t)
                      (run_end_gaming_session-Session xs s1)))
        ]
  ]
