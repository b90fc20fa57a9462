-- ===== src/Agent/Host/Laws.antt =====
-- Reasoning about actions: inversion of a successful step, and what a successful action adds to a
-- list that is observed in the commands that have succeeded.
use mathlib.Core.List.{flat_map, append-nil, append_assoc}
use guardtime.Base.{
  String, ◌≡◌, refl, ap, ◌∙◌, ◌⊎◌, inl, inr, Option, Bool, true, false, List, [], ◌∷◌, ◌++◌, arith,
  if◌then◌else◌,
}
use guardtime.Agent.Host.{
  Host, World, Command, Result, ok, err, Action, ◌>>=◌, ◌>>◌, done, when, for_each, run_command,
  RunResult, Outcome, exited, failed, answer, exec_file, text_or_empty,
}

pub Outcome-cases :
    (o : Outcome)
    → ((out errors : String) × (o ≡ exited out errors))
      ⊎ ((out errors : Option String) × (m : String) × (o ≡ failed out errors m))
Outcome-cases (exited out errors) = inl (out, errors, refl)
Outcome-cases (failed out errors m) = inr (out, errors, m, refl)

module _ {H : Host} {A B : Type 0} where
  pub >>=-eq-ok :
      (m : Action H A) (f : A → Action H B) (w : World H) {b : B} {w' : World H}
      → (m >>= f) w ≡ (ok b, w')
      → (a : A) × (w1 : World H) × (m w ≡ (ok a, w1)) × (f a w1 ≡ (ok b, w'))
  >>=-eq-ok m f w {b} {w'} h = go (m w) h
    where
      go :
          (x : Result A × World H)
          → (let (r, w1) = x in elim r [ ok a ↦ f a w1 | err e ↦ (err e, w1) ]) ≡ (ok b, w')
          → (a : A) × (w1 : World H) × (x ≡ (ok a, w1)) × (f a w1 ≡ (ok b, w'))
      go (ok a, w1) k = (a, w1, refl, k)
      go (err e, w1) k = absurd (cc k)

module _ {H : Host} (dry : Bool) (live : dry ≡ false) (binary : String) where
  -- A command that must succeed has succeeded if the action has.
  pub run_command-eq-ok :
      (args : List String) (w : World H) {r : RunResult} {w' : World H}
      → run_command dry binary false args w ≡ (ok r, w')
      → w'.applied ≡ record { binary = binary; args = args } ∷ w.applied
  unfolding run_command
  run_command-eq-ok args w h = ground arith

  -- One that may fail has succeeded, or has left no trace.
  pub run_command-applied :
      (args : List String) (w : World H) {r : RunResult} {w' : World H}
      → run_command dry binary true args w ≡ (ok r, w')
      → (w'.applied ≡ w.applied)
        ⊎ (w'.applied ≡ record { binary = binary; args = args } ∷ w.applied)
  unfolding run_command
  run_command-applied args w h = ground arith

-- `view` reads a list off the commands that have succeeded; a successful `m` adds `rs` to it.
module _ {H : Host} {R : Type 0} (view : List Command → List R) where
  abbrev pub Adds : {A : Type 0} → Action H A → List R → Type 0
  Adds {A} m rs =
      (w : World H) (a : A) (w' : World H)
      → m w ≡ (ok a, w')
      → view w'.applied ≡ view w.applied ++ rs

  pub Adds-done : Adds done []
  Adds-done w a w' h = ground (arith, append-nil (view w.applied))

  pub Adds->>= :
      {A B : Type 0} (m : Action H A) (f : A → Action H B) (rs ss : List R)
      → Adds m rs
      → ((a : A) → Adds (f a) ss)
      → Adds (m >>= f) (rs ++ ss)
  Adds->>= m f rs ss hm hf w b w' h =
      let (a, w1, first, rest) = >>=-eq-ok m f w h in
      hf a w1 b w' rest ∙ ap (λ v. v ++ ss) (hm w a w1 first) ∙ append_assoc _ rs ss

  pub Adds->> :
      {A B : Type 0} (m : Action H A) (k : Action H B) (rs ss : List R)
      → Adds m rs
      → Adds k ss
      → Adds (m >> k) (rs ++ ss)
  Adds->> m k rs ss hm hk = Adds->>= m (λ _. k) rs ss hm (λ _. hk)

  pub Adds-when :
      (b : Bool) (m : Action H (Unit {0})) (rs : List R)
      → Adds m rs
      → Adds (when b m) (if b then rs else [])
  Adds-when true m rs h = h
  Adds-when false m rs h = Adds-done

  pub Adds-for_each :
      {A : Type 0} (f : A → Action H (Unit {0})) (g : A → List R)
      → ((x : A) → Adds (f x) (g x))
      → (xs : List A) → Adds (for_each xs f) (flat_map g xs)
  unfolding for_each flat_map
  Adds-for_each f g h [] = Adds-done
  Adds-for_each f g h (x ∷ xs) =
      Adds->> (f x) (for_each xs f) (g x) (flat_map g xs) (h x) (Adds-for_each f g h xs)

  pub Adds-if :
      (b : Bool) (m k : Action H (Unit {0})) (rs ss : List R)
      → Adds m rs
      → Adds k ss
      → Adds (if b then m else k) (if b then rs else ss)
  Adds-if true m k rs ss p q w a w' e = p w a w' e
  Adds-if false m k rs ss p q w a w' e = q w a w' e

  -- The same where nothing is added.
  pub Adds-if_nil :
      (b : Bool) (m k : Action H (Unit {0})) → Adds m [] → Adds k [] → Adds (if b then m else k) []
  Adds-if_nil true m k p q w a w' e = p w a w' e
  Adds-if_nil false m k p q w a w' e = q w a w' e

  pub Adds-when_nil : (b : Bool) (m : Action H (Unit {0})) → Adds m [] → Adds (when b m) []
  Adds-when_nil b m h = Adds-if_nil b m done h Adds-done

  pub Adds-for_each_nil :
      {A : Type 0} (f : A → Action H (Unit {0}))
      → ((x : A) → Adds (f x) [])
      → (xs : List A) → Adds (for_each xs f) []
  unfolding for_each
  Adds-for_each_nil f h [] w a w' e = Adds-done w a w' e
  Adds-for_each_nil f h (x ∷ xs) w a w' e =
      Adds->> (f x) (for_each xs f) [] [] (h x) (Adds-for_each_nil f h xs) w a w' e

  -- An action that leaves what is observed alone, whether it succeeds or fails.
  abbrev pub Keeps : {A : Type 0} → Action H A → Type 0
  Keeps m = (w : World H) → view (m w).1.applied ≡ view w.applied

  pub Keeps->>= :
      {A B : Type 0} (m : Action H A) (f : A → Action H B)
      → Keeps m
      → ((a : A) → Keeps (f a))
      → Keeps (m >>= f)
  Keeps->>= {A} {B} m f hm hf w = go (m w) (hm w)
    where
      go :
          (x : Result A × World H)
          → view x.1.applied ≡ view w.applied
          → (let (r, w1) = x in
              let y : Result B × World H = elim r [ ok a ↦ f a w1 | err e ↦ (err e, w1) ] in
              view y.1.applied ≡ view w.applied)
      go (ok a, w1) k = hf a w1 ∙ k
      go (err e, w1) k = k

  pub Keeps->> :
      {A B : Type 0} (m : Action H A) (k : Action H B) → Keeps m → Keeps k → Keeps (m >> k)
  Keeps->> m k hm hk = Keeps->>= m (λ _. k) hm (λ _. hk)

  pub Keeps-when : (b : Bool) (m : Action H (Unit {0})) → Keeps m → Keeps (when b m)
  Keeps-when true m h w = h w
  Keeps-when false m h w = refl

  pub Keeps-for_each :
      {A : Type 0} (f : A → Action H (Unit {0}))
      → ((x : A) → Keeps (f x))
      → (xs : List A) → Keeps (for_each xs f)
  unfolding for_each
  Keeps-for_each f h [] w = refl
  Keeps-for_each f h (x ∷ xs) w =
      Keeps->>= (f x) (λ _. for_each xs f) (h x) (λ _. Keeps-for_each f h xs) w

-- An action that never throws.
module _ {H : Host} where
  abbrev pub Succeeds : {A : Type 0} → Action H A → Type 0
  Succeeds {A} m = (w : World H) → (a : A) × ((m w).0 ≡ ok a)

  pub Succeeds->>= :
      {A B : Type 0} (m : Action H A) (f : A → Action H B)
      → Succeeds m
      → ((a : A) → Succeeds (f a))
      → Succeeds (m >>= f)
  Succeeds->>= {A} {B} m f hm hf w = go (m w) (hm w)
    where
      go :
          (x : Result A × World H)
          → ((a : A) × (x.0 ≡ ok a))
          → (let (r, w1) = x in
              let y : Result B × World H = elim r [ ok a ↦ f a w1 | err e ↦ (err e, w1) ] in
              (b : B) × (y.0 ≡ ok b))
      go (ok a, w1) k = hf a w1
      go (err e, w1) (a, k) = absurd (cc k)

  pub Succeeds-if :
      {A : Type 0} (b : Bool) (m k : Action H A)
      → Succeeds m
      → Succeeds k
      → Succeeds (if b then m else k)
  Succeeds-if true m k h l w = h w
  Succeeds-if false m k h l w = l w

  pub run_command-Succeeds :
      (dry : Bool) (binary : String) (args : List String)
      → Succeeds (run_command {H = H} dry binary true args)
  unfolding run_command
  run_command-Succeeds true binary args w = (record { ok = true; stdout = "" }, refl)
  run_command-Succeeds false binary args w = go (exec_file binary args w)
    where
      go :
          (x : Outcome × World H)
          → (a : RunResult) × ((answer false binary true args x.0 x.1).0 ≡ ok a)
      go (exited out errors, w1) = (record { ok = true; stdout = out }, refl)
      go (failed out errors message, w1) = (record { ok = false; stdout = text_or_empty out }, refl)
