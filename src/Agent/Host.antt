-- ===== src/Agent/Host.antt =====
-- The machine under the agent: the tools that it runs through `execFile`, and the temporary files
-- of a rollback. Both are parameters; what the code does with their answers is modelled. Log lines
-- are left out: no code reads them.
pub mod Laws
pub use guardtime.Base.Result.{Result, ok, err}
use guardtime.Base.{
  ℕ, String, ◌<>◌, Bool, true, false, Option, none, some, List, [], ◌∷◌, ◌or_else◌, string_eq,
  if◌then◌else◌, join,
}

-- What `execFileAsync` resolves to, or the fields of the error that it throws.
pub data Outcome : Type 0 where
  exited : (stdout stderr : String) → Outcome
  failed : (stdout stderr : Option String) (message : String) → Outcome

pub record Host : Type 1 where
  pub State : Type 0
  -- A binary with its arguments.
  pub exec : String → List String → State → Outcome × State
  -- The message of the error, if writing fails.
  pub write_file : (path text : String) → State → Option String × State
  pub unlink : String → State → State
  pub now : State → ℕ
  -- `os.tmpdir()`
  pub tmpdir : String

pub record Command : Type 0 where
  pub binary : String
  pub args : List String

-- The machine's state, with the commands that have succeeded so far, the newest first.
pub record World (H : Host) : Type 0 where
  pub state : H.State
  pub applied : List Command

abbrev pub Action : Host → Type 0 → Type 0
Action H A = World H → Result A × World H

module _ {H : Host} where
  infixl 5 ◌>>=◌ ◌>>◌
  abbrev pub ◌>>=◌ : {A B : Type 0} → Action H A → (A → Action H B) → Action H B
  ◌>>=◌ m f w = let (r, w') = m w in elim r [ ok a ↦ f a w' | err e ↦ (err e, w') ]

  abbrev pub ◌>>◌ : {A B : Type 0} → Action H A → Action H B → Action H B
  m >> k = m >>= λ _. k

  abbrev pub pure : {A : Type 0} → A → Action H A
  pure a w = (ok a, w)

  abbrev pub throw : {A : Type 0} → String → Action H A
  throw message w = (err message, w)

  abbrev pub done : Action H (Unit {0})
  done = pure tt

  abbrev pub when : Bool → Action H (Unit {0}) → Action H (Unit {0})
  when b m = if b then m else done

  -- `for (const x of xs) await f(x)`
  unfoldable pub for_each : {A : Type 0} → List A → (A → Action H (Unit {0})) → Action H (Unit {0})
  for_each [] f = done
  for_each (x ∷ xs) f = f x >> for_each xs f

  -- `m.catch(handler)`, and `try`/`catch`
  abbrev pub catch : {A : Type 0} → Action H A → (String → Action H A) → Action H A
  catch m handler w = let (r, w') = m w in elim r [ ok a ↦ (ok a, w') | err e ↦ handler e w' ]

  -- `execFileAsync(binary, args)`
  unfoldable pub exec_file : String → List String → World H → Outcome × World H
  exec_file binary args w =
      let (outcome, s) = H.exec binary args w.state in
      elim outcome [
        | exited out errors ↦ (
          exited out errors,
          record { state = s; applied = record { binary = binary; args = args } ∷ w.applied },
        )
        | failed out errors message ↦ (failed out errors message, record w { state = s })
      ]

pub record RunResult : Type 0 where
  pub ok : Bool
  pub stdout : String

abbrev pub text_or_empty : Option String → String
text_or_empty none = ""
text_or_empty (some s) = s

-- The `run(args, opts)` that the controllers share, word for word but for their binary.
module _ {H : Host} (dry_run : Bool) (binary : String) where
  unfoldable pub answer : (ignore_failure : Bool) → List String → Outcome → Action H RunResult
  answer ignore_failure args (exited out errors) = pure (record { ok = true; stdout = out })
  answer ignore_failure args (failed out errors message) =
      if ignore_failure
      then pure (record { ok = false; stdout = text_or_empty out })
      else throw (
          binary
          <> " "
          <> join " " args
          <> " failed: "
          <> text_or_empty (errors or_else some message))

  unfoldable pub run_command : (ignore_failure : Bool) → List String → Action H RunResult
  unfolding answer exec_file
  run_command ignore_failure args w =
      if dry_run
      then (ok (record { ok = true; stdout = "" }), w)
      else let (outcome, w') = exec_file binary args w in answer ignore_failure args outcome w'
