-- ===== src/Agent/Router/Acks.antt =====
-- What is acknowledged.
use mathlib.Core.List.{append_assoc}
use guardtime.Base.{String, ◌≡◌, refl, Bool, false, Option, List, [], ◌∷◌, ◌++◌, inl, inr}
use guardtime.Base.Result.{Result, ok, err, Result-cases}
use guardtime.Agent.Router.{
  Services, Command, CommandResult, World, execute_command, ack, run_one, says,
}

-- What the turn of a command should say to the backend, by what came of it and by whether the first
-- report gets through.
abbrev pub reports :
    (V : Services) (c : Command) → Result CommandResult × V.State → List (String × Bool)
reports V c (err e, s) = (c.id, false) ∷ []
reports V c (ok r, s) =
    elim (V.ack_router_command c.id r.success r s).0 as (λ _. List (String × Bool)) [
      | ok _ ↦ (c.id, r.success) ∷ []
      | err _ ↦ (c.id, r.success) ∷ (c.id, false) ∷ []
    ]

module _ (V : Services) (plugin_id : Option String) (c : Command) (w : World V) where
  ends :
      (x : Result CommandResult × V.State)
      → (let (r, s1) = x in
          let w1 : World V = record w { state = s1 } in
          let y : World V = elim r [
            | err e ↦ (ack V c.id false (says e) w1).1
            | ok result ↦
                let (sent, w2) = ack V c.id result.success result w1 in
                elim sent [ ok _ ↦ w2 | err e ↦ (ack V c.id false (says e) w2).1 ]
          ] in
          y.acks)
        ≡ w.acks ++ reports V c x
  unfolding ack
  ends (err e, s1) = refl
  ends (ok r, s1) = elim (Result-cases (V.ack_router_command c.id r.success r s1).0) [
    | inl (_, e) ↦ rw (e, reports) refl
    | inr (m, e) ↦
        rw (e, reports) (append_assoc w.acks ((c.id, r.success) ∷ []) ((c.id, false) ∷ []))
  ]

  -- The turn of a command reports its result once where the report gets through; reports a failure
  -- once where the command throws; and where the report of a result does not get through, it
  -- reports the result and after it, whatever the result was, a failure.
  pub run_one-reports :
      (run_one V plugin_id c w).acks ≡ w.acks ++ reports V c (execute_command V c plugin_id w.state)
  unfolding run_one
  run_one-reports = ends (execute_command V c plugin_id w.state)
