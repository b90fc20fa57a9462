-- ===== src/Agent/Router/Strategies.antt =====
-- `runMultiStrategyAction`: the attempts that the strategies of a command leave behind.
use guardtime.Base.{String, ◌≡◌, ◌≢◌, Bool, true, false, Option, none, some, List, [], ◌∷◌}
use guardtime.Base.Result.{Result, ok, err}
use guardtime.Agent.Router.{Attempt, CommandResult}

-- How the attempts of a command go through its strategies: those that the map of methods does not
-- know are skipped, each other one fails, until one succeeds or none is left.
pub data Trace (method_of : String → Option String) (success : Bool) (used_one : Option String)
    : List String → List Attempt → Type 0 where
  exhausted : success ≡ false → used_one ≡ none → Trace method_of success used_one [] []
  skipped :
      {x : String} {ss : List String} {as' : List Attempt}
      → method_of x ≡ none
      → Trace method_of success used_one ss as'
      → Trace method_of success used_one (x ∷ ss) as'
  failed :
      {x : String} {ss : List String} {a : Attempt} {as' : List Attempt}
      → method_of x ≢ none
      → a.strategy ≡ x
      → a.answer.success ≡ false
      → Trace method_of success used_one ss as'
      → Trace method_of success used_one (x ∷ ss) (a ∷ as')
  succeeded :
      {x : String} {ss : List String} {a : Attempt}
      → method_of x ≢ none
      → a.strategy ≡ x
      → a.answer.success ≡ true
      → a.rolled_back ≡ none
      → success ≡ true
      → used_one ≡ some x
      → Trace method_of success used_one (x ∷ ss) (a ∷ [])

abbrev pub Traced :
    (method_of : String → Option String)
    → List String
    → {S : Type 0} → Result CommandResult × S
    → Type 0
Traced method_of ss (ok r, s) = Trace method_of r.success r.strategy_used ss r.attempts
Traced method_of ss (err _, s) = Unit
