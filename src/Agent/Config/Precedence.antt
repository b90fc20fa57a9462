-- ===== src/Agent/Config/Precedence.antt =====
-- Where a setting comes from: the environment, or the lines of the file.
use guardtime.Base.{
  String, ◌==◌, string_eq, ◌≡◌, refl, ap, ◌∙◌, true, Option, none, some, List, [], ◌∷◌, truthy,
  arith, if◌then◌else◌, split_lines, Bool-cases, inl, inr,
}
use guardtime.Base.Dict
use guardtime.Base.Dict.{Dict, lookup-insert}
use guardtime.Agent.Config.Load.{Env, setting_of, set_missing, read_settings, load_dot_env}

-- What the line gives for a name.
abbrev pub value_in : (name : String) → Option (String × String) → Option String
value_in name none = none
value_in name (some (key, value)) = if name == key then some value else none

-- The value that is known, or the one that a line offers.
abbrev pub offered : Option String → Option String → Option String
offered known none = known
offered known (some value) = some value

-- The first value that is not empty, of the one that is known and of those in the lines; else the
-- last one.
abbrev pub first_value : (name : String) → Option String → List String → Option String
first_value name known [] = known
first_value name known (line ∷ lines) =
    let rest = first_value name (offered known (value_in name (setting_of line))) lines in
    if truthy known then known else rest

lookup-set_missing :
    (name : String) (s : Option (String × String)) (env : Env)
    → Dict.lookup name (set_missing s env) ≡ (
        if truthy (Dict.lookup name env)
        then Dict.lookup name env
        else offered (Dict.lookup name env) (value_in name s))
lookup-set_missing name none env = ground arith
lookup-set_missing name (some (key, value)) env = ground (arith, lookup-insert name key value env)

first_value-known :
    (name : String) (known : Option String) (lines : List String)
    → truthy known ≡ true
    → first_value name known lines ≡ known
first_value-known name known [] h = refl
first_value-known name known (line ∷ lines) h = rw h refl

lookup-read_settings :
    (name : String) (lines : List String) (env : Env)
    → Dict.lookup name (read_settings lines env) ≡ first_value name (Dict.lookup name env) lines
unfolding read_settings
lookup-read_settings name [] env = refl
lookup-read_settings name (line ∷ lines) env =
    lookup-read_settings name lines (set_missing (setting_of line) env)
    ∙ ap (λ known. first_value name known lines) (lookup-set_missing name (setting_of line) env)
    ∙ elim (Bool-cases (truthy (Dict.lookup name env))) [
      | inl set ↦ rw set (first_value-known name (Dict.lookup name env) lines set)
      | inr open' ↦ rw open' refl
    ]

-- A setting is the environment's, if that is not empty, and else the first one of the .env file
-- that is not empty: a line sets it if it is no comment and its key, trimmed, is the name.
pub lookup-load_dot_env :
    (name : String) (file : String) (env : Env)
    → Dict.lookup name (load_dot_env (some file) env)
      ≡ first_value name (Dict.lookup name env) (split_lines file)
unfolding load_dot_env
lookup-load_dot_env name file env = lookup-read_settings name (split_lines file) env
