-- ===== src/Agent/Killer/States.antt =====
-- What the killer remembers between cycles.
use guardtime.Base.{
  String, ◌≡◌, refl, ap, sym, subst, ◌∙◌, string_eq, option_eq, true, false, none, some, List, [],
  ◌∷◌, contains, contains_iff, ◌∈◌, arith, if◌then◌else◌, inl, inr, Bool-cases, Option-cases,
}
use guardtime.Base.Dict
use guardtime.Base.Dict.{Dict, lookup-insert, lookup-erase, lookup-insert_self, lookup-insert_ne}
use guardtime.Agent.Target.{Target}
use guardtime.Agent.Guard.Defs.{Guard}
use guardtime.Agent.Killer.{Previous, previous_of, store_states, drop_unseen, ids, remember_states}

-- No device occurs twice.
abbrev pub Distinct : List Target → Type 0
Distinct [] = Unit
Distinct (t ∷ ts) = (¬ (t.device_id ∈ ids ts)) × Distinct ts

lookup-store_states_other :
    (id : String) (ts : List Target) (d : Dict String Previous)
    → ¬ (id ∈ ids ts)
    → Dict.lookup id (store_states ts d) ≡ Dict.lookup id d
unfolding store_states
lookup-store_states_other id [] d h = refl
lookup-store_states_other id (t ∷ ts) d h =
    lookup-store_states_other id ts (Dict.insert t.device_id (previous_of t) d) (λ m. h (inr m))
    ∙ lookup-insert_ne id t.device_id (previous_of t) d (λ e. h (inl e))

lookup-store_states :
    (t : Target) (ts : List Target) (d : Dict String Previous)
    → Distinct ts
    → t ∈ ts
    → Dict.lookup t.device_id (store_states ts d) ≡ some (previous_of t)
unfolding store_states
lookup-store_states t [] d h m = elim m [ ]
lookup-store_states t (x ∷ xs) d (new, rest) (inl e) =
    let stored = store_states xs (Dict.insert x.device_id (previous_of x) d) in
    subst (λ (y : Target). Dict.lookup y.device_id stored ≡ some (previous_of y)) (sym e)
      (lookup-store_states_other x.device_id xs (Dict.insert x.device_id (previous_of x) d) new
        ∙ lookup-insert_self x.device_id (previous_of x) d)
lookup-store_states t (x ∷ xs) d (new, rest) (inr m) =
    lookup-store_states t xs (Dict.insert x.device_id (previous_of x) d) rest m

lookup-drop_unseen_seen :
    (seen ks : List String) (id : String) (d : Dict String Previous)
    → contains seen id ≡ true
    → Dict.lookup id (drop_unseen seen ks d) ≡ Dict.lookup id d
unfolding drop_unseen
lookup-drop_unseen_seen seen [] id d h = refl
lookup-drop_unseen_seen seen (k ∷ ks) id d h =
    lookup-drop_unseen_seen seen ks id (if contains seen k then d else Dict.erase k d) h
    ∙ ground (arith, lookup-erase id k d)

lookup-drop_unseen-none :
    (seen ks : List String) (id : String) (d : Dict String Previous)
    → Dict.lookup id d ≡ none
    → Dict.lookup id (drop_unseen seen ks d) ≡ none
unfolding drop_unseen
lookup-drop_unseen-none seen [] id d h = h
lookup-drop_unseen-none seen (k ∷ ks) id d h =
    lookup-drop_unseen-none seen ks id (if contains seen k then d else Dict.erase k d)
      (ground (arith, lookup-erase id k d))

lookup-drop_unseen-erase :
    (seen ks : List String) (id : String) (d : Dict String Previous)
    → contains seen id ≡ false
    → id ∈ ks
    → Dict.lookup id (drop_unseen seen ks d) ≡ none
unfolding drop_unseen
lookup-drop_unseen-erase seen [] id d h m = elim m [ ]
lookup-drop_unseen-erase seen (k ∷ ks) id d h (inl e) =
    lookup-drop_unseen-none seen ks id (if contains seen k then d else Dict.erase k d)
      (ground (arith, lookup-erase id k d))
lookup-drop_unseen-erase seen (k ∷ ks) id d h (inr m) =
    lookup-drop_unseen-erase seen ks id (if contains seen k then d else Dict.erase k d) h m

mem-keys :
    (id : String) (d : Dict String Previous) (p : Previous)
    → Dict.lookup id d ≡ some p
    → id ∈ Dict.keys d
unfolding Dict.lookup
mem-keys id [] p h = absurd (cc h)
mem-keys id ((k, x) ∷ d) p h = ground (arith, mem-keys id d p)

mem-ids : (t : Target) (ts : List Target) → t ∈ ts → t.device_id ∈ ids ts
mem-ids t [] m = elim m [ ]
mem-ids t (x ∷ xs) (inl e) = inl (ap (λ (y : Target). y.device_id) e)
mem-ids t (x ∷ xs) (inr m) = inr (mem-ids t xs m)

unseen : (seen : List String) (id : String) → ¬ (id ∈ seen) → contains seen id ≡ false
unseen seen id h = elim (Bool-cases (contains seen id)) [
  | inl e ↦ absurd (h ((contains_iff seen id).0 e))
  | inr e ↦ e
]

-- After a cycle in which no device occurs twice, the killer remembers the state of every target of
-- the cycle, whatever it remembered before.
pub remember_states_keeps :
    (ts : List Target) (d : Dict String Previous) (t : Target)
    → Distinct ts
    → t ∈ ts
    → Dict.lookup t.device_id (remember_states ts d) ≡ some (previous_of t)
unfolding remember_states
remember_states_keeps ts d t h m =
    let stored = store_states ts d in
    lookup-drop_unseen_seen (ids ts) (Dict.keys stored) t.device_id stored
      ((contains_iff (ids ts) t.device_id).1 (mem-ids t ts m))
    ∙ lookup-store_states t ts d h m

-- After a cycle the killer remembers no device that is not a target of the cycle.
pub remember_states_forgets :
    (ts : List Target) (d : Dict String Previous) (id : String)
    → ¬ (id ∈ ids ts)
    → Dict.lookup id (remember_states ts d) ≡ none
unfolding remember_states
remember_states_forgets ts d id m =
    let stored = store_states ts d in
    elim (Option-cases (Dict.lookup id stored)) [
      | inl e ↦ lookup-drop_unseen-none (ids ts) (Dict.keys stored) id stored e
      | inr (p, e) ↦
          lookup-drop_unseen-erase (ids ts) (Dict.keys stored) id stored (unseen (ids ts) id m)
            (mem-keys id stored p e)
    ]
