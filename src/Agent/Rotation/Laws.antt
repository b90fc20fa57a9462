-- ===== src/Agent/Rotation/Laws.antt =====
-- What a rotation leaves in memory, and when it writes.
use guardtime.Base.{
  String, ◌≡◌, refl, ◌==◌, string_eq, Option, none, some, arith, if◌then◌else◌, inl, inr,
  Bool-cases, true, false, ◌⊎◌,
}
use guardtime.Agent.Rotation.{Files, Agent, apply_rotated_token}

-- The token that is in use after a rotation.
abbrev pub token_after : Option String → String → String
token_after none old = old
token_after (some new_token) old = if new_token == "" then old else new_token

pub eq-true : (s t : String) → s ≡ t → s == t ≡ true
eq-true s t h = ground arith

module _ (F : Files) (path : String) where
  -- Where the backend client and the settings hold one token, they still hold one after a rotation,
  -- and it is the new token, if that is there and not empty, whether or not the file was written.
  pub rotation_agrees :
      (new_token : Option String) (a : Agent F)
      → a.backend_token ≡ a.config_token
      → ((apply_rotated_token F path new_token a).backend_token
          ≡ token_after new_token a.config_token)
        × ((apply_rotated_token F path new_token a).config_token
            ≡ token_after new_token a.config_token)
  unfolding apply_rotated_token
  rotation_agrees none a h = (h, refl)
  rotation_agrees (some t) a h = ground arith

  apply_rotated_token-idle :
      (t : String) (a : Agent F)
      → (t == "" ≡ true) ⊎ (t ≡ a.config_token)
      → apply_rotated_token F path (some t) a ≡ a
  unfolding apply_rotated_token
  apply_rotated_token-idle t a (inl e) = rw e refl
  apply_rotated_token-idle t a (inr e) =
      let same : t == a.config_token ≡ true = eq-true t a.config_token e in
      elim (Bool-cases (t == "")) [ inl b ↦ rw b refl | inr b ↦ rw (b, same) refl ]

  apply_rotated_token-takes :
      (t : String) (a : Agent F)
      → t == "" ≡ false
      → t ≡ (apply_rotated_token F path (some t) a).config_token
  unfolding apply_rotated_token
  apply_rotated_token-takes t a h = ground arith

  -- A second rotation to the same token changes nothing: it does not write the file again, also
  -- where the first one failed to write it.
  pub rotation_runs_once :
      (new_token : Option String) (a : Agent F)
      → apply_rotated_token F path new_token (apply_rotated_token F path new_token a)
        ≡ apply_rotated_token F path new_token a
  unfolding apply_rotated_token
  rotation_runs_once none a = refl
  rotation_runs_once (some t) a =
      let b = apply_rotated_token F path (some t) a in
      elim (Bool-cases (t == "")) [
        | inl e ↦ apply_rotated_token-idle t b (inl e)
        | inr e ↦ apply_rotated_token-idle t b (inr (apply_rotated_token-takes t a e))
      ]
