-- ===== src/Agent/Plugins/Unifi/Calls.antt =====
-- What a call of a UniFi method makes of the outcome of its first step.
use guardtime.Base.{String, ◌<>◌, ◌≡◌, refl, ap, ◌∙◌, false}
use guardtime.Base.Result.{Result, ok, err}
use guardtime.Agent.Plugins.{PluginResult, says, Call}
use guardtime.Agent.Plugins.Unifi.{◌>>=◌, attempt}

abbrev bound : {S A B : Type 0} → (A → Call S B) → Result A × S → Result B × S
bound f (ok a, s) = f a s
bound f (err e, s) = (err e, s)

abbrev attempted : {S : Type 0} → String → Result PluginResult × S → Result PluginResult × S
attempted word (ok r, s) = (ok r, s)
attempted word (err e, s) = (ok (says false (word <> " failed: " <> e)), s)

module _ {S : Type 0} where
  >>=-bound : {A B : Type 0} (m : Call S A) (f : A → Call S B) (s : S) → (m >>= f) s ≡ bound f (m s)
  >>=-bound {A} {B} m f s = go (m s)
    where
      go :
          (x : Result A × S)
          → (let (r, t) = x in
              let y : Result B × S = elim r [ ok b ↦ f b t | err e ↦ (err e, t) ] in y)
            ≡ bound f x
      go (ok a, t) = refl
      go (err e, t) = refl

  pub >>=-ok :
      {A B : Type 0} (m : Call S A) (f : A → Call S B) (a : A) (s s1 : S)
      → m s ≡ (ok a, s1)
      → (m >>= f) s ≡ f a s1
  >>=-ok m f a s s1 h = >>=-bound m f s ∙ ap (bound f) h

  pub >>=-err :
      {A B : Type 0} (m : Call S A) (f : A → Call S B) (e : String) (s s1 : S)
      → m s ≡ (err e, s1)
      → (m >>= f) s ≡ (err e, s1)
  >>=-err m f e s s1 h = >>=-bound m f s ∙ ap (bound f) h

  attempt-attempted :
      (word : String) (m : Call S PluginResult) (s : S) → attempt word m s ≡ attempted word (m s)
  attempt-attempted word m s = go (m s)
    where
      go :
          (x : Result PluginResult × S)
          → (let (r, t) = x in
              let y : Result PluginResult × S = elim r [
                | ok b ↦ (ok b, t)
                | err e ↦ (ok (says false (word <> " failed: " <> e)), t)
              ] in
              y)
            ≡ attempted word x
      go (ok a, t) = refl
      go (err e, t) = refl

  pub attempt-ok :
      (word : String) (m : Call S PluginResult) (a : PluginResult) (s s1 : S)
      → m s ≡ (ok a, s1)
      → attempt word m s ≡ (ok a, s1)
  attempt-ok word m a s s1 h = attempt-attempted word m s ∙ ap (attempted word) h

  pub attempt-err :
      (word : String) (m : Call S PluginResult) (e : String) (s s1 : S)
      → m s ≡ (err e, s1)
      → attempt word m s ≡ (ok (says false (word <> " failed: " <> e)), s1)
  attempt-err word m e s s1 h = attempt-attempted word m s ∙ ap (attempted word) h
