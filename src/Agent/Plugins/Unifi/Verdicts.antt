-- ===== src/Agent/Plugins/Unifi/Verdicts.antt =====
-- What the UniFi plugin answers when it is told to block a client.
use guardtime.Base.{
  String, ◌<>◌, string_eq, ◌≡◌, ◌≢◌, refl, ap, sym, subst, ◌∙◌, true, false, Option, none, some,
  find, to_lower, or_null, if◌then◌else◌, Option-cases, Bool-cases, inl, inr,
}
use guardtime.Base.Result.{Result, ok, err, Result-cases}
use guardtime.Agent.Plugins.{PluginResult, says, Context, Call}
use guardtime.Agent.Plugins.Unifi.{
  Item, Data, Web, Session, login, stamgr_command, api_request, find_client, has_mac, no_data, give,
  verdict, attempt, ◌>>=◌,
}
use guardtime.Agent.Plugins.Unifi.Calls.{>>=-ok, >>=-err, attempt-ok, attempt-err}
use guardtime.Agent.Plugins.Unifi.Methods.{read_back, block_mac, checked, spelled}

-- What a step makes of an outcome that is known.
abbrev found : {S : Type 0} → (mac : String) → Result Data × S → Result (Option Item) × S
unfolding find to_lower
found mac (ok d, s) = (ok (find (has_mac mac) d.items), s)
found mac (err _, s) = (ok (find (has_mac mac) no_data.items), s)

module _ {S : Type 0} (W : Web S) (ctx : Context) where
  unfoldable pub client_list : Session → S → Result Data × S
  unfolding api_request
  client_list session = api_request W ctx session "GET" "/stat/sta" none

  -- What is answered once the client was told off, by the list of clients that is read back.
  pub data Verdict (session : Session) (mac : String) (s : S) : PluginResult → S → Type 0 where
    listed_blocked :
        (d : Data) (client : Item) (s1 : S)
        → client_list session s ≡ (ok d, s1)
        → find (has_mac mac) d.items ≡ some client
        → client.blocked ≡ true
        → Verdict session mac s (says true (mac <> " blocked")) s1
    listed_free :
        (d : Data) (client : Item) (s1 : S)
        → client_list session s ≡ (ok d, s1)
        → find (has_mac mac) d.items ≡ some client
        → client.blocked ≡ false
        → Verdict session mac s (says false "block-sta did not verify") s1
    unlisted :
        (d : Data) (s1 : S)
        → client_list session s ≡ (ok d, s1)
        → find (has_mac mac) d.items ≡ none
        → Verdict session mac s (says true (mac <> " blocked")) s1
    unread :
        (e : String) (s1 : S)
        → client_list session s ≡ (err e, s1)
        → Verdict session mac s (says true (mac <> " blocked")) s1

  -- How `blockMAC` answers, and the state that it leaves.
  pub data Answers (given : Option String) (s : S) : Result PluginResult × S → Type 0 where
    dry :
        ctx.dry_run ≡ true
        → Answers given s
            (ok (says true ("[dry-run] " <> ("block-sta " <> spelled W ctx given))), s)
    no_address :
        ctx.dry_run ≡ false
        → or_null given ≡ none
        → Answers given s (ok (says false "macAddress is required"), s)
    no_login :
        (e : String) (s1 : S)
        → ctx.dry_run ≡ false
        → or_null given ≢ none
        → login W ctx s ≡ (err e, s1)
        → Answers given s (ok (says false ("blockMAC" <> " failed: " <> e)), s1)
    refused :
        (mac e : String) (session : Session) (s1 s2 : S)
        → ctx.dry_run ≡ false
        → or_null given ≡ some mac
        → login W ctx s ≡ (ok session, s1)
        → stamgr_command W ctx session "block-sta" mac s1 ≡ (err e, s2)
        → Answers given s (ok (says false ("blockMAC" <> " failed: " <> e)), s2)
    taken :
        (mac : String) (session : Session) (d : Data) (r : PluginResult) (s1 s2 s3 : S)
        → ctx.dry_run ≡ false
        → or_null given ≡ some mac
        → login W ctx s ≡ (ok session, s1)
        → stamgr_command W ctx session "block-sta" mac s1 ≡ (ok d, s2)
        → Verdict session mac s2 r s3
        → Answers given s (ok r, s3)

  find_client-found :
      (session : Session) (mac : String) (s : S)
      → find_client W ctx session mac s ≡ found mac (client_list session s)
  unfolding find_client find client_list
  find_client-found session mac s = go (client_list session s)
    where
      go :
          (x : Result Data × S)
          → (let (r, s1) = x in
              let recovered : Result Data × S = elim r [
                | ok d ↦ (ok d, s1)
                | err _ ↦ (ok no_data, s1)
              ] in
              let (r2, s2) = recovered in
              let y : Result (Option Item) × S = elim r2 [
                | ok d ↦ (ok (find (has_mac mac) d.items), s2)
                | err e ↦ (err e, s2)
              ] in
              y ≡ found mac x)
      go (ok d, s1) = refl
      go (err e, s1) = refl

  find_client-read :
      (session : Session) (mac : String) (d : Data) (s s1 : S)
      → client_list session s ≡ (ok d, s1)
      → find_client W ctx session mac s ≡ (ok (find (has_mac mac) d.items), s1)
  unfolding find_client client_list
  find_client-read session mac d s s1 h = find_client-found session mac s ∙ ap (found mac) h

  find_client-unread :
      (session : Session) (mac e : String) (s s1 : S)
      → client_list session s ≡ (err e, s1)
      → find_client W ctx session mac s ≡ (ok none, s1)
  unfolding find_client client_list find
  find_client-unread session mac e s s1 h = find_client-found session mac s ∙ ap (found mac) h

  abbrev reading : Session → (mac : String) → Call S PluginResult
  unfolding find_client
  reading session mac = read_back W ctx session true mac " blocked" "block-sta did not verify"

  abbrev said : (mac : String) → Option Item → PluginResult
  said mac client =
      if verdict true client
      then says true (mac <> " blocked")
      else says false "block-sta did not verify"

  reading-at :
      (session : Session) (mac : String) (o : Option Item) (s s1 : S)
      → find_client W ctx session mac s ≡ (ok o, s1)
      → reading session mac s ≡ (ok (said mac o), s1)
  unfolding reading find_client
  reading-at session mac o s s1 h =
      >>=-ok (find_client W ctx session mac) (λ client. give (said mac client)) o s s1 h

  -- The read-back never throws.
  read_back-Verdict :
      (session : Session) (mac : String) (s : S)
      → (r : PluginResult) × (s1 : S) × (reading session mac s ≡ (ok r, s1))
        × Verdict session mac s r s1
  read_back-Verdict session mac s =
      let s1 = (client_list session s).1 in
      let reads = λ (o : Option Item). reading-at session mac o s s1 in
      elim (Result-cases (client_list session s).0) [
        | inr (e, f) ↦
            let h : client_list session s ≡ (err e, s1) = ap (λ r. (r, s1)) f in
            (
              says true (mac <> " blocked"),
              s1,
              reads none (find_client-unread session mac e s s1 h),
              unread e s1 h,
            )
        | inl (d, f) ↦
            let h : client_list session s ≡ (ok d, s1) = ap (λ r. (r, s1)) f in
            let at = find_client-read session mac d s s1 h in
            elim (Option-cases (find (has_mac mac) d.items)) [
              | inl g ↦ (
                says true (mac <> " blocked"),
                s1,
                reads none (at ∙ ap (λ o. (ok o, s1)) g),
                unlisted d s1 h g,
              )
              | inr (client, g) ↦
                  let got = reads (some client) (at ∙ ap (λ o. (ok o, s1)) g) in
                  elim (Bool-cases client.blocked) [
                    | inl b ↦ (
                      says true (mac <> " blocked"),
                      s1,
                      got ∙ rw b refl,
                      listed_blocked d client s1 h g b,
                    )
                    | inr b ↦ (
                      says false "block-sta did not verify",
                      s1,
                      got ∙ rw b refl,
                      listed_free d client s1 h g b,
                    )
                  ]
            ]
      ]

  module _ (description missing : String) (act : String → Call S PluginResult) (s : S) where
    checked-dry :
        (o : Option String)
        → ctx.dry_run ≡ true
        → checked W ctx description missing o act s
          ≡ (ok (says true ("[dry-run] " <> description)), s)
    checked-dry o d = rw d refl

    checked-missing :
        (o : Option String)
        → ctx.dry_run ≡ false
        → or_null o ≡ none
        → checked W ctx description missing o act s ≡ (ok (says false missing), s)
    checked-missing o live n = rw (live, n) refl

    checked-live :
        (o : Option String) (value : String)
        → ctx.dry_run ≡ false
        → or_null o ≡ some value
        → checked W ctx description missing o act s ≡ act value s
    checked-live o value live present = rw (live, present) refl

  -- What the plugin answers when it is told to block a client, on every path; it never throws. A dry
  -- run succeeds and a missing address fails, both without a request. A login or a command that
  -- fails is answered by a failure with its message. After that the list of clients that it reads
  -- back decides: it answers that the client is blocked if it is listed as blocked, or is not
  -- listed, and so too if the list cannot be read at all; and fails only if the client is listed as
  -- not blocked.
  pub block_mac-Answers :
      (given : Option String) (s : S) → Answers given s (block_mac W ctx given s)
  unfolding block_mac
  block_mac-Answers given s = elim (Bool-cases ctx.dry_run) [
    | inl d ↦ subst (Answers given s) (sym (checked-dry _ _ _ s given d)) (dry d)
    | inr live ↦ elim (Option-cases (or_null given)) [
      | inl n ↦
          subst (Answers given s) (sym (checked-missing _ _ _ s given live n)) (no_address live n)
      | inr (mac, present) ↦
          let s1 = (login W ctx s).1 in
          let tell = λ (session : Session). stamgr_command W ctx session "block-sta" mac in
          let after = λ (session : Session) (_ : Data). reading session mac in
          let command = λ (session : Session). tell session >>= after session in
          let act = attempt "blockMAC" (login W ctx >>= command) in
          let shown : (x : Result PluginResult × S)
              → act s ≡ x
              → Answers given s x
              → Answers given s (block_mac W ctx given s) =
            λ x e t.
              subst (Answers given s) (sym (checked-live _ _ _ s given mac live present ∙ e)) t in
          elim (Result-cases (login W ctx s).0) [
            | inr (e, f) ↦
                let h : login W ctx s ≡ (err e, s1) = ap (λ r. (r, s1)) f in
                shown _
                  (attempt-err "blockMAC" (login W ctx >>= command) e s s1
                    (>>=-err (login W ctx) command e s s1 h))
                  (no_login e s1 live (λ n. cc (n, present)) h)
            | inl (session, f) ↦
                let h : login W ctx s ≡ (ok session, s1) = ap (λ r. (r, s1)) f in
                let s2 = (tell session s1).1 in
                let on = >>=-ok (login W ctx) command session s s1 h in
                elim (Result-cases (tell session s1).0) [
                  | inr (e, g) ↦
                      let k : tell session s1 ≡ (err e, s2) = ap (λ r. (r, s2)) g in
                      shown _
                        (attempt-err "blockMAC" (login W ctx >>= command) e s s2
                          (on ∙ >>=-err (tell session) (after session) e s1 s2 k))
                        (refused mac e session s1 s2 live present h k)
                  | inl (d, g) ↦
                      let k : tell session s1 ≡ (ok d, s2) = ap (λ r. (r, s2)) g in
                      let (r, s3, read, told) = read_back-Verdict session mac s2 in
                      shown _
                        (attempt-ok "blockMAC" (login W ctx >>= command) r s s3
                          (on ∙ (>>=-ok (tell session) (after session) d s1 s2 k ∙ read)))
                        (taken mac session d r s1 s2 s3 live present h k told)
                ]
          ]
    ]
  ]
