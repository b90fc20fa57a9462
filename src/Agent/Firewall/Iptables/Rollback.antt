-- ===== src/Agent/Firewall/Iptables/Rollback.antt =====
-- What a pass that fails makes of the rule set.
use guardtime.Base.{String, ◌≡◌, Bool, Option, none, some, [], ◌∷◌}
use guardtime.Agent.Host.{Host, World, exited, failed}
use guardtime.Agent.Config.{Config}
use guardtime.Agent.Firewall.Iptables.{save_binary, restore_binary, rollback_file, Iptables}

-- What is documented of the tools that a rollback uses, where they succeed: `iptables-save` prints the
-- rule set and leaves it alone, a file that was written has the text, `iptables-restore` loads the
-- rule set that a file holds, and removing a file does not touch the rules. Each may fail.
pub record Restorable (H : Host) (c : Config) (ipv6 : Bool) : Type 0 where
  pub current_rules : H.State → String
  pub file_text : H.State → String → String
  pub saves :
      (s s' : H.State) (out errors : String)
      → H.exec (save_binary c ipv6) [] s ≡ (exited out errors, s')
      → out ≡ current_rules s
  pub writes :
      (file text : String) (s s' : H.State)
      → H.write_file file text s ≡ (none, s')
      → file_text s' file ≡ text
  pub restores :
      (file : String) (s s' : H.State) (out errors : String)
      → H.exec (restore_binary c ipv6) (file ∷ []) s ≡ (exited out errors, s')
      → current_rules s' ≡ file_text s file
  pub unlinks : (file : String) (s : H.State) → current_rules (H.unlink file s) ≡ current_rules s

-- What became of the rule set `before` in a rollback that was started in the world `w2`: there was no
-- snapshot and nothing was done; or the snapshot could not be written to its file; or it was written
-- and `iptables-restore` was run on it, and failed, or gave `before` back.
pub data RolledBack {H : Host} (c : Config) (ipv6 : Bool) (rules : H.State → String)
    (snapshot : Option String) (before : String) (w2 w' : World H) : Type 0 where
  no_snapshot : snapshot ≡ none → w' ≡ w2 → RolledBack c ipv6 rules snapshot before w2 w'
  unwritten :
      (text message : String)
      → snapshot ≡ some text
      → H.write_file (rollback_file {H = H} c ipv6 w2) text w2.state ≡ (some message, w'.state)
      → RolledBack c ipv6 rules snapshot before w2 w'
  unrestored :
      (text message : String) (out errors : Option String) (s1 s2 : H.State)
      → snapshot ≡ some text
      → H.write_file (rollback_file {H = H} c ipv6 w2) text w2.state ≡ (none, s1)
      → H.exec (restore_binary c ipv6) (rollback_file {H = H} c ipv6 w2 ∷ []) s1
        ≡ (failed out errors message, s2)
      → RolledBack c ipv6 rules snapshot before w2 w'
  restored :
      snapshot ≡ some before
      → rules w'.state ≡ before
      → RolledBack c ipv6 rules snapshot before w2 w'
