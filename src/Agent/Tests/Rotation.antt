-- ===== src/Agent/Tests/Rotation.antt =====
-- Runs of the rotation of the token, and its theorems at concrete data.
use guardtime.Base.{
  split_lines, String, ◌≡◌, refl, some, List, [], ◌∷◌, nat_eq, string_eq, join, trim,
}
use guardtime.Agent.Rotation.{
  Files, Agent, contents, apply_rotated_token, rotated_text, upsert, sets_token, drop_blank_end,
}
use guardtime.Agent.Rotation.Laws.{rotation_runs_once}
use guardtime.Agent.Rotation.Text.{Rotated, rotated_text-Rotated}

-- A disk that takes no writes, and counts them.
abbrev full_disk : Files
full_disk = record {
  State = List String;
  read_file = λ _ _. contents "A=1\nGATEWAY_TOKEN=old\n";
  write_file = λ _ text s. (some "ENOSPC", text ∷ s);
}

abbrev before : Agent full_disk
before = record { backend_token = "old"; config_token = "old"; disk = [] }

-- The token's line is replaced in its place, and the blank lines at the end are dropped.
replaced :
    rotated_text "new" "A=1\r\n GATEWAY_TOKEN = old\n#GATEWAY_TOKEN=x\n\n"
    ≡ "A=1\nGATEWAY_TOKEN=new\n#GATEWAY_TOKEN=x\n"
unfolding rotated_text upsert sets_token split_lines drop_blank_end nat_eq string_eq join trim
replaced = refl

appended : rotated_text "new" "" ≡ "GATEWAY_TOKEN=new\n"
unfolding rotated_text upsert sets_token split_lines drop_blank_end nat_eq string_eq join trim
appended = refl

rotation_runs_once_example :
    apply_rotated_token full_disk ".env"
      (some "new")
      (apply_rotated_token full_disk ".env" (some "new") before)
    ≡ apply_rotated_token full_disk ".env" (some "new") before
rotation_runs_once_example = rotation_runs_once full_disk ".env" (some "new") before

abbrev env_text : String
env_text = "A=1\nGATEWAY_TOKEN=old\n"

rotated_text-Rotated_example : Rotated "new" env_text (rotated_text "new" env_text)
rotated_text-Rotated_example = rotated_text-Rotated "new" env_text
