-- ===== src/Agent/Rotation.antt =====
-- gateway-agent/src/token-rotation.js: a token that the backend has rotated is taken up, and written
-- to the agent's .env file.
pub mod Laws
pub mod Text
use guardtime.Base.{
  split_lines, is_comment, cut_sign, ℕ, String, ◌<>◌, ◌==◌, string_eq, nat_eq, Bool, true, false,
  not, ◌&&◌, Option, none, some, List, [], ◌∷◌, ◌++◌, map, any, join, trim, truthy, if◌then◌else◌,
}
use guardtime.Base.Result.{Result, ok, err}

-- What `fs.readFile` does: the text, the error ENOENT, or another error with its message.
pub data Read : Type 0 where
  contents : String → Read
  missing : Read
  unreadable : String → Read

-- `fs.promises`, on the state of the disk; writing gives the message of its error, if it fails.
pub record Files : Type 1 where
  pub State : Type 0
  pub read_file : (path : String) → State → Read
  pub write_file : (path text : String) → State → Option String × State

-- The loop that pops the blank lines at the end.
unfoldable pub drop_blank_end : List String → List String
unfolding string_eq
drop_blank_end [] = []
drop_blank_end (l ∷ ls) = elim (drop_blank_end ls) [
  | [] ↦ if l == "" then [] else l ∷ []
  | m ∷ ms ↦ l ∷ m ∷ ms
]

-- Whether the line is replaced.
unfoldable pub sets_token : String → Bool
unfolding is_comment cut_sign trim string_eq
sets_token line =
    let trimmed = trim line in
    if is_comment trimmed
    then false
    else elim (cut_sign trimmed) [ none ↦ false | some (key, _) ↦ trim key == "GATEWAY_TOKEN" ]

abbrev pub token_line : String → String
token_line new_token = "GATEWAY_TOKEN=" <> new_token

unfoldable pub upsert : (new_token : String) → List String → List String
unfolding sets_token
upsert new_token lines =
    let updated = map (λ l. if sets_token l then token_line new_token else l) lines in
    if any sets_token lines then updated else updated ++ token_line new_token ∷ []

-- The new text of the file.
unfoldable pub rotated_text : (new_token content : String) → String
unfolding upsert drop_blank_end split_lines string_eq join
rotated_text new_token content =
    let lines = if content == "" then [] else split_lines content in
    join "\n" (upsert new_token (drop_blank_end lines)) <> "\n"

module _ (F : Files) where
  -- The tokens of `backend` and `config`, and the disk.
  pub record Agent : Type 0 where
    pub backend_token : String
    pub config_token : String
    pub disk : F.State

  abbrev written : Option String × F.State → Result (Unit {0}) × F.State
  written (none, s) = (ok tt, s)
  written (some e, s) = (err e, s)

  unfoldable pub persist_rotated_token :
      (path new_token : String) → F.State → Result (Unit {0}) × F.State
  unfolding rotated_text
  persist_rotated_token path new_token s = elim (F.read_file path s) [
    | contents text ↦ written (F.write_file path (rotated_text new_token text) s)
    | missing ↦ written (F.write_file path (rotated_text new_token "") s)
    | unreadable e ↦ (err e, s)
  ]

  -- An error of the write is logged, and nothing else.
  unfoldable pub apply_rotated_token : (path : String) → Option String → Agent → Agent
  unfolding persist_rotated_token
  apply_rotated_token path none a = a
  apply_rotated_token path (some new_token) a =
      if new_token == "" then a else if new_token == a.config_token then a else record {
        backend_token = new_token;
        config_token = new_token;
        disk = (persist_rotated_token path new_token a.disk).1;
      }
