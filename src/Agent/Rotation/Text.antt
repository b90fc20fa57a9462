-- ===== src/Agent/Rotation/Text.antt =====
-- gateway-agent/src/token-rotation.js: the text that `persistRotatedToken` writes.
use guardtime.Base.{
  String, ◌<>◌, ◌≡◌, ◌≢◌, subst, ◌∙◌, ◌==◌, string_eq, Bool, true, false, some, List, [], ◌∷◌, ◌++◌,
  map, any, join, trim, is_comment, cut_sign, split_lines, inl, inr, Bool-cases, Option-cases,
  if◌then◌else◌, arith, ◌∈◌,
}
use guardtime.Agent.Rotation.Laws.{eq-true}
use guardtime.Agent.Rotation.{sets_token, token_line, upsert, drop_blank_end, rotated_text}

-- A line that sets the token: no comment, and with the key GATEWAY_TOKEN before its first `=`.
pub record SetsToken (line : String) : Type 0 where
  pub no_comment : is_comment (trim line) ≡ false
  pub parts : String × String
  pub cut : cut_sign (trim line) ≡ some parts
  pub key : trim parts.0 ≡ "GATEWAY_TOKEN"

-- The lines in their order, each that sets the token replaced by the new one; and whether there was
-- one.
pub data Rewritten (t : String) : Bool → List String → List String → Type 0 where
  end : Rewritten t false [] []
  replaced :
      {l : String} {ls out : List String} {seen : Bool}
      → SetsToken l
      → Rewritten t seen ls out
      → Rewritten t true (l ∷ ls) (("GATEWAY_TOKEN=" <> t) ∷ out)
  kept :
      {l : String} {ls out : List String} {seen : Bool}
      → ¬ SetsToken l
      → Rewritten t seen ls out
      → Rewritten t seen (l ∷ ls) (l ∷ out)

-- The lines up to the last that is not blank.
pub data Trimmed : List String → List String → Type 0 where
  blank : {ls : List String} → ((l : String) → l ∈ ls → l ≡ "") → Trimmed ls []
  text :
      {l : String} {ls : List String}
      → l ≢ ""
      → ((m : String) → m ∈ ls → m ≡ "")
      → Trimmed (l ∷ ls) (l ∷ [])
  more : {l m : String} {ls ms : List String} → Trimmed ls (m ∷ ms) → Trimmed (l ∷ ls) (l ∷ m ∷ ms)

abbrev pub lines_of : (content : String) → List String
lines_of content = if content == "" then [] else split_lines content

-- The text that is written for a token and the text that was read.
pub data Rotated (t content : String) : String → Type 0 where
  in_place :
      (lines out : List String)
      → Trimmed (lines_of content) lines
      → Rewritten t true lines out
      → Rotated t content (join "\n" out <> "\n")
  at_the_end :
      (lines out : List String)
      → Trimmed (lines_of content) lines
      → Rewritten t false lines out
      → Rotated t content (join "\n" (out ++ ("GATEWAY_TOKEN=" <> t) ∷ []) <> "\n")

sets_token-SetsToken : (l : String) → sets_token l ≡ true → SetsToken l
unfolding sets_token
sets_token-SetsToken l h = elim (Bool-cases (is_comment (trim l))) [
  | inl c ↦ absurd (cc (rw c at h))
  | inr c ↦ elim (Option-cases (cut_sign (trim l))) [
    | inl n ↦ absurd (cc (rw (c, n) at h))
    | inr (parts, e) ↦ record {
      no_comment = c;
      parts = parts;
      cut = e;
      key =
          let same : trim parts.0 == "GATEWAY_TOKEN" ≡ true = rw (c, e) at h in
          ground (arith, same);
    }
  ]
]

sets_token-false : (l : String) → sets_token l ≡ false → ¬ SetsToken l
unfolding sets_token
sets_token-false l h k =
    let other : trim k.parts.0 == "GATEWAY_TOKEN" ≡ false = rw (k.no_comment, k.cut) at h in
    absurd (cc (eq-true (trim k.parts.0) "GATEWAY_TOKEN" k.key, other))

rewritten :
    (t : String) (ls : List String)
    → Rewritten t (any sets_token ls) ls (map (λ l. if sets_token l then token_line t else l) ls)
rewritten t [] = end
rewritten t (l ∷ ls) = elim (Bool-cases (sets_token l)) [
  | inl e ↦ rw e (replaced (sets_token-SetsToken l e) (rewritten t ls))
  | inr e ↦ rw e (kept (sets_token-false l e) (rewritten t ls))
]

Trimmed-blank : (ls : List String) → Trimmed ls [] → (l : String) → l ∈ ls → l ≡ ""
Trimmed-blank ls (blank h) = h

drop_blank_end-Trimmed : (ls : List String) → Trimmed ls (drop_blank_end ls)
unfolding drop_blank_end
drop_blank_end-Trimmed [] = blank (λ l m. elim m [ ])
drop_blank_end-Trimmed (l ∷ ls) = go (drop_blank_end ls) (drop_blank_end-Trimmed ls)
  where
    go :
        (ms : List String)
        → Trimmed ls ms
        → Trimmed (l ∷ ls) (elim ms [ [] ↦ if l == "" then [] else l ∷ [] | m ∷ ns ↦ l ∷ m ∷ ns ])
    go [] k = elim (Bool-cases (l == "")) [
      | inl e ↦ rw e (
          blank (λ m h. elim h [
            | inl same ↦ same ∙ ground (arith, e)
            | inr later ↦ Trimmed-blank ls k m later
          ]))
      | inr e ↦ rw e (text (λ same. absurd (cc (eq-true l "" same, e))) (Trimmed-blank ls k))
    ]
    go (m ∷ ns) k = more k

-- The file that a rotation writes has the lines of the file that was read in their order, without
-- the blank ones at the end. Each line that sets the token, and no other, is replaced by the new
-- token's; only if there is none is that line added, after the others. The lines are joined, and
-- ended, by line feeds.
pub rotated_text-Rotated : (t content : String) → Rotated t content (rotated_text t content)
unfolding rotated_text upsert
rotated_text-Rotated t content =
    let lines = drop_blank_end (lines_of content) in
    let short = drop_blank_end-Trimmed (lines_of content) in
    let out = map (λ l. if sets_token l then token_line t else l) lines in
    let changed = rewritten t lines in
    elim (Bool-cases (any sets_token lines)) [
      | inl e ↦ rw e (in_place lines out short (subst (λ b. Rewritten t b lines out) e changed))
      | inr e ↦ rw e (at_the_end lines out short (subst (λ b. Rewritten t b lines out) e changed))
    ]
