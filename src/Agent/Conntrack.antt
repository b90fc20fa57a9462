-- ===== src/Agent/Conntrack.antt =====
-- gateway-agent/src/conntrack-controller.js: `ConntrackController`.
use Prim.Native.Char.{code}
use Prim.Native.String.{[] as empty, ◌∷◌ as ◌⋯◌}
use guardtime.Base.{
  ℤ, String, ◌<>◌, ◌==◌, nat_eq, string_eq, int_eq, Bool, true, false, not, ◌&&◌, ◌||◌, Option,
  none, some, List, [], ◌∷◌, ◌++◌, length, ltb, is_blank, is_word, split_lines, after, includes,
  until_blank, parse_int, show_int, if◌then◌else◌,
}
use guardtime.Base.Dict
use guardtime.Base.Dict.{Dict}
use guardtime.Agent.Host.{Host, Action, ◌>>=◌, ◌>>◌, done, pure, run_command, RunResult}
use guardtime.Agent.Config.{Config}

-- What `Number.parseInt` gives, where `none` is NaN.
abbrev pub Port : Type 0
Port = Option ℤ

abbrev pub show_port : Port → String
unfolding show_int
show_port none = "NaN"
show_port (some n) = show_int n

pub record Flow : Type 0 where
  pub src : String
  pub dst : String
  pub sport : Port
  pub dport : Port

abbrev valued : (key : String) → Option String → Option (String × String)
unfolding until_blank string_eq
valued key none = none
valued key (some rest) = if until_blank rest == "" then none else some (key, until_blank rest)

abbrev first_of : Option (String × String) → Option (String × String) → Option (String × String)
first_of none b = b
first_of (some a) b = some a

-- A match of `(src|dst|sport|dport)=([^\s]+)` at the start.
pair_at : String → Option (String × String)
unfolding after until_blank string_eq
pair_at s = first_of (valued "src" (after "src=" s)) (
    first_of (valued "dst" (after "dst=" s))
      (first_of (valued "sport" (after "sport=" s)) (valued "dport" (after "dport=" s))))

-- The matches in a text. `inside` is whether the last match goes on here, and `word` whether the
-- character before is one of a word, so that no `\b` stands here.
unfoldable pub pairs : (inside word : Bool) → String → List (String × String)
unfolding pair_at is_word is_blank
pairs inside word empty = []
pairs inside word (c ⋯ s) =
    let found = if inside || word then none else pair_at (c ⋯ s) in
    let going = inside && not (is_blank (code c)) in
    elim found [ some p ↦ p ∷ pairs true true s | none ↦ pairs going (is_word (code c)) s ]

-- The loop that keeps the first value of each key.
unfoldable pub keep_first : List (String × String) → Dict String String → Dict String String
keep_first [] d = d
keep_first ((key, value) ∷ rest) d =
    keep_first rest (elim (Dict.lookup key d) [ none ↦ Dict.insert key value d | some _ ↦ d ])

abbrev flow_of : Option String → Option String → Option String → Option String → Option Flow
unfolding parse_int
flow_of (some src) (some dst) (some sport) (some dport) =
    some (record { src = src; dst = dst; sport = parse_int sport; dport = parse_int dport })
flow_of _ _ _ _ = none

unfoldable pub parse_conntrack_line : (line protocol : String) → Option Flow
unfolding includes pairs keep_first parse_int
parse_conntrack_line line protocol =
    let found = pairs false false line in
    if not (includes protocol line) || ltb (length found) 4
    then none
    else let original = keep_first found [] in
      flow_of (Dict.lookup "src" original) (Dict.lookup "dst" original)
        (Dict.lookup "sport" original) (Dict.lookup "dport" original)

abbrev pub flow_key : Flow → String
unfolding show_int
flow_key f = f.src <> ":" <> show_port f.sport <> "->" <> f.dst <> ":" <> show_port f.dport

abbrev by_key : List Flow → Dict String Flow → Dict String Flow
unfolding show_int
by_key [] d = d
by_key (f ∷ fs) d = by_key fs (Dict.insert (flow_key f) f d)

unfoldable pub unique_connections : List Flow → List Flow
unfolding show_int
unique_connections fs = Dict.values (by_key fs [])

-- `lines.map(parse).filter(Boolean)`
unfoldable pub parse_lines : (protocol : String) → List String → List Flow
unfolding parse_conntrack_line
parse_lines protocol [] = []
parse_lines protocol (line ∷ lines) =
    let rest = parse_lines protocol lines in
    elim (parse_conntrack_line line protocol) [ none ↦ rest | some f ↦ f ∷ rest ]

module _ {H : Host} (c : Config) where
  unfoldable pub list : (protocol : String) → List String → Action H (List Flow)
  unfolding run_command parse_lines split_lines
  list protocol args = run_command c.dry_run c.conntrack_bin true args >>= λ (result : RunResult).
      pure (if result.ok then parse_lines protocol (split_lines result.stdout) else [])

  unfoldable pub list_tcp_connections : (ip_address : String) → Action H (List Flow)
  unfolding list unique_connections
  list_tcp_connections ip_address =
      if ip_address == ""
      then pure []
      else (list "tcp" ("-L" ∷ "-p" ∷ "tcp" ∷ "-s" ∷ ip_address ∷ []) >>= λ (by_source : List Flow).
          list "tcp" ("-L" ∷ "-p" ∷ "tcp" ∷ "-d" ∷ ip_address ∷ [])
          >>= λ (by_destination : List Flow).
              pure (unique_connections (by_source ++ by_destination)))

  unfoldable pub list_udp_connections : (ip_address : String) → Action H (List Flow)
  unfolding list unique_connections
  list_udp_connections ip_address =
      if ip_address == ""
      then pure []
      else (list "udp" ("-L" ∷ "-p" ∷ "udp" ∷ "-s" ∷ ip_address ∷ []) >>= λ (by_source : List Flow).
          pure (unique_connections by_source))

  unfoldable pub delete_by_source : (ip_address : String) → Action H (Unit {0})
  unfolding run_command
  delete_by_source ip_address =
      run_command c.dry_run c.conntrack_bin true ("-D" ∷ "-s" ∷ ip_address ∷ []) >> done

  unfoldable pub delete_by_destination : (ip_address : String) → Action H (Unit {0})
  unfolding run_command
  delete_by_destination ip_address =
      run_command c.dry_run c.conntrack_bin true ("-D" ∷ "-d" ∷ ip_address ∷ []) >> done

  unfoldable pub kill_device : (ip_address : String) → Action H (Unit {0})
  unfolding delete_by_source delete_by_destination
  kill_device ip_address =
      if not c.enable_conntrack_kill || ip_address == ""
      then done
      else (delete_by_source ip_address >> delete_by_destination ip_address)
