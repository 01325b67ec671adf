-- ===== src/CounterCompact/Events.antt =====
-- src/spillover/counter_compact/sse_rewrite.py: the usage in the events of a stream. Bytes are texts,
-- and `^data:\s*(.*)$` is matched line by line: the `\s*` may go over the ends of blank lines.
use Prim.Native.Char.{Char, code}
use Prim.Native.String.{[] as nothing, ◌∷◌ as prepend, ◌++◌ as append}
use spillover.Prelude.{
  String, Bool, not, ◌&&◌, ◌||◌, Option, none, some, List, [], ◌∷◌, leb, ◌==◌, str_eq,
  if◌then◌else◌, or_else, ℤ, pos, leb_ℤ,
}
use spillover.Text.{starts_with, occurs_in, drop_chars, join, onto_first}
use spillover.Json.{null, obj, Fields, get, put}
use spillover.Runtime.{Codec, Floats, Environ}
use spillover.CounterCompact.Usage.{rewrite_usage}

-- `b'"usage"' in chunk`
abbrev pub has_usage_marker : String → Bool
has_usage_marker chunk = occurs_in "\"usage\"" chunk

-- The bytes that `\s` stands for, and that `bytes.strip` removes.
abbrev pub is_blank : Char → Bool
is_blank c = leb 9 (code c) && leb (code c) 13 || code c == 32

unfoldable pub skip_blanks : String → String
skip_blanks nothing = nothing
skip_blanks (prepend c t) = let rest = skip_blanks t in if is_blank c then rest else prepend c t

unfoldable pub trim_blanks : String → String
trim_blanks nothing = nothing
trim_blanks (prepend c t) =
    let rest = trim_blanks t in if is_blank c && str_eq rest "" then nothing else prepend c rest

-- The text between line feeds, which is at least one line.
unfoldable pub split_lines : String → List String
split_lines nothing = nothing ∷ []
split_lines (prepend c t) =
    let rest = split_lines t in if code c == 10 then nothing ∷ rest else onto_first c rest

-- `bool(cap_env) and cap_env != "0"`
abbrev pub is_cap_active : Environ → Bool
is_cap_active env =
    let cap = or_else (env "SPILLOVER_REPORTED_INPUT_CAP") "0" in
    not (str_eq cap "") && not (str_eq cap "0")

module _ (f : Floats) (c : Codec) (env : Environ) (tokens_archived : ℤ) where
  -- The dict with its usage rewritten, where it has one; the inner `none` is one without.
  abbrev pub rewrite_in : Fields → Option (Option Fields)
  rewrite_in d = elim (get "usage" d) [
    | none ↦ some none
    | some usage ↦ elim (rewrite_usage f env tokens_archived usage) [
      | none ↦ none
      | some v ↦ some (some (put "usage" v d))
    ]
  ]

  -- In the event itself or in its message.
  unfoldable pub rewrite_event : Fields → Option (Option Fields)
  rewrite_event d = elim (rewrite_in d) [
    | none ↦ none
    | some (some d') ↦ some (some d')
    | some none ↦ elim (or_else (get "message" d) null) [
      | obj m ↦ elim (rewrite_in m) [
        | none ↦ none
        | some none ↦ some none
        | some (some m') ↦ some (some (put "message" (obj m') d))
      ]
      | _ ↦ some none
    ]
  ]

  -- `_rewrite_match`: `matched` is `m.group(0)` and `group` is `m.group(1)`.
  unfoldable pub rewrite_match : String → String → Option String
  rewrite_match matched group =
      let raw = trim_blanks (skip_blanks group) in
      let rebuilt : Option String = elim (c.loads raw) [
        | none ↦ some matched
        | some (obj d) ↦ elim (rewrite_event d) [
          | none ↦ none
          | some none ↦ some matched
          | some (some d') ↦ some (append "data: " (c.dumps (obj d')))
        ]
        | some v ↦ none
      ] in
      if str_eq raw "" || str_eq raw "[DONE]" then some matched else rebuilt

  abbrev pub then_lines : Option String → Option (List String) → Option (List String)
  then_lines none rest = none
  then_lines (some l) none = none
  then_lines (some l) (some ls) = some (l ∷ ls)

  -- The substitution over the lines; a match that has met blank lines only is `open_match`.
  unfoldable pub rewrite_lines : Option String → List String → Option (List String)
  rewrite_lines none [] = some []
  rewrite_lines (some open_match) [] = then_lines (rewrite_match open_match "") (some [])
  rewrite_lines none (l ∷ ls) =
      let after = rewrite_lines none ls in
      let opened = rewrite_lines (some l) ls in
      let group = skip_blanks (drop_chars 5 l) in
      if not (starts_with "data:" l)
      then then_lines (some l) after
      else if str_eq group ""
      then opened
      else then_lines (rewrite_match l group) after
  rewrite_lines (some open_match) (l ∷ ls) =
      let matched = append open_match (append "\n" l) in
      let after = rewrite_lines none ls in
      let opened = rewrite_lines (some matched) ls in
      if str_eq (skip_blanks l) ""
      then opened
      else then_lines (rewrite_match matched (skip_blanks l)) after

  unfoldable pub rewrite_sse_body : String → Option String
  rewrite_sse_body body =
      let rewritten : Option String = elim (rewrite_lines none (split_lines body)) [
        | none ↦ none
        | some ls ↦ some (join "\n" ls)
      ] in
      if str_eq body ""
      then some body
      else if leb_ℤ tokens_archived (pos 0) && not (is_cap_active env)
      then some body
      else rewritten
