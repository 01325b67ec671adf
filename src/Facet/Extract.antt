-- ===== src/Facet/Extract.antt =====
-- What src/spillover/facet/entities.py and decisions.py find in a turn. The matches of their regular
-- expressions, in order, are parameters.
use Prim.Native.String.{◌++◌ as append, count}
use spillover.Prelude.{
  String, Bool, Option, none, some, List, [], ◌∷◌, ◌++◌, ◌&&◌, ◌||◌, any, map, ltb, str_eq,
  if◌then◌else◌, is_some, true, false,
}
use spillover.Text.{strip, first_chars, join}
use spillover.Json.{
  Json, null, str, arr, obj, Items, nil, cons, Fields, end, get, get_or_null, has_type, truthy,
}
use spillover.Runtime.{Codec}

-- `_FILE_PATH`, `_URL`, `_IDENTIFIER` and `_COMMAND` by their group or match, and `_DECISION_PT`,
-- `_DECISION_EN` and `_BECAUSE`.
pub record Patterns : Type 0 where
  pub file_paths : String → List String
  pub urls : String → List String
  pub identifiers : String → List String
  pub commands : String → List String
  pub decisions_pt : String → List String
  pub decisions_en : String → List String
  pub becauses : String → List String

pub record Entity : Type 0 where
  pub name : String
  pub kind : String

-- The text of a block of type "text", if it is one.
abbrev pub text_part : Json → List String
text_part (str t) = t ∷ []
text_part _ = []

-- `str(block.get("content", ""))`
abbrev pub result_part : Codec → Option Json → List String
result_part c none = "" ∷ []
result_part c (some v) = c.to_str v ∷ []

-- What the loops of the two `_content_to_text` add for a block; only that of entities.py reads the
-- results of tools.
abbrev pub block_part : Codec → Bool → Fields → List String
block_part c with_results b =
    if has_type "text" b
    then text_part (get_or_null "text" b)
    else if with_results && has_type "tool_result" b
    then result_part c (get "content" b)
    else []

unfoldable pub block_parts : Codec → Bool → Items → List String
block_parts c with_results nil = []
block_parts c with_results (cons (obj b) bs) =
    block_part c with_results b ++ block_parts c with_results bs
block_parts c with_results (cons _ bs) = block_parts c with_results bs

abbrev pub text_or_empty : Json → String
text_or_empty (str t) = t
text_or_empty _ = ""

-- `_content_to_text` of entities.py and of decisions.py
unfoldable pub entity_text : Codec → Json → String
entity_text c (str t) = t
entity_text c (arr bs) = join "\n" (block_parts c true bs)
entity_text c (obj b) = text_or_empty (get_or_null "text" b)
entity_text c _ = ""

unfoldable pub decision_text : Codec → Json → String
decision_text c (str t) = t
decision_text c (arr bs) = join "\n" (block_parts c false bs)
decision_text c _ = ""

-- `if key not in seen: ...`
abbrev pub add_entity_found : Entity → List Entity → List Entity
add_entity_found e out =
    if any (λ o. str_eq o.name e.name && str_eq o.kind e.kind) out then out else out ++ e ∷ []

unfoldable pub add_found : String → List String → List Entity → List Entity
add_found kind [] out = out
add_found kind (name ∷ names) out =
    add_found kind names (add_entity_found (record { name = name; kind = kind }) out)

unfoldable pub extract_entities : Codec → Patterns → Json → List Entity
extract_entities c p content =
    let text = entity_text c content in
    let files = add_found "file" (p.file_paths text) [] in
    let urls = add_found "url" (p.urls text) files in
    let identifiers = add_found "identifier" (p.identifiers text) urls in
    add_found "command" (map strip (p.commands text)) identifiers

pub record Decision : Type 0 where
  pub hash : String
  pub summary : String

-- `_summary`
unfoldable pub summary_of : String → String
summary_of line =
    let s = strip line in if ltb 200 (count s) then append (first_chars 200 s) "..." else s

abbrev pub add_decision_found : Decision → List Decision → List Decision
add_decision_found d out = if any (λ o. str_eq o.hash d.hash) out then out else out ++ d ∷ []

unfoldable pub add_lines : Codec → List String → List Decision → List Decision
add_lines c [] out = out
add_lines c (line ∷ lines) out =
    let s = summary_of line in
    add_lines c lines (add_decision_found (record { hash = c.sha1 s; summary = s }) out)

unfoldable pub extract_decisions : Codec → Patterns → Json → List Decision
extract_decisions c p content =
    let text = decision_text c content in
    add_lines c (p.becauses text)
      (add_lines c (p.decisions_en text) (add_lines c (p.decisions_pt text) []))

-- `none` as a path is a value that is no text, at which the worker fails.
pub record CodeRef : Type 0 where
  pub path : Option String
  pub op : Option String

-- `_TOOL_TO_OP.get(name)`, where an outer `none` is the TypeError of a name that cannot be hashed
abbrev pub op_of_name : String → Option String
op_of_name n =
    if str_eq n "Read"
    then some "read"
    else if str_eq n "Write"
    then some "write"
    else if str_eq n "Edit"
    then some "edit"
    else if str_eq n "Bash" || str_eq n "PowerShell"
    then some "run"
    else none

abbrev pub op_of : Json → Option (Option String)
op_of (str n) = some (op_of_name n)
op_of (arr xs) = none
op_of (obj d) = none
op_of _ = some none

-- `call.get("input") or {}`, where `none` is a value without `get`
abbrev pub input_of : Json → Option Fields
input_of (obj d) = some d
input_of v = if truthy v then none else some end

-- `inp.get("file_path") or inp.get("path")`
abbrev pub path_value : Fields → Json
path_value inp =
    let path = get_or_null "file_path" inp in if truthy path then path else get_or_null "path" inp

abbrev pub same_text : Option String → Option String → Bool
same_text (some s) (some t) = str_eq s t
same_text none none = true
same_text _ _ = false

-- Paths that are no text are kept apart: the worker fails at the first of them.
abbrev pub add_ref : CodeRef → List CodeRef → List CodeRef
add_ref r out =
    if is_some r.path && any (λ o. same_text o.path r.path && same_text o.op r.op) out
    then out
    else out ++ r ∷ []

-- The end of a round, with the path and the operation; `none` is a path that cannot be hashed.
abbrev pub add_path : Json → Option String → List CodeRef → Option (List CodeRef)
add_path null op out = some out
add_path (str t) op out = some (add_ref (record { path = some t; op = op }) out)
add_path (arr xs) op out = none
add_path (obj d) op out = none
add_path _ op out = some (add_ref (record { path = none; op = op }) out)

-- One round of the loop; `none` is an exception.
abbrev pub add_call : Json → List CodeRef → Option (List CodeRef)
add_call (obj call) out = elim (input_of (get_or_null "input" call)) [
  | none ↦ none
  | some inp ↦ elim (op_of (get_or_null "name" call)) [
    | none ↦ none
    | some op ↦ add_path (path_value inp) op out
  ]
]
add_call _ out = none

unfoldable pub add_calls : Items → List CodeRef → Option (List CodeRef)
add_calls nil out = some out
add_calls (cons call calls) out = elim (add_call call out) [
  | none ↦ none
  | some out' ↦ add_calls calls out'
]

-- The keys of a dict and the characters of a text have no `get`.
unfoldable pub extract_code_refs : Json → Option (List CodeRef)
extract_code_refs (arr calls) = add_calls calls []
extract_code_refs v = if truthy v then none else some []
