-- ===== src/Cli.antt =====
-- src/spillover/cli.py: the commands that write settings and that delete from an archive. What they
-- print, and the writing of the files themselves, are left out.
pub mod Route
use Prim.Native.String.{◌++◌ as append}
use spillover.Prelude.{
  ℕ, String, Bool, true, false, not, ◌||◌, ◌&&◌, Option, none, some, List, [], ◌∷◌, any, map, keep,
  length, ltb, str_eq, if◌then◌else◌, or_else, pos,
}
use spillover.Text.{occurs_in}
use spillover.Json.{
  Json, int, str, arr, obj, is_text, items, Fields, end, field, get, get_or_null, put, pop, pop_all,
  truthy,
}
use spillover.Runtime.{Codec, Floats}
use spillover.Storage.{Episode}
use spillover.Facet.{Memory}
use spillover.Proxy.RuntimeEnv.{split_equals, setting_of}
use spillover.Proxy.Middleware.{is_hex_id}
use spillover.Text.{strip}

-- `_resolve_pid`
abbrev pub resolve_pid : Codec → String → String
resolve_pid c raw = if is_hex_id raw then raw else c.sha1 raw

-- The dict `existing`.
abbrev pub Existing : Type 0
Existing = List (String × String)

unfoldable pub set_existing : String → String → Existing → Existing
set_existing k v [] = (k, v) ∷ []
set_existing k v (e ∷ es) = if str_eq e.0 k then (k, v) ∷ es else e ∷ set_existing k v es

-- The pairs of the lines one after the other; `ceiling` reads comments too.
unfoldable pub read_settings : Bool → List String → Existing → Existing
read_settings with_comments [] existing = existing
read_settings with_comments (line ∷ lines) existing =
    let found : Option (String × String) =
      if with_comments
      then elim (split_equals line) [ none ↦ none | some (k, v) ↦ some (strip k, strip v) ]
      else setting_of line in
    elim found [
      | none ↦ read_settings with_comments lines existing
      | some (k, v) ↦ read_settings with_comments lines (set_existing k v existing)
    ]

-- The lines that are written.
abbrev pub written : Existing → List String
written = map (λ e. append e.0 (append "=" e.1))

-- `none` is the exit with code 2, before anything is written.
unfoldable pub ceiling : Codec → ℕ → List String → Option (List String)
ceiling c tokens lines =
    if ltb tokens 1000
    then none
    else some (
        written (
          set_existing "SPILLOVER_OPERATIONAL_CEILING_TOKENS" (c.to_str (int (pos tokens)))
            (read_settings true lines [])))

module _ (f : Floats) (str_of : f.Float → String) where
  -- `0.0 <= x < 0.9`
  abbrev pub in_range : f.Float → Bool
  in_range x = not (f.lt_f x (f.literal "0.0")) && f.lt_f x (f.literal "0.9")

  -- One option of the command; `str_of` prints a float.
  abbrev pub set_option : String → Option f.Float → Existing → Option Existing
  set_option name none existing = some existing
  set_option name (some x) existing =
      if in_range x then some (set_existing name (str_of x) existing) else none

  unfoldable pub pct : Option f.Float → Option f.Float → List String → Option (List String)
  pct none none lines = some lines
  pct archive retrieval lines =
      elim (set_option "SPILLOVER_ARCHIVE_PCT" archive (read_settings false lines [])) [
        | none ↦ none
        | some existing ↦ elim (set_option "SPILLOVER_RETRIEVAL_PCT" retrieval existing) [
          | none ↦ none
          | some existing' ↦ some (written existing')
        ]
      ]

-- The five counts that `stats` prints.
pub record Stats : Type 0 where
  pub episodes : ℕ
  pub evicted : ℕ
  pub pinned : ℕ
  pub embedded : ℕ
  pub facet_pending : ℕ

unfoldable pub stats : {F E : Type 0} → Memory F E → Stats
stats m = record {
  episodes = length m.db.episodes;
  evicted = length (keep (λ e. e.evicted) m.db.episodes);
  pinned = length (keep (λ e. e.pinned) m.db.episodes);
  embedded = length m.vectors;
  facet_pending = length (keep (λ e. e.facet_pending) m.db.episodes);
}

-- `episode_id IN (SELECT id FROM episodes WHERE compaction_rescued=1)`
abbrev pub is_rescued_id : List Episode → String → Bool
is_rescued_id es i = any (λ e. e.compaction_rescued && str_eq e.id i) es

-- The tables that `purge` writes to; the text index and the graph stay as they are.
unfoldable pub purge : {F E : Type 0} → Bool → Memory F E → Memory F E
purge purge_all m = record m {
  db = record m.db {
    episodes = if purge_all then [] else keep (λ e. not e.compaction_rescued) m.db.episodes;
    seen_turns = [];
  };
  vectors =
      if purge_all
      then []
      else keep (λ v. not (is_rescued_id m.db.episodes v.episode_id)) m.vectors;
}

abbrev pub route_keys : List String
route_keys =
    "ANTHROPIC_BASE_URL" ∷ "DISABLE_AUTO_COMPACT" ∷ "CLAUDE_AUTOCOMPACT_PCT_OVERRIDE"
    ∷ "CLAUDE_CODE_MAX_CONTEXT_TOKENS" ∷ "CLAUDE_CODE_AUTO_COMPACT" ∷ "CLAUDE_CODE_DISABLE_COMPACT"
    ∷ "CLAUDE_CODE_DISABLE_AUTO_COMPACT" ∷ "DISABLE_AUTOCOMPACT" ∷ "SPILLOVER_PASSIVE" ∷ []

abbrev pub legacy_keys : List String
legacy_keys =
    "CLAUDE_CODE_AUTO_COMPACT" ∷ "CLAUDE_CODE_DISABLE_COMPACT" ∷ "CLAUDE_CODE_DISABLE_AUTO_COMPACT"
    ∷ "DISABLE_AUTOCOMPACT" ∷ "CLAUDE_CODE_MAX_CONTEXT_TOKENS" ∷ []

-- `_load_settings`, where `text` is the file's content and an outer `none` a value that is no dict.
unfoldable pub load_settings : Codec → Option String → Option Fields
load_settings c none = some end
load_settings c (some text) = elim (or_else (c.loads text) (obj end)) [
  | obj settings ↦ some settings
  | _ ↦ none
]

-- The dict `env` with the address and without the old keys.
unfoldable pub with_url : String → Fields → Fields
with_url base_url env = pop_all legacy_keys (
    put "CLAUDE_AUTOCOMPACT_PCT_OVERRIDE" (str "100")
      (put "DISABLE_AUTO_COMPACT" (str "1") (put "ANTHROPIC_BASE_URL" (str base_url) env)))

-- The dict `env` that the command writes.
unfoldable pub routed_env : String → Bool → Fields → Fields
routed_env base_url passive env =
    let routed = with_url base_url env in
    if passive then put "SPILLOVER_PASSIVE" (str "1") routed else pop "SPILLOVER_PASSIVE" routed

-- `data.get("env") or {}`, where `none` is a value whose keys cannot be set
abbrev pub env_of : Option Json → Option Fields
env_of none = some end
env_of (some (obj env)) = some env
env_of (some v) = if truthy v then none else some end

-- `none` is the TypeError of an `env` that is no dict.
unfoldable pub route_on : String → Bool → Fields → Option Fields
route_on base_url passive settings = elim (env_of (get "env" settings)) [
  | none ↦ none
  | some env ↦ some (put "env" (obj (routed_env base_url passive env)) settings)
]

-- `if env: ... else: ...`
abbrev pub with_env : Fields → Fields → Fields
with_env end settings = pop "env" settings
with_env env settings = put "env" (obj env) settings

unfoldable pub route_off : Fields → Option Fields
route_off settings = elim (get_or_null "env" settings) [
  | obj env ↦ some (with_env (pop_all route_keys env) settings)
  | arr xs ↦
      if any (λ k. any (is_text k) (items xs)) route_keys
      then none
      else some (if truthy (arr xs) then settings else pop "env" settings)
  | str t ↦
      if any (λ k. occurs_in k t) route_keys
      then none
      else some (if truthy (str t) then settings else pop "env" settings)
  | v ↦ if truthy v then none else some (pop "env" settings)
]
