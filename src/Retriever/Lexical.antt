-- ===== src/Retriever/Lexical.antt =====
-- src/spillover/retriever/lexical.py: the search by words, over SQLite's text index.
pub mod Terms
use Prim.Native.Char.{Char, code}
use Prim.Native.String.{[] as nothing, ◌∷◌ as prepend, ◌++◌ as append, count}
use spillover.Prelude.{
  ℕ, zero, suc, String, Bool, true, false, ◌&&◌, ◌||◌, Option, none, some, List, [], ◌∷◌, map, keep,
  take, leb, ◌==◌, str_eq, if◌then◌else◌,
}
use spillover.Text.{join}
use spillover.Storage.{Episode, Db, FtsRow}
use spillover.Retriever.{Hit}
use spillover.Retriever.Budget.{row_of_id}

-- What `strip("./-_:")` removes.
unfoldable pub is_mark : Char → Bool
is_mark a = let n = code a in n == b'.' || n == b'/' || n == b'-' || n == b'_' || n == b':'

-- `[A-Za-z0-9_./\-:]`
unfoldable pub is_token_char : Char → Bool
unfolding is_mark
is_token_char a =
    let n = code a in
    leb b'A' n && leb n b'Z' || leb b'a' n && leb n b'z' || leb b'0' n && leb n b'9' || is_mark a

-- The longest run of such characters at the start, and what is behind it.
unfoldable pub split_run : String → String × String
split_run nothing = (nothing, nothing)
split_run (prepend a t) =
    let rest = split_run t in
    if is_token_char a then (prepend a rest.0, rest.1) else (nothing, prepend a t)

-- `_TOKEN.findall`: the runs of at least two, one after the other. A run that a match has begun goes
-- to its end, so the flag says that the character before was in a run.
unfoldable pub runs_from : Bool → String → List String
runs_from inside nothing = []
runs_from inside (prepend a t) =
    let rest = runs_from (is_token_char a) t in
    if inside then rest else if is_token_char a then (split_run (prepend a t)).0 ∷ rest else rest

unfoldable pub find_tokens : String → List String
find_tokens query = keep (λ t. leb 2 (count t)) (runs_from false query)

unfoldable pub lstrip_marks : String → String
lstrip_marks nothing = nothing
lstrip_marks (prepend a t) = let rest = lstrip_marks t in if is_mark a then rest else prepend a t

unfoldable pub rstrip_marks : String → String
rstrip_marks nothing = nothing
rstrip_marks (prepend a t) =
    let rest = rstrip_marks t in if is_mark a && str_eq rest "" then nothing else prepend a rest

-- `cleaned`
unfoldable pub cleaned : String → List String
cleaned query =
    keep (λ t. leb 2 (count t)) (map (λ t. rstrip_marks (lstrip_marks t)) (find_tokens query))

abbrev pub quoted : String → String
quoted t = append "\"" (append t "\"")

unfoldable pub query_to_fts : String → String
query_to_fts query = join " OR " (map quoted (cleaned query))

-- A row that the index finds, with `bm25(episodes_fts)`.
pub record Match (F : Type 0) : Type 0 where
  pub episode_id : String
  pub score : F

-- The JOIN with `episodes`: a row of the index without an episode is dropped.
abbrev pub joined_hit : {F : Type 0} → (F → F) → Match F → Episode → Hit F
joined_hit neg m e = record {
  episode_id = m.episode_id;
  score = neg m.score;
  memory_type = e.memory_type;
  importance = none;
  ts = some e.ts;
  source = "bm25";
}

unfoldable pub join_matches : {F : Type 0} → (F → F) → List Episode → List (Match F) → List (Hit F)
join_matches neg es [] = []
join_matches neg es (m ∷ ms) = elim (row_of_id m.episode_id es) [
  | none ↦ join_matches neg es ms
  | some e ↦ joined_hit neg m e ∷ join_matches neg es ms
]

-- `found` are the rows of the index that match, from the best on, where `none` is an
-- OperationalError; `neg` is the minus of floats.
unfoldable pub bm25_topk :
    {F : Type 0}
    → (F → F)
    → (List FtsRow → String → Option (List (Match F)))
    → Db
    → String
    → ℕ
    → List (Hit F)
bm25_topk neg found db query k =
    let hits : List (Hit _) = elim (found db.fts (query_to_fts query)) [
      | none ↦ []
      | some ms ↦ take k (join_matches neg db.episodes ms)
    ] in
    if str_eq (query_to_fts query) "" then [] else hits
