-- ===== src/Storage.antt =====
-- src/spillover/storage/schema.sql: the tables of a project's database, with their keys.
pub mod Keys
pub mod Graphs
use spillover.Prelude.{
  ℕ, String, Bool, true, false, Option, none, some, List, [], ◌∷◌, ◌++◌, ◌||◌, str_eq,
  if◌then◌else◌, any, keep, map, not,
}

pub record Episode : Type 0 where
  pub id : String
  pub project_id : String
  pub role : String
  pub content_json : String
  pub tool_calls_json : String
  pub code_refs_json : String
  pub token_count : ℕ
  pub ts : ℕ
  pub hash : String
  pub evicted : Bool
  pub pinned : Bool
  pub hit_count : ℕ
  pub memory_type : Option String
  pub facet_pending : Bool
  pub compaction_rescued : Bool

pub record SeenRow : Type 0 where
  pub project_id : String
  pub turn_hash : String
  pub turn_index : ℕ
  pub content_json : String
  pub first_seen_ts : ℕ
  pub last_seen_ts : ℕ

-- `episodes_fts`: the episode and the text that is searched
pub record FtsRow : Type 0 where
  pub episode_id : String
  pub body : String

pub record Db : Type 0 where
  pub episodes : List Episode
  pub seen_turns : List SeenRow
  pub fts : List FtsRow

abbrev pub empty_db : Db
empty_db = record { episodes = []; seen_turns = []; fts = [] }

-- `SELECT id FROM episodes WHERE hash = ?`, one row
unfoldable pub id_of_hash : String → List Episode → Option String
id_of_hash h [] = none
id_of_hash h (e ∷ es) = if str_eq e.hash h then some e.id else id_of_hash h es

abbrev pub has_id : String → List Episode → Bool
has_id i = any (λ e. str_eq e.id i)

-- `INSERT INTO episodes`: the primary key is `id` and `hash` is unique, and `none` is an
-- IntegrityError.
unfoldable pub insert_episode : Episode → Db → Option Db
insert_episode e db =
    if has_id e.id db.episodes || any (λ r. str_eq r.hash e.hash) db.episodes
    then none
    else some (record db { episodes = db.episodes ++ e ∷ [] })

abbrev pub contains : String → List String → Bool
contains i ids = any (λ j. str_eq i j) ids

abbrev pub evict_row : List String → Bool → Episode → Episode
evict_row ids rescued e =
    if contains e.id ids
    then record e { evicted = true; compaction_rescued = e.compaction_rescued || rescued }
    else e

-- `UPDATE episodes SET evicted=1 WHERE id IN (...)`, and `compaction_rescued=1` beside it where
-- `rescued` says so
unfoldable pub mark_evicted : List String → Bool → Db → Db
mark_evicted ids rescued db = record db { episodes = map (evict_row ids rescued) db.episodes }
