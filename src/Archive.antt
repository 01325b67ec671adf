-- ===== src/Archive.antt =====
-- src/spillover/archive/writer.py: the archive of raw turns, one row for each content hash.
pub mod Laws
pub mod Honest
pub mod Outcome
pub mod Several
use spillover.Prelude.{
  ℕ, String, Bool, false, true, Option, none, some, List, [], ◌∷◌, ◌++◌, if◌then◌else◌,
}
use spillover.Json.{Json, str, arr, obj, Items, nil, Fields, end, field}
use spillover.Runtime.{Codec}
use spillover.Storage.{Episode, Db, id_of_hash, insert_episode}

pub record Turn : Type 0 where
  pub project_id : String
  pub role : String
  pub content : Json
  pub tool_calls : Items
  pub code_refs : Items
  pub token_count : ℕ
  pub ts : ℕ
  pub compaction_rescued : Bool

unfoldable pub hash_turn : Codec → Turn → String
hash_turn c turn = c.sha256 (
    c.dumps_sorted (
      obj (
        field "role" (str turn.role)
          (field "content" turn.content (field "tool_calls" (arr turn.tool_calls) end)))))

-- The row that the INSERT writes; the columns that it does not name have the schema's defaults.
abbrev pub row_of : Codec → String → Turn → Episode
row_of c eid turn = record {
  id = eid;
  project_id = turn.project_id;
  role = turn.role;
  content_json = c.dumps turn.content;
  tool_calls_json = c.dumps (arr turn.tool_calls);
  code_refs_json = c.dumps (arr turn.code_refs);
  token_count = turn.token_count;
  ts = turn.ts;
  hash = hash_turn c turn;
  evicted = false;
  pinned = false;
  hit_count = 0;
  memory_type = none;
  facet_pending = true;
  compaction_rescued = turn.compaction_rescued;
}

abbrev pub body_text : Codec → Json → String
body_text c (str t) = t
body_text c v = c.dumps v

abbrev pub index_body : Codec → String → Turn → Db → Db
index_body c eid turn db = record db {
  fts = db.fts ++ record { episode_id = eid; body = body_text c turn.content } ∷ [];
}

-- The `try` block: `none` beside the database is an IntegrityError that is raised again.
unfoldable pub insert_turn : Codec → String → Turn → Db → Db × Option String
insert_turn c eid turn db = elim (insert_episode (row_of c eid turn) db) [
  | some stored ↦ (index_body c eid turn stored, some eid)
  | none ↦ (db, id_of_hash (hash_turn c turn) db.episodes)
]

-- `archive_raw`: `eid` is the id that `uuid4` draws, and `others` is what other connections commit
-- between the SELECT and the INSERT.
unfoldable pub archive_raw : Codec → (Db → Db) → String → Turn → Db → Db × Option String
archive_raw c others eid turn db = elim (id_of_hash (hash_turn c turn) db.episodes) [
  | some i ↦ (db, some i)
  | none ↦ insert_turn c eid turn (others db)
]
