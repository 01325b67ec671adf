-- ===== src/Tests/Archive.antt =====
-- The archive (src/spillover/archive/writer.py) on an empty and on a filled database.
use spillover.Prelude.{◌≡◌, refl, false, some}
use spillover.Json.{str, nil}
use spillover.Storage.{Db, empty_db, id_of_hash, insert_episode}
use spillover.Storage.Keys.{IsKeyed}
use spillover.Archive.{Turn, hash_turn, insert_turn, archive_raw}
use spillover.Archive.Laws.{archive_raw-IsKeyed}
use spillover.Archive.Outcome.{Outcome, archive_raw-Outcome}
use spillover.Tests.Fixtures.{codec}

abbrev said : Turn
said = record {
  project_id = "p";
  role = "user";
  content = str "hello";
  tool_calls = nil;
  code_refs = nil;
  token_count = 1;
  ts = 7;
  compaction_rescued = false;
}

abbrev alone : Db → Db
alone db = db

stored : (archive_raw codec alone "id-1" said empty_db).1 ≡ some "id-1"
unfolding archive_raw insert_turn insert_episode id_of_hash hash_turn
stored = refl

archive_raw-IsKeyed_example : IsKeyed (archive_raw codec alone "id-1" said empty_db).0.episodes
archive_raw-IsKeyed_example = archive_raw-IsKeyed codec alone "id-1" said empty_db tt tt

archive_raw-Outcome_example :
    Outcome codec "id-1" said empty_db empty_db (archive_raw codec alone "id-1" said empty_db)
archive_raw-Outcome_example = archive_raw-Outcome codec "id-1" said alone empty_db
