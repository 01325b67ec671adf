-- ===== src/CounterCompact/Detection/Misses.antt =====
-- The cap of `detect_compaction` in src/spillover/counter_compact/detection.py.
use spillover.Prelude.{ℕ, ◌≤◌, String, ◌≡◌, refl, none, some, List, [], ◌∷◌, arith, keep, length}
use spillover.Json.{null, end, Message}
use spillover.Runtime.{Codec}
use spillover.Storage.{SeenRow, Db, empty_db}
use spillover.CounterCompact.Detection.{
  RescuedTurn, hash_assistant_message, current_hashes, insert_by_index, sort_by_index, is_recent,
  recent_rows, rescue_missing, detect_compaction,
}
use spillover.CounterCompact.Detection.Rescue.{missing}

-- A codec for the example below: texts that stand for themselves.
abbrev plain_codec : Codec
plain_codec = record {
  dumps = λ v. "";
  dumps_sorted = λ v. "";
  dumps_ascii = λ v. "";
  loads = λ t. some null;
  to_str = λ v. "";
  sha256 = λ t. t;
  sha1 = λ t. t;
  lower = λ t. t;
}

-- The cap counts rows before the comparison: it is not so that, whenever at most `max_rescue` turns
-- of the window are missing, as many turns are rescued as are missing. A table that begins with
-- turns which are still there hides the missing ones behind them.
pub detect_compaction_misses : ¬ (
    (c : Codec) (p : String) (now window max_rescue : ℕ) (messages : List Message) (db : Db)
    (ts : List RescuedTurn)
    → let gone =
        missing (current_hashes c messages) (keep (is_recent p now window) db.seen_turns) in
      length gone ≤ max_rescue
      → detect_compaction c p now window max_rescue messages db ≡ some ts
      → length ts ≡ length gone)
unfolding detect_compaction current_hashes recent_rows sort_by_index insert_by_index rescue_missing
    hash_assistant_message
detect_compaction_misses all =
    absurd (omega (arith, all plain_codec "p" 5 1 1 (said ∷ []) table [] (omega arith) refl))
  where
    seen_as : String → ℕ → SeenRow
    seen_as h i = record {
      project_id = "p";
      turn_hash = h;
      turn_index = i;
      content_json = "";
      first_seen_ts = 5;
      last_seen_ts = 5;
    }

    said : Message
    said = record { role = some "assistant"; content = none; rest = end }

    table : Db
    table = record empty_db { seen_turns = seen_as "" 0 ∷ seen_as "gone" 1 ∷ [] }
