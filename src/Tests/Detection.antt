-- ===== src/Tests/Detection.antt =====
-- Compaction by the client (src/spillover/counter_compact/detection.py) on two turns.
use spillover.Prelude.{ℕ, ◌+◌, String, ◌≡◌, refl, true, false, some, List, [], ◌∷◌, length, All}
use spillover.Json.{
  str, arr, obj, Items, nil, cons, Fields, end, field, get, put, Message, has_role,
}
use spillover.Tokenizer.{count_tokens, count_for_text, normalize}
use spillover.Storage.{SeenRow, Db, empty_db}
use spillover.CounterCompact.Detection.{
  hash_assistant_message, normalise_content_for_hash, upsert, find_row, touch, record_from,
  record_seen_turns, current_hashes, recent_rows, sort_by_index, insert_by_index, rescue_missing,
  detect_compaction, is_stale, prune_old_seen_turns,
}
use spillover.CounterCompact.Detection.Hash.{done, thinking, tool_id, Alike-hash_assistant_message}
use spillover.CounterCompact.Detection.Table.{
  SeenAt, Keeps, record_seen_turns-SeenAt, record_seen_turns-Keeps,
}
use spillover.CounterCompact.Detection.Rescue.{detect_compaction_quiet}
use spillover.CounterCompact.Detection.Prune.{prune_old_seen_turns_effect}
use spillover.Tests.Fixtures.{codec, says}

abbrev talk : List Message
talk = says "user" "a" ∷ says "assistant" "b" ∷ says "assistant" "c" ∷ []

abbrev row : String → ℕ → String → SeenRow
row h i t = record {
  project_id = "p";
  turn_hash = h;
  turn_index = i;
  content_json = t;
  first_seen_ts = 1000;
  last_seen_ts = 1000;
}

abbrev seen : Db
seen = record empty_db {
  seen_turns = row "sha256:assistant;b;" 1 "b" ∷ row "sha256:assistant;c;" 2 "c" ∷ [];
}

recorded : record_seen_turns codec "p" 1000 talk empty_db ≡ seen
unfolding record_seen_turns record_from upsert find_row touch hash_assistant_message
    normalise_content_for_hash
recorded = refl

-- The client comes back without the turn `c`.
rescued :
    detect_compaction codec "p" 2000 600 20 (says "assistant" "b" ∷ []) seen
    ≡ some (
        record {
          role = "assistant";
          content = str "c";
          token_count = 1;
          original_hash = "sha256:assistant;c;";
        }
        ∷ [])
unfolding detect_compaction rescue_missing recent_rows sort_by_index insert_by_index current_hashes
    hash_assistant_message normalise_content_for_hash count_tokens count_for_text normalize
rescued = refl

abbrev call : Fields
call = field "type" (str "tool_use") (field "id" (str "t1") end)

abbrev before : Items
before = cons (obj (field "type" (str "thinking") end)) (cons (obj call) nil)

abbrev after : Items
after = cons (obj (put "id" (str "t2") call)) nil

Alike-hash_assistant_message_example :
    hash_assistant_message codec (record (says "assistant" "b") { content = some (arr before) })
    ≡ hash_assistant_message codec (record (says "assistant" "b") { content = some (arr after) })
unfolding get
Alike-hash_assistant_message_example =
    Alike-hash_assistant_message codec (says "assistant" "b") before after
      (thinking _ refl (tool_id call (str "t2") refl done))

record_seen_turns-SeenAt_example :
    All
      (λ m.
        has_role "assistant" m ≡ true
        → SeenAt "p"
            (hash_assistant_message codec m)
            1000
            (record_seen_turns codec "p" 1000 talk empty_db).seen_turns)
      talk
record_seen_turns-SeenAt_example = record_seen_turns-SeenAt codec "p" 1000 talk empty_db

record_seen_turns-Keeps_example :
    Keeps "p" "sha256:assistant;c;" 3000 seen.seen_turns
      (record_seen_turns codec "p" 3000 talk seen).seen_turns
record_seen_turns-Keeps_example =
    record_seen_turns-Keeps codec "p" 3000 talk seen "p" "sha256:assistant;c;"

detect_compaction_quiet_example : detect_compaction codec "p" 2000 600 20 talk seen ≡ some []
unfolding current_hashes hash_assistant_message normalise_content_for_hash
detect_compaction_quiet_example =
    detect_compaction_quiet codec "p" 2000 600 20 talk seen (λ h. refl, (λ h. refl, tt))

prune_old_seen_turns_effect_example :
    let (db', n) = prune_old_seen_turns "p" 300000000 72 seen in
    (length db'.seen_turns + n ≡ length seen.seen_turns)
    × All (λ r. is_stale "p" 300000000 72 r ≡ false) db'.seen_turns
    × ((q j : String) (r : SeenRow)
        → find_row q j seen.seen_turns ≡ some r
        → is_stale "p" 300000000 72 r ≡ false
        → find_row q j db'.seen_turns ≡ some r)
prune_old_seen_turns_effect_example = prune_old_seen_turns_effect "p" 300000000 72 seen
