-- ===== src/CounterCompact/Detection.antt =====
-- src/spillover/counter_compact/detection.py: the turns that were seen, and those that are gone.
-- Times are milliseconds. The tests on a cutoff `now - span` are written as sums.
pub mod Hash
pub mod Table
pub mod Rescue
pub mod Prune
pub mod Misses
use spillover.Prelude.{
  ℕ, suc, ◌+◌, ◌*◌, String, Bool, true, false, not, ◌&&◌, Option, none, some, List, [], ◌∷◌, ◌++◌,
  ltb, leb, str_eq, if◌then◌else◌, or_else, take, keep, any, map, length, ◌-◌,
}
use spillover.Json.{
  Json, null, str, arr, obj, Items, nil, cons, Fields, end, field, get, get_or_null, has_type,
  Message, has_role, content_of,
}
use spillover.Runtime.{Codec}
use spillover.Tokenizer.{count_tokens}
use spillover.Storage.{SeenRow, Db}

pub record RescuedTurn : Type 0 where
  pub role : String
  pub content : Json
  pub token_count : ℕ
  pub original_hash : String

-- One round of the loop of `_normalise_content_for_hash`, in front of what the later rounds give.
unfoldable pub normalise_block : Json → Items → Items
normalise_block (obj b) out =
    if has_type "text" b
    then cons (obj (field "type" (str "text") (field "text" (or_else (get "text" b) (str "")) end)))
        out
    else if has_type "tool_use" b
    then cons
        (obj (
          field "type" (str "tool_use")
            (field "name" (get_or_null "name" b) (field "input" (get_or_null "input" b) end))))
        out
    else if has_type "tool_result" b
    then cons
        (obj (field "type" (str "tool_result") (field "content" (get_or_null "content" b) end))) out
    else if has_type "thinking" b
    then out
    else cons (obj b) out
normalise_block b out = cons b out

unfoldable pub normalise_items : Items → Items
normalise_items nil = nil
normalise_items (cons b bs) = normalise_block b (normalise_items bs)

unfoldable pub normalise_content_for_hash : Json → Json
normalise_content_for_hash (arr bs) = arr (normalise_items bs)
normalise_content_for_hash v = v

abbrev pub role_json : Message → Json
role_json m = elim m.role [ none ↦ null | some r ↦ str r ]

unfoldable pub hash_assistant_message : Codec → Message → String
hash_assistant_message c m = c.sha256 (
    c.dumps_sorted (
      obj (
        field "role" (role_json m)
          (field "content" (normalise_content_for_hash (content_of m)) end))))

-- `WHERE project_id=? AND turn_hash=?`
abbrev pub is_row : String → String → SeenRow → Bool
is_row p h r = str_eq r.project_id p && str_eq r.turn_hash h

-- `SELECT ... WHERE project_id=? AND turn_hash=?`, one row
unfoldable pub find_row : String → String → List SeenRow → Option SeenRow
find_row p h [] = none
find_row p h (r ∷ rs) = if is_row p h r then some r else find_row p h rs

-- `UPDATE seen_turns SET last_seen_ts=? WHERE project_id=? AND turn_hash=?`
unfoldable pub touch : String → String → ℕ → List SeenRow → List SeenRow
touch p h now [] = []
touch p h now (r ∷ rs) =
    (if is_row p h r then record r { last_seen_ts = now } else r) ∷ touch p h now rs

-- The row that the INSERT of `record_seen_turns` writes.
abbrev pub new_row : Codec → String → ℕ → ℕ → Message → SeenRow
new_row c p now idx m = record {
  project_id = p;
  turn_hash = hash_assistant_message c m;
  turn_index = idx;
  content_json = c.dumps (content_of m);
  first_seen_ts = now;
  last_seen_ts = now;
}

-- The body of the loop of `record_seen_turns` for an assistant message.
unfoldable pub upsert : Codec → String → ℕ → ℕ → Message → List SeenRow → List SeenRow
upsert c p now idx m rows = elim (find_row p (hash_assistant_message c m) rows) [
  | none ↦ rows ++ new_row c p now idx m ∷ []
  | some r ↦ touch p (hash_assistant_message c m) now rows
]

unfoldable pub record_from : Codec → String → ℕ → ℕ → List Message → List SeenRow → List SeenRow
record_from c p now idx [] rows = rows
record_from c p now idx (m ∷ ms) rows =
    record_from c p now (suc idx) ms
      (if has_role "assistant" m then upsert c p now idx m rows else rows)

unfoldable pub record_seen_turns : Codec → String → ℕ → List Message → Db → Db
record_seen_turns c p now messages db = record db {
  seen_turns = record_from c p now 0 messages db.seen_turns;
}

-- `current_hashes`
unfoldable pub current_hashes : Codec → List Message → List String
current_hashes c messages = map (hash_assistant_message c) (keep (has_role "assistant") messages)

-- `ORDER BY turn_index ASC`; rows of one index stay in the order of the table
unfoldable pub insert_by_index : SeenRow → List SeenRow → List SeenRow
insert_by_index r [] = r ∷ []
insert_by_index r (s ∷ ss) =
    if ltb s.turn_index r.turn_index then s ∷ insert_by_index r ss else r ∷ s ∷ ss

unfoldable pub sort_by_index : List SeenRow → List SeenRow
sort_by_index [] = []
sort_by_index (r ∷ rs) = insert_by_index r (sort_by_index rs)

-- `WHERE project_id=? AND last_seen_ts >= ?`, the cutoff being `now - window_seconds * 1000`
abbrev pub is_recent : String → ℕ → ℕ → SeenRow → Bool
is_recent p now window r = str_eq r.project_id p && leb now (r.last_seen_ts + window * 1000)

unfoldable pub recent_rows : String → ℕ → ℕ → ℕ → List SeenRow → List SeenRow
recent_rows p now window max_rescue rows =
    take max_rescue (sort_by_index (keep (is_recent p now window) rows))

abbrev pub in_hashes : String → List String → Bool
in_hashes h = any (λ k. str_eq h k)

abbrev pub rescued_of : Codec → SeenRow → Json → RescuedTurn
rescued_of c r content = record {
  role = "assistant";
  content = content;
  token_count = count_tokens c content;
  original_hash = r.turn_hash;
}

-- The loop of `detect_compaction` over the rows; `none` is a stored text that `json.loads` refuses.
unfoldable pub rescue_missing : Codec → List String → List SeenRow → Option (List RescuedTurn)
rescue_missing c current [] = some []
rescue_missing c current (r ∷ rs) =
    let rest = rescue_missing c current rs in
    if in_hashes r.turn_hash current then rest else elim (c.loads r.content_json) [
      | none ↦ none
      | some content ↦ elim rest [ none ↦ none | some ts ↦ some (rescued_of c r content ∷ ts) ]
    ]

unfoldable pub detect_compaction :
    Codec → String → ℕ → ℕ → ℕ → List Message → Db → Option (List RescuedTurn)
detect_compaction c p now window max_rescue messages db =
    rescue_missing c (current_hashes c messages) (recent_rows p now window max_rescue db.seen_turns)

-- `WHERE project_id=? AND last_seen_ts < ?`, the cutoff being `now - ttl_hours * 3600 * 1000`
abbrev pub is_stale : String → ℕ → ℕ → SeenRow → Bool
is_stale p now ttl_hours r =
    str_eq r.project_id p && ltb (r.last_seen_ts + ttl_hours * 3600 * 1000) now

-- The DELETE and its row count.
unfoldable pub prune_old_seen_turns : String → ℕ → ℕ → Db → Db × ℕ
prune_old_seen_turns p now ttl_hours db = (
  record db { seen_turns = keep (λ r. not (is_stale p now ttl_hours r)) db.seen_turns },
  length (keep (is_stale p now ttl_hours) db.seen_turns),
)
