-- ===== src/Proxy/Respond.antt =====
-- `_maybe_evict` of src/spillover/proxy/app.py: after a response, the turns that no longer fit go to
-- the archive, marked as evicted.
pub mod Effect
use spillover.Prelude.{
  ℕ, zero, suc, ◌+◌, String, Bool, true, false, Option, none, some, List, [], ◌∷◌, ◌==◌, str_eq,
  if◌then◌else◌, or_else, map, sum_by, ℤ, pos, ◌+ℤ◌,
}
use spillover.Json.{Items, nil, cons, str, Payload}
use spillover.Runtime.{Codec, Floats}
use spillover.Tokenizer.{count_tokens}
use spillover.Eviction.{ActiveTurn, select_for_eviction}
use spillover.Storage.{Db}
use spillover.Archive.{Turn}
use spillover.Archive.Several.{archive_evicted}
use spillover.Adapters.{ConversationTurn, Conversation}

abbrev pub count_items : Items → ℕ
count_items nil = 0
count_items (cons x xs) = suc (count_items xs)

-- `next(... for t in reversed(conv.turns) if t.role == "user")`, where `none` is no such turn
unfoldable pub last_user_tokens : List ConversationTurn → Option ℕ
last_user_tokens [] = none
last_user_tokens (t ∷ ts) = elim (last_user_tokens ts) [
  | some n ↦ some n
  | none ↦ if str_eq t.role "user" then some t.token_count else none
]

-- `tokens_to_free`
abbrev pub tokens_entering : Codec → List ConversationTurn → Option String → ℕ
tokens_entering c turns assistant_text =
    or_else (last_user_tokens turns) 0 + count_tokens c (str (or_else assistant_text ""))

-- The list `active`, from the position `i` on.
unfoldable pub active_turns : ℕ → List ConversationTurn → List ActiveTurn
active_turns i [] = []
active_turns i (t ∷ ts) =
    record {
      index = or_else t.source_index i;
      token_count = t.token_count;
      role = t.role;
      pinned = false;
      memory_type = none;
      is_system = false;
      density = count_items t.tool_calls;
    }
    ∷ active_turns (suc i) ts

abbrev pub is_at : ℕ → ConversationTurn → Bool
is_at i t = elim t.source_index [ none ↦ false | some j ↦ j == i ]

-- `turns_by_source.get(idx)`; a later turn of the same index wins.
unfoldable pub turn_by_source : ℕ → List ConversationTurn → Option ConversationTurn
turn_by_source i [] = none
turn_by_source i (t ∷ ts) = elim (turn_by_source i ts) [
  | some u ↦ some u
  | none ↦ if is_at i t then some t else none
]

-- The turns that the loop goes through, the indexes without a turn left out.
unfoldable pub found_turns : List ConversationTurn → List ℕ → List ConversationTurn
found_turns turns [] = []
found_turns turns (i ∷ is) = elim (turn_by_source i turns) [
  | none ↦ found_turns turns is
  | some t ↦ t ∷ found_turns turns is
]

-- The turn that the loop archives.
abbrev pub evicted_turn : String → ℕ → ConversationTurn → Turn
evicted_turn p ts t = record {
  project_id = p;
  role = t.role;
  content = t.content;
  tool_calls = t.tool_calls;
  code_refs = nil;
  token_count = t.token_count;
  ts = ts;
  compaction_rescued = false;
}

abbrev pub Outcome : Type 0
Outcome = Db × Option (List String × ℕ)

-- The indexes that are evicted, by the turns of the conversation.
unfoldable pub evicted_indexes : Codec → List ConversationTurn → Option String → List ℕ
evicted_indexes c turns assistant_text =
    let result =
      select_for_eviction (active_turns 0 turns) (tokens_entering c turns assistant_text) 4 in
    result.evicted_indexes

module _ (c : Codec) (ids : ℕ → String) (p : String) (ts : ℕ) where
  -- From the point where the indexes are known.
  unfoldable pub evict_found : List ConversationTurn → Db → Outcome
  evict_found found db =
      let archived = archive_evicted c ids false (map (evicted_turn p ts) found) db in
      elim archived.1 [
        | none ↦ (archived.0, none)
        | some eids ↦ (archived.0, some (eids, sum_by (λ t. t.token_count) found))
      ]

  unfoldable pub evict_turns : List ConversationTurn → Option String → Db → Outcome
  evict_turns [] assistant_text db = (db, some ([], 0))
  evict_turns (t ∷ turns) assistant_text db =
      if tokens_entering c (t ∷ turns) assistant_text == 0
      then (db, some ([], 0))
      else elim (evicted_indexes c (t ∷ turns) assistant_text) [
        | [] ↦ (db, some ([], 0))
        | i ∷ is ↦ evict_found (found_turns (t ∷ turns) (i ∷ is)) db
      ]

  -- `none` beside the database is an exception: a division by a window of zero, a message that the
  -- adapter cannot parse, or an insert that fails.
  unfoldable pub maybe_evict :
      (f : Floats)
      → ℕ
      → f.Float
      → (Payload → Option Conversation)
      → Payload
      → Option String
      → ℤ
      → ℤ
      → Db
      → Outcome
  maybe_evict f window_max watermark parse payload assistant_text input_tokens output_tokens db =
      let fill_ratio =
        f.div_f (f.of_int (input_tokens +ℤ output_tokens)) (f.of_int (pos window_max)) in
      if window_max == 0
      then (db, none)
      else if f.lt_f fill_ratio watermark
      then (db, some ([], 0))
      else elim (parse payload) [
        | none ↦ (db, none)
        | some conv ↦ evict_turns conv.turns assistant_text db
      ]
