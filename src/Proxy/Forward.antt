-- ===== src/Proxy/Forward.antt =====
-- `_evict_inbound_to_ceiling` of src/spillover/proxy/app.py: the oldest movable turns of the middle
-- leave the request and go to the archive before it is forwarded.
pub mod Middle
pub mod Thinned
pub mod Walk
pub mod Contract
pub mod Request
use spillover.Prelude.{
  ℕ, suc, ◌+◌, ◌-◌, String, Bool, true, false, not, ◌&&◌, ◌||◌, Option, none, some, List, [], ◌∷◌,
  ltb, leb, ◌==◌, if◌then◌else◌, or_else, length, ℤ, pos, leb_ℤ,
}
use spillover.Json.{
  Json, null, bool, int, real, str, arr, obj, Items, nil, cons, has_type, Message, content_of,
  Payload,
}
use spillover.Runtime.{Codec, Floats, Environ}
use spillover.Tokenizer.{message_tokens}
use spillover.Storage.{Db}
use spillover.Archive.{Turn, archive_raw}
use spillover.Proxy.RuntimeEnv.{load_runtime}
use spillover.Proxy.Budget.{total_tokens, target_to_evict, effective_ceiling}

abbrev pub is_tool_block : Json → Bool
is_tool_block (obj b) = has_type "tool_use" b || has_type "tool_result" b
is_tool_block _ = false

unfoldable pub has_tool_block : Items → Bool
has_tool_block nil = false
has_tool_block (cons b bs) = is_tool_block b || has_tool_block bs

-- `_is_safely_evictable`
unfoldable pub is_safely_evictable : Message → Bool
is_safely_evictable m = elim (content_of m) [
  | str t ↦ true
  | arr bs ↦ not (has_tool_block bs)
  | _ ↦ false
]

abbrev pub recent_buffer : ℕ
recent_buffer = 4

abbrev pub anchor : ℕ
anchor = 2

-- Whether the message at `i` of `n` is among `candidate_idxs`.
abbrev pub is_candidate : ℕ → ℕ → Message → Bool
is_candidate n i m = leb anchor i && ltb i (n - recent_buffer) && is_safely_evictable m

-- The turn that the loop archives for a message.
abbrev pub turn_of : Codec → String → ℕ → Message → Turn
turn_of c p ts m = record {
  project_id = p;
  role = or_else m.role "user";
  content = content_of m;
  tool_calls = nil;
  code_refs = nil;
  token_count = message_tokens c m;
  ts = ts;
  compaction_rescued = false;
}

-- What the loop leaves: the database, the archived ids, the tokens freed and the messages kept.
pub record Walked : Type 0 where
  pub db : Db
  pub archived_ids : List String
  pub tokens_freed : ℕ
  pub kept : List Message

abbrev pub stop : Db → List Message → Walked
stop db ms = record { db = db; archived_ids = []; tokens_freed = 0; kept = ms }

abbrev pub keep_message : Message → Walked → Walked
keep_message m w = record w { kept = m ∷ w.kept }

abbrev pub drop_message : String → ℕ → Walked → Walked
drop_message eid tok w = record w {
  archived_ids = eid ∷ w.archived_ids;
  tokens_freed = tok + w.tokens_freed;
}

module _ (c : Codec) (ids : ℕ → String) (p : String) (ts ceiling n : ℕ) where
  -- The loop over the candidates, as a walk over all the messages from the index `i` on; `ids i` is
  -- the id that `uuid4` draws at the index `i`. A failing archive ends the loop.
  unfoldable pub walk : ℕ → ℕ → Db → List Message → Walked
  walk i running db [] = stop db []
  walk i running db (m ∷ ms) =
      let tok = message_tokens c m in
      let go_on = keep_message m (walk (suc i) running db ms) in
      let archive = archive_raw c (λ d. d) (ids i) (turn_of c p ts m) db in
      let moved = walk (suc i) (running - tok) archive.0 ms in
      if not (is_candidate n i m)
      then go_on
      else if leb running ceiling
      then stop db (m ∷ ms)
      else if tok == 0
      then go_on
      else elim archive.1 [ none ↦ stop archive.0 (m ∷ ms) | some eid ↦ drop_message eid tok moved ]

abbrev pub has_candidate : ℕ → ℕ → List Message → Bool
has_candidate n i [] = false
has_candidate n i (m ∷ ms) = is_candidate n i m || has_candidate n (suc i) ms

-- What the call leaves behind, and the two numbers that it returns.
pub record Trimmed : Type 0 where
  pub payload : Payload
  pub db : Db
  pub environ : Environ
  pub turns_removed : ℕ
  pub tokens_freed : ℕ

abbrev pub untouched : Payload → Db → Environ → Trimmed
untouched payload db env = record {
  payload = payload;
  db = db;
  environ = env;
  turns_removed = 0;
  tokens_freed = 0;
}

abbrev pub finish : Payload → Environ → Walked → Trimmed
finish payload env w = elim w.archived_ids [
  | [] ↦ untouched payload w.db env
  | eid ∷ eids ↦ record {
    payload = record payload { messages = w.kept };
    db = w.db;
    environ = env;
    turns_removed = length (eid ∷ eids);
    tokens_freed = w.tokens_freed;
  }
]

module _ (f : Floats) (c : Codec) (ids : ℕ → String) (p : String) (ts : ℕ) where
  -- From the point where the target is known.
  unfoldable pub trim_by : ℤ → Payload → Db → Environ → Trimmed
  trim_by target payload db env =
      let total = total_tokens c payload in
      let n = length payload.messages in
      if leb_ℤ target (pos 0)
      then untouched payload db env
      else if leb n (anchor + recent_buffer)
      then untouched payload db env
      else if not (has_candidate n 0 payload.messages)
      then untouched payload db env
      else finish payload env
          (walk c ids p ts (effective_ceiling total target) n 0 total db payload.messages)

  -- `runtime` is the content of `runtime.env`, no line if the file is missing.
  unfoldable pub evict_inbound_to_ceiling : List String → ℤ → ℤ → Payload → Db → Environ → Trimmed
  evict_inbound_to_ceiling runtime operational_ceiling retrieval_reserve payload db env =
      elim payload.messages [
        | [] ↦ untouched payload db env
        | m ∷ ms ↦
            let env' = load_runtime runtime env in
            trim_by
              (target_to_evict f env' operational_ceiling retrieval_reserve
                (total_tokens c payload))
              payload db env'
      ]
