-- ===== src/Tests/Respond.antt =====
-- What the proxy does after a response and after a compaction (src/spillover/proxy/app.py), on short
-- conversations.
use spillover.Prelude.{ℕ, String, ◌≡◌, refl, some, Option, List, [], ◌∷◌, arith, pos, ◌+ℤ◌}
use spillover.Json.{str, Message}
use spillover.Storage.{Db, empty_db, id_of_hash, insert_episode, mark_evicted}
use spillover.Eviction.{
  select_for_eviction, drain, evictable_pass1, evictable_pass2, ordered_candidates, before_cutoff,
}
use spillover.Tokenizer.{count_tokens, count_for_text, normalize}
use spillover.Archive.{archive_raw, insert_turn, hash_turn}
use spillover.Archive.Several.{archive_turns, archive_evicted}
use spillover.Adapters.Anthropic.{parse, parse_turns, pass_through, calls_in}
use spillover.CounterCompact.Detection.{RescuedTurn}
use spillover.Proxy.Rescue.{FacetQueue, detect_and_rescue, enqueue_facets}
use spillover.Proxy.Rescue.Queue.{filled, enqueue_facets-eq-filled}
use spillover.Proxy.Respond.{
  Outcome, found_turns, turn_by_source, active_turns, last_user_tokens, evicted_indexes,
  evict_found, evict_turns, maybe_evict,
}
use spillover.Proxy.Respond.Effect.{IsSettled, maybe_evict-IsEvicted}
use spillover.Tests.Fixtures.{codec, floats, says, request}

abbrev ids : ℕ → String
ids i = "drawn"

abbrev talk : List Message
talk =
    says "user" "question"
    ∷ says "assistant" "answer 1"
    ∷ says "user" "middle 1"
    ∷ says "assistant" "recent 1"
    ∷ says "user" "go"
    ∷ []

abbrev drawn : List String
drawn = "drawn" ∷ []

abbrev freed : ℕ
freed = 2

abbrev outcome : Outcome
outcome =
    maybe_evict codec ids "p" 7 floats 1 0 (parse codec) (request talk) (some "sure") (pos 9)
      (pos 1) empty_db

outcome_counts : outcome.1 ≡ some (drawn, freed)
unfolding maybe_evict evict_turns evict_found evicted_indexes found_turns turn_by_source
    active_turns last_user_tokens archive_evicted archive_turns archive_raw insert_turn
    insert_episode id_of_hash hash_turn mark_evicted parse parse_turns pass_through calls_in
    count_tokens count_for_text normalize select_for_eviction drain evictable_pass1 evictable_pass2
    ordered_candidates before_cutoff ◌+ℤ◌
outcome_counts = refl

maybe_evict-IsEvicted_example :
    IsSettled codec floats 1 0
      (parse codec)
      (request talk)
      (some "sure")
      (pos 9)
      (pos 1)
      empty_db
      drawn
      freed
      outcome.0
maybe_evict-IsEvicted_example =
    maybe_evict-IsEvicted codec floats 1 0 (parse codec) (request talk) (some "sure") (pos 9)
      (pos 1) ids "p" 7 empty_db drawn freed outcome_counts

abbrev table : Db
table = record empty_db {
  seen_turns =
      record {
        project_id = "p";
        turn_hash = "gone";
        turn_index = 0;
        content_json = "old";
        first_seen_ts = 5;
        last_seen_ts = 5;
      }
      ∷ [];
}

abbrev queue : FacetQueue
queue = record { maxsize = 1; events = []; dropped = 0 }

enqueue_facets-eq-filled_example :
    enqueue_facets "p" ("a" ∷ "b" ∷ []) queue ≡ filled "p" ("a" ∷ "b" ∷ []) queue
enqueue_facets-eq-filled_example = enqueue_facets-eq-filled "p" ("a" ∷ "b" ∷ []) queue (omega arith)

abbrev lost_turn : RescuedTurn
lost_turn = record {
  role = "assistant";
  content = str "old";
  token_count = 1;
  original_hash = "gone";
}

abbrev rescued : Db × Option (List RescuedTurn × List String)
rescued = detect_and_rescue codec ids "p" 6 6 7 [] table
