-- ===== src/Tests/Forward.antt =====
-- The trim before forwarding (src/spillover/proxy/app.py) on a request of eight messages.
use spillover.Prelude.{
  ℕ, ◌+◌, String, ◌≡◌, refl, true, some, All, List, [], ◌∷◌, length, pos, ◌-ℤ◌, max_ℤ,
}
use spillover.Json.{get, Message}
use spillover.Tokenizer.{count_tokens, count_for_text, normalize}
use spillover.Storage.{empty_db, id_of_hash, insert_episode}
use spillover.Archive.{archive_raw, insert_turn, hash_turn}
use spillover.Text.{strip, lstrip, rstrip, is_space}
use spillover.Proxy.RuntimeEnv.{load_runtime, setting_of, split_equals, is_comment}
use spillover.Proxy.Budget.{archive_pct, total_tokens, target_to_evict, effective_ceiling}
use spillover.Proxy.Forward.{
  has_tool_block, is_safely_evictable, walk, Trimmed, trim_by, evict_inbound_to_ceiling,
}
use spillover.Proxy.Forward.Thinned.{Thinned}
use spillover.Archive.Honest.{IsHonest}
use spillover.Proxy.Forward.Request.{
  IsProtected, IsStored, evict_inbound_protects, evict_inbound_accounts, evict_inbound_archives,
}
use spillover.Tests.Fixtures.{codec, floats, no_env, says, calls_tool, request}

-- Two tokens each; the tool call is printed as one text of five characters.
abbrev pub talk : List Message
talk =
    says "user" "question"
    ∷ says "assistant" "answer 1"
    ∷ says "user" "middle 1"
    ∷ calls_tool
    ∷ says "assistant" "middle 2"
    ∷ says "user" "recent 1"
    ∷ says "assistant" "recent 2"
    ∷ says "user" "recent 3"
    ∷ says "assistant" "recent 4"
    ∷ []

abbrev ids : ℕ → String
ids i = "drawn"

abbrev outcome : Trimmed
outcome =
    evict_inbound_to_ceiling floats codec ids "p" 7 [] (pos 16) (pos 1) (request talk) empty_db
      no_env

outcome_counts : (outcome.turns_removed ≡ 1) × (outcome.tokens_freed ≡ 2)
unfolding evict_inbound_to_ceiling trim_by walk is_safely_evictable has_tool_block target_to_evict
    archive_pct effective_ceiling load_runtime count_tokens count_for_text normalize archive_raw
    insert_turn insert_episode id_of_hash hash_turn max_ℤ ◌-ℤ◌ get
outcome_counts = (refl, refl)

setting : setting_of " SPILLOVER_ARCHIVE_PCT = 0.5 " ≡ some ("SPILLOVER_ARCHIVE_PCT", "0.5")
unfolding setting_of split_equals is_comment strip lstrip rstrip is_space
setting = refl

evict_inbound_protects_example : IsProtected (request talk) outcome.payload
evict_inbound_protects_example =
    evict_inbound_protects floats codec ids "p" 7 [] (pos 16) (pos 1) (request talk) empty_db no_env

evict_inbound_accounts_example :
    (total_tokens codec outcome.payload + outcome.tokens_freed ≡ total_tokens codec (request talk))
    × (length outcome.payload.messages + outcome.turns_removed ≡ length talk)
evict_inbound_accounts_example =
    evict_inbound_accounts floats codec ids "p" 7 [] (pos 16) (pos 1) (request talk) empty_db no_env

evict_inbound_archives_example :
    All (IsHonest codec) outcome.db.episodes
    × Thinned
        (IsStored codec (length talk) outcome.db.episodes)
        (λ j m. Unit)
        0
        talk
        outcome.payload.messages
evict_inbound_archives_example =
    evict_inbound_archives floats codec ids "p" 7 [] (pos 16) (pos 1) (request talk) empty_db no_env
      tt

-- A tool's answer of a chat is a message with a text, and may leave without the call.
tool_answer_leaves : is_safely_evictable (says "tool" "result") ≡ true
unfolding is_safely_evictable
tool_answer_leaves = refl
