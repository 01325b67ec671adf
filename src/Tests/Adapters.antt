-- ===== src/Tests/Adapters.antt =====
-- The adapter for Anthropic (src/spillover/adapters/anthropic.py) on a request with a billing header.
use spillover.Prelude.{String, ◌≡◌, refl, some, [], ◌∷◌, or_else}
use spillover.Json.{Json, null, str, arr, obj, Items, nil, cons, end, field, get, Payload}
use spillover.Proxy.Budget.{total_tokens}
use spillover.Adapters.{Conversation, total_input_tokens}
use spillover.Text.{starts_with, occurs_in, first_chars}
use spillover.Adapters.Anthropic.{
  parse, parse_turns, conversation_of, turn_at, build, inject_ltm, inject_system, anchor_end_from,
  ltm_block,
}
use spillover.Adapters.Anthropic.Conversations.{parse-build, parse-total_tokens}
use spillover.Adapters.Anthropic.Injection.{IsInjected, inject_ltm-IsInjected}
use spillover.Tests.Fixtures.{codec, says, calls_tool, request}

abbrev text_block : String → Json
text_block t = obj (field "type" (str "text") (field "text" (str t) end))

abbrev system : Items → Payload
system blocks = record (request (says "user" "hi" ∷ calls_tool ∷ [])) {
  system = some (arr blocks);
  rest = field "stream" (str "yes") (field "other" null end);
}

abbrev head : Json
head = text_block "x-anthropic-billing-header: 1"

abbrev before : Payload
before = system (cons head (cons (text_block "Be brief.") nil))

abbrev after : Payload
after = system (cons head (cons (ltm_block "memo") (cons (text_block "Be brief.") nil)))

inject_ltm-IsInjected_example :
    (v : Json) × IsInjected "memo" (or_else before.system null) v
    × (after ≡ record before { system = some v })
unfolding inject_ltm inject_system anchor_end_from starts_with occurs_in first_chars get
inject_ltm-IsInjected_example = inject_ltm-IsInjected before after "memo" refl refl

abbrev conversation : Conversation
conversation = conversation_of codec before (
    turn_at codec 0 "user" (str "hi")
    ∷ turn_at codec 1 "assistant" (or_else calls_tool.content null)
    ∷ [])

parse-build_example : parse codec (build conversation) ≡ some conversation
unfolding parse parse_turns
parse-build_example = parse-build codec before conversation refl

parse-total_tokens_example : total_input_tokens conversation ≡ total_tokens codec before
unfolding parse parse_turns
parse-total_tokens_example = parse-total_tokens codec before conversation refl
