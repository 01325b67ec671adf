-- ===== src/Adapters/OpenAi.antt =====
-- src/spillover/adapters/openai.py: the requests of OpenAI's API. A message without a role, which
-- the API refuses, reads as one whose role is the empty text.
pub mod Responses
use Prim.Native.Char.{Char}
use Prim.Native.String.{[] as nothing, ◌∷◌ as prepend, ◌++◌ as append}
use spillover.Prelude.{
  ℕ, suc, String, Bool, Option, none, some, List, [], ◌∷◌, ◌++◌, map, str_eq, if◌then◌else◌,
  or_else, any, ℤ, pos,
}
use spillover.Text.{join, splitlines}
use spillover.Json.{
  Json, null, bool, int, real, str, arr, obj, Items, nil, cons, Fields, end, field, get,
  get_or_null, truthy, Message, has_role, content_of, Payload,
}
use spillover.Runtime.{Codec, Floats}
use spillover.Tokenizer.{count_tokens, message_tokens}
use spillover.Adapters.{ConversationTurn, Conversation, Adapter}
use spillover.Retriever.Render.{dict_texts}
use spillover.Adapters.Stream.{is_idle, usage_of_body, usage_lines, text_lines}
use spillover.Adapters.Anthropic.Responses.{text_of_blocks}

-- `_PASSTHROUGH_KEYS`
abbrev pub passthrough_keys : List String
passthrough_keys =
    "stream" ∷ "stop" ∷ "temperature" ∷ "top_p" ∷ "n" ∷ "logprobs" ∷ "top_logprobs"
    ∷ "presence_penalty" ∷ "frequency_penalty" ∷ "seed" ∷ "tools" ∷ "tool_choice"
    ∷ "response_format" ∷ "user" ∷ []

-- `{k: payload[k] for k in _PASSTHROUGH_KEYS if k in payload}`, in the order of the payload
unfoldable pub pass_through : Fields → Fields
pass_through end = end
pass_through (field k v fs) =
    let rest = pass_through fs in
    if any (λ j. str_eq k j) passthrough_keys then field k v rest else rest

abbrev pub chars_of : String → Items
chars_of nothing = nil
chars_of (prepend a t) = cons (str (prepend a nothing)) (chars_of t)

abbrev pub keys_of : Fields → Items
keys_of end = nil
keys_of (field k v fs) = cons (str k) (keys_of fs)

-- `list(msg.get("tool_calls") or [])`, where `none` is the TypeError of what cannot be iterated
abbrev pub extract_tool_calls : Message → Option Items
extract_tool_calls m = elim (get_or_null "tool_calls" m.rest) [
  | arr xs ↦ some xs
  | str t ↦ some (chars_of t)
  | obj d ↦ some (keys_of d)
  | v ↦ if truthy v then none else some nil
]

abbrev pub turn_at : Codec → ℕ → Message → Items → ConversationTurn
turn_at c i m calls = record {
  role = or_else m.role "";
  content = content_of m;
  tool_calls = calls;
  token_count = message_tokens c m;
  source_index = some i;
}

abbrev pub Parsed : Type 0
Parsed = List String × List ConversationTurn

abbrev pub with_part : Json → Parsed → Parsed
with_part (str t) (parts, turns) = (t ∷ parts, turns)
with_part _ parsed = parsed

-- The loop of `parse` from the index `i` on: the system parts and the turns.
unfoldable pub parse_messages : Codec → ℕ → List Message → Option Parsed
parse_messages c i [] = some ([], [])
parse_messages c i (m ∷ ms) = elim (parse_messages c (suc i) ms) [
  | none ↦ none
  | some (parts, turns) ↦
      let turned : Option Parsed = elim (extract_tool_calls m) [
        | none ↦ none
        | some calls ↦ some (parts, turn_at c i m calls ∷ turns)
      ] in
      if has_role "system" m then some (with_part (content_of m) (parts, turns)) else turned
]

abbrev pub system_of : List String → Option Json
system_of [] = none
system_of (t ∷ ts) = some (str (join "\n\n" (t ∷ ts)))

-- `count_tokens(system) if system else 0`
abbrev pub tokens_of_system : Codec → Option Json → ℕ
tokens_of_system c none = 0
tokens_of_system c (some v) = if truthy v then count_tokens c v else 0

unfoldable pub parse : Codec → Payload → Option Conversation
parse c payload = elim (parse_messages c 0 payload.messages) [
  | none ↦ none
  | some (parts, turns) ↦ some (record {
    system = system_of parts;
    system_tokens = tokens_of_system c (system_of parts);
    turns = turns;
    model = payload.model;
    max_tokens = or_else (get "max_tokens" payload.rest) (int (pos 4096));
    extra = pass_through payload.rest;
  })
]

abbrev pub system_message : String → Message
system_message t = record { role = some "system"; content = some (str t); rest = end }

-- `(existing or "")` as a text, where `none` is the TypeError of adding what is no text
abbrev pub existing_text : Json → Option String
existing_text (str t) = some t
existing_text v = if truthy v then none else some ""

unfoldable pub inject_messages : String → List Message → Option (List Message)
inject_messages ltm_text [] = some (system_message ltm_text ∷ [])
inject_messages ltm_text (m ∷ ms) =
    let coalesced : Option (List Message) = elim (existing_text (or_else m.content (str ""))) [
      | none ↦ none
      | some t ↦ some ((record m { content = some (str (append ltm_text (append "\n\n" t))) }) ∷ ms)
    ] in
    if has_role "system" m then coalesced else some (system_message ltm_text ∷ m ∷ ms)

unfoldable pub inject_ltm : Payload → String → Option Payload
inject_ltm payload ltm_text =
    let injected : Option Payload = elim (inject_messages ltm_text payload.messages) [
      | none ↦ none
      | some ms ↦ some (record payload { messages = ms })
    ] in
    if str_eq ltm_text "" then some payload else injected

-- The system text that `build` sends, where `none` is a TypeError.
abbrev pub built_system : Json → Option (List Message)
built_system (str t) = some (system_message t ∷ [])
built_system (arr bs) = elim (dict_texts bs) [
  | none ↦ none
  | some ts ↦ some (system_message (join "\n\n" ts) ∷ [])
]
built_system (obj d) = some (system_message "" ∷ [])
built_system _ = none

abbrev pub system_messages : Option Json → Option (List Message)
system_messages none = some []
system_messages (some v) = if truthy v then built_system v else some []

abbrev pub calls_field : Items → Fields
calls_field nil = end
calls_field (cons x xs) = field "tool_calls" (arr (cons x xs)) end

abbrev pub entry_of : ConversationTurn → Message
entry_of t = record {
  role = some t.role;
  content = some t.content;
  rest = calls_field t.tool_calls;
}

unfoldable pub build : Conversation → Option Payload
build conv = elim (system_messages conv.system) [
  | none ↦ none
  | some ms ↦ some (record {
    model = conv.model;
    system = none;
    messages = ms ++ map entry_of conv.turns;
    rest = field "max_tokens" conv.max_tokens conv.extra;
  })
]
