-- ===== src/Adapters/Anthropic.antt =====
-- src/spillover/adapters/anthropic.py: the requests of Anthropic's API.
pub mod Conversations
pub mod Injection
pub mod Responses
use Prim.Native.String.{[] as nothing, ◌∷◌ as prepend, ◌++◌ as append}
use spillover.Prelude.{
  ℕ, zero, suc, String, Bool, true, false, ◌||◌, Option, none, some, List, [], ◌∷◌, ◌++◌, str_eq,
  if◌then◌else◌, or_else, any, take, drop, ℤ, pos, ◌==◌,
}
use Prim.Native.Char.{Char, code}
use spillover.Text.{starts_with, occurs_in, first_chars}
use spillover.Json.{
  Json, null, bool, int, real, str, arr, obj, Items, nil, cons, Fields, end, field, get,
  get_or_null, put, truthy, has_type, items, of_list, Message, Payload,
}
use spillover.Runtime.{Codec}
use spillover.Tokenizer.{count_tokens}
use spillover.Proxy.Budget.{system_tokens}
use spillover.Adapters.{ConversationTurn, Conversation}

-- `_PASSTHROUGH_KEYS`
abbrev pub passthrough_keys : List String
passthrough_keys =
    "stream" ∷ "stop_sequences" ∷ "temperature" ∷ "top_p" ∷ "top_k" ∷ "metadata" ∷ "tools"
    ∷ "tool_choice" ∷ "thinking" ∷ "anthropic_version" ∷ []

abbrev pub is_passthrough : String → Bool
is_passthrough k = any (λ j. str_eq k j) passthrough_keys

-- `{k: payload[k] for k in _PASSTHROUGH_KEYS if k in payload}`, in the order of the payload
unfoldable pub pass_through : Fields → Fields
pass_through end = end
pass_through (field k v fs) =
    let rest = pass_through fs in if is_passthrough k then field k v rest else rest

-- `_extract_tool_calls`
unfoldable pub calls_in : Items → Items
calls_in nil = nil
calls_in (cons (obj b) bs) =
    let rest = calls_in bs in
    if has_type "tool_use" b
    then cons
        (obj (
          field "id" (get_or_null "id" b)
            (field "name" (get_or_null "name" b) (field "input" (get_or_null "input" b) end))))
        rest
    else rest
calls_in (cons _ bs) = calls_in bs

abbrev pub extract_tool_calls : Json → Items
extract_tool_calls (arr bs) = calls_in bs
extract_tool_calls _ = nil

abbrev pub turn_at : Codec → ℕ → String → Json → ConversationTurn
turn_at c i role content = record {
  role = role;
  content = content;
  tool_calls = extract_tool_calls content;
  token_count = count_tokens c content;
  source_index = some i;
}

-- The loop of `parse` from the index `i` on; `none` is the KeyError of a message without a role or
-- without content.
unfoldable pub parse_turns : Codec → ℕ → List Message → Option (List ConversationTurn)
parse_turns c i [] = some []
parse_turns c i (m ∷ ms) =
    let rest = parse_turns c (suc i) ms in
    elim m.content [
      | none ↦ none
      | some content ↦ elim m.role [
        | none ↦ none
        | some role ↦ elim rest [ none ↦ none | some ts ↦ some (turn_at c i role content ∷ ts) ]
      ]
    ]

-- A value of None is the same as none.
abbrev pub not_null : Option Json → Option Json
not_null (some null) = none
not_null v = v

abbrev pub conversation_of : Codec → Payload → List ConversationTurn → Conversation
conversation_of c payload turns = record {
  system = not_null payload.system;
  system_tokens = system_tokens c payload;
  turns = turns;
  model = payload.model;
  max_tokens = or_else (get "max_tokens" payload.rest) (int (pos 4096));
  extra = pass_through payload.rest;
}

unfoldable pub parse : Codec → Payload → Option Conversation
parse c payload = elim (parse_turns c 0 payload.messages) [
  | none ↦ none
  | some turns ↦ some (conversation_of c payload turns)
]

abbrev pub message_of : ConversationTurn → Message
message_of t = record { role = some t.role; content = some t.content; rest = end }

abbrev pub messages_of : List ConversationTurn → List Message
messages_of [] = []
messages_of (t ∷ ts) = message_of t ∷ messages_of ts

unfoldable pub build : Conversation → Payload
build conv = record {
  model = conv.model;
  system = not_null conv.system;
  messages = messages_of conv.turns;
  rest = field "max_tokens" conv.max_tokens conv.extra;
}

-- `b.get("text") or ""`; `none` is the AttributeError of a value that is no text.
abbrev pub text_of : Fields → Option String
text_of b = elim (get_or_null "text" b) [ str t ↦ some t | v ↦ if truthy v then none else some "" ]

abbrev pub is_anchor_text : String → Bool
is_anchor_text t =
    starts_with "x-anthropic-billing-header" t || occurs_in "Claude agent" (first_chars 120 t)

-- The loop that finds `anchor_end`, from the index `i` on.
unfoldable pub anchor_end_from : ℕ → ℕ → Items → Option ℕ
anchor_end_from i anchor_end nil = some anchor_end
anchor_end_from i anchor_end (cons (obj b) bs) = elim (text_of b) [
  | none ↦ none
  | some t ↦
      let rest = anchor_end_from (suc i) (suc i) bs in
      if is_anchor_text t then rest else some anchor_end
]
anchor_end_from i anchor_end (cons _ bs) = anchor_end_from (suc i) anchor_end bs

abbrev pub ltm_block : String → Json
ltm_block ltm_text = obj (field "type" (str "text") (field "text" (str ltm_text) end))

abbrev pub insert_block : String → ℕ → Items → Items
insert_block ltm_text n blocks =
    of_list (take n (items blocks) ++ ltm_block ltm_text ∷ drop n (items blocks))

-- What `inject_ltm` makes of the system field.
unfoldable pub inject_system : String → Json → Option Json
inject_system ltm_text null = some (str ltm_text)
inject_system ltm_text (str t) = some (str (append ltm_text (append "\n\n" t)))
inject_system ltm_text (arr blocks) = elim (anchor_end_from 0 0 blocks) [
  | none ↦ none
  | some n ↦ some (arr (insert_block ltm_text n blocks))
]
inject_system ltm_text v = some v

unfoldable pub inject_ltm : Payload → String → Option Payload
inject_ltm payload ltm_text =
    if str_eq ltm_text ""
    then some payload
    else elim (inject_system ltm_text (or_else payload.system null)) [
      | none ↦ none
      | some system ↦ some (record payload { system = some system })
    ]
