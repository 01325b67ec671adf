-- ===== src/Adapters/OpenAi/Responses.antt =====
-- What OpenAIAdapter of src/spillover/adapters/openai.py reads from responses, and the adapter as a
-- whole.
use Prim.Native.String.{◌++◌ as append}
use spillover.Prelude.{String, Option, none, some, if◌then◌else◌}
use spillover.Text.{join, splitlines}
use spillover.Json.{Json, str, arr, obj, Items, nil, cons, Fields, end, get, get_or_null, truthy}
use spillover.Runtime.{Codec, Floats}
use spillover.Adapters.{Adapter}
use spillover.Adapters.Stream.{is_idle, lacks_key, usage_of_body, usage_lines, text_lines}
use spillover.Adapters.Anthropic.Responses.{text_of_blocks}
use spillover.Adapters.OpenAi.{parse, inject_ltm}

-- `obj.get("usage") or {}`
abbrev pub usage_in_event : Fields → Option Json
usage_in_event d = some (if truthy (get_or_null "usage" d) then get_or_null "usage" d else obj end)

-- The text of a message's content.
abbrev pub content_text : Json → Option String
content_text (str t) = some t
content_text (arr bs) = text_of_blocks bs
content_text _ = some ""

-- `msg = choices[0].get("message") or {}`
abbrev pub choice_text : Json → Option String
choice_text (obj choice) = elim (get_or_null "message" choice) [
  | obj msg ↦ content_text (get_or_null "content" msg)
  | v ↦ if truthy v then none else some ""
]
choice_text _ = none

-- `choices` that are truthy and no list have no item 0 that is a dict.
unfoldable pub parse_response_text : Fields → Option String
parse_response_text resp = elim (get_or_null "choices" resp) [
  | arr nil ↦ some ""
  | arr (cons choice choices) ↦ choice_text choice
  | v ↦ if truthy v then none else some ""
]

-- One round of the loop over the choices of an event.
abbrev pub delta_text : Fields → String → Option String
delta_text choice text = elim (get_or_null "delta" choice) [
  | obj delta ↦ elim (get "content" delta) [ some (str t) ↦ some (append text t) | _ ↦ some text ]
  | v ↦ if lacks_key "content" v then some text else none
]

unfoldable pub choices_text : Items → String → Option String
choices_text nil text = some text
choices_text (cons (obj choice) choices) text = elim (delta_text choice text) [
  | none ↦ none
  | some text' ↦ choices_text choices text'
]
choices_text (cons _ choices) text = none

-- A text or a dict that is truthy has items, and none is a dict.
abbrev pub event_text : Fields → String → Option String
event_text d text = elim (get_or_null "choices" d) [
  | arr choices ↦ choices_text choices text
  | v ↦ if truthy v then none else some text
]

abbrev pub openai : Floats → Codec → (String → String) → Adapter
openai f c decode = record {
  parse = parse c;
  usage_of_body = usage_of_body f c "prompt_tokens" "completion_tokens";
  usage_of_stream = λ captured.
      usage_lines f c "prompt_tokens" "completion_tokens" usage_in_event
        (splitlines (decode (join "" captured))) none;
  response_text = parse_response_text;
  stream_text =
      λ captured. text_lines c is_idle event_text (splitlines (decode (join "" captured))) "";
  inject_ltm = inject_ltm;
}
