-- ===== src/Adapters/Anthropic/Responses.antt =====
-- What AnthropicAdapter of src/spillover/adapters/anthropic.py reads from responses, and the adapter
-- as a whole.
use Prim.Native.String.{◌++◌ as append}
use spillover.Prelude.{String, false, Option, none, some, if◌then◌else◌, or_else}
use spillover.Text.{join, splitlines}
use spillover.Json.{Json, str, arr, obj, Items, nil, cons, Fields, end, get, get_or_null, truthy}
use spillover.Runtime.{Codec, Floats}
use spillover.Adapters.{Adapter}
use spillover.Adapters.Stream.{lacks_key, usage_of_body, usage_lines, text_lines}
use spillover.Adapters.Anthropic.{parse, inject_ltm}

-- `obj.get("usage") or (obj.get("message") or {}).get("usage") or {}`
abbrev pub usage_in_event : Fields → Option Json
usage_in_event d =
    let own = get_or_null "usage" d in
    let nested : Option Json = elim (get_or_null "message" d) [
      | obj m ↦ some (if truthy (get_or_null "usage" m) then get_or_null "usage" m else obj end)
      | v ↦ if truthy v then none else some (obj end)
    ] in
    if truthy own then some own else nested

-- `"".join(b.get("text", "") for b in ... if isinstance(b, dict))`
unfoldable pub text_of_blocks : Items → Option String
text_of_blocks nil = some ""
text_of_blocks (cons (obj b) bs) = elim (or_else (get "text" b) (str "")) [
  | str t ↦ elim (text_of_blocks bs) [ none ↦ none | some rest ↦ some (append t rest) ]
  | _ ↦ none
]
text_of_blocks (cons _ bs) = text_of_blocks bs

-- A text or a dict has no dicts among its items; `none` for what cannot be iterated.
abbrev pub parse_response_text : Fields → Option String
parse_response_text resp = elim (or_else (get "content" resp) (arr nil)) [
  | arr bs ↦ text_of_blocks bs
  | str t ↦ some ""
  | obj d ↦ some ""
  | _ ↦ none
]

-- `delta = obj.get("delta") or {}`, and the text that it adds
abbrev pub delta_text : Fields → String → Option String
delta_text d text = elim (get_or_null "delta" d) [
  | obj delta ↦ elim (get "text" delta) [
    | none ↦ some text
    | some (str t) ↦ some (append text t)
    | some v ↦ none
  ]
  | v ↦ if lacks_key "text" v then some text else none
]

abbrev pub anthropic : Floats → Codec → (String → String) → Adapter
anthropic f c decode = record {
  parse = parse c;
  usage_of_body = usage_of_body f c "input_tokens" "output_tokens";
  usage_of_stream = λ captured.
      usage_lines f c "input_tokens" "output_tokens" usage_in_event
        (splitlines (decode (join "" captured))) none;
  response_text = parse_response_text;
  stream_text =
      λ captured. text_lines c (λ t. false) delta_text (splitlines (decode (join "" captured))) "";
  inject_ltm = inject_ltm;
}
