-- ===== src/CounterCompact/Intercept.antt =====
-- src/spillover/counter_compact/intercept.py: the client's own requests for a summary, answered in
-- its place.
use Prim.Native.String.{◌++◌ as append}
use spillover.Prelude.{
  ℕ, String, Bool, true, false, Option, none, some, List, [], ◌∷◌, any, if◌then◌else◌, or_else, pos,
}
use spillover.Text.{occurs_in, join}
use spillover.Json.{
  Json, null, bool, int, str, arr, obj, Items, nil, cons, Fields, end, field, get, has_type,
  Message, has_role, content_of, Payload,
}
use spillover.Runtime.{Codec}

-- `_COMPACT_KEYWORDS`
abbrev pub compact_keywords : List String
compact_keywords =
    "compact the conversation" ∷ "compact this conversation" ∷ "summarize the conversation so far"
    ∷ "summarize this conversation" ∷ "create a concise summary of the conversation"
    ∷ "resuma a conversa" ∷ "compacte a conversa" ∷ []

-- The texts of the text blocks; `none` is the TypeError of joining what is no text.
unfoldable pub block_texts : Items → Option (List String)
block_texts nil = some []
block_texts (cons (obj b) bs) =
    let rest = block_texts bs in
    let with_text : Option (List String) = elim (or_else (get "text" b) (str "")) [
      | str t ↦ elim rest [ none ↦ none | some ts ↦ some (t ∷ ts) ]
      | _ ↦ none
    ] in
    if has_type "text" b then with_text else rest
block_texts (cons _ bs) = block_texts bs

-- `_content_to_text`
unfoldable pub content_to_text : Json → Option String
content_to_text (str t) = some t
content_to_text (arr bs) = elim (block_texts bs) [ none ↦ none | some ts ↦ some (join " " ts) ]
content_to_text _ = some ""

abbrev pub last_message : List Message → Option Message
last_message [] = none
last_message (m ∷ ms) = elim (last_message ms) [ none ↦ some m | some l ↦ some l ]

abbrev pub has_keyword : Codec → String → Bool
has_keyword c text = any (λ k. occurs_in k (c.lower text)) compact_keywords

unfoldable pub should_intercept_request : Codec → Payload → Option Bool
should_intercept_request c payload = elim (last_message payload.messages) [
  | none ↦ some false
  | some last ↦
      let by_text : Option Bool = elim (content_to_text (content_of last)) [
        | none ↦ none
        | some text ↦ some (has_keyword c text)
      ] in
      if has_role "user" last then by_text else some false
]

abbrev pub intercept_text : String
intercept_text =
    append "[spillover] Conversation memory is managed by the spillover "
      "proxy. No client-side compaction needed."

-- `hex12` is what `uuid4().hex[:12]` draws and `now` the clock in milliseconds.
abbrev pub make_intercept_response : String → ℕ → Payload → Fields
make_intercept_response hex12 now payload =
    let text_block : Json =
      obj (field "type" (str "text") (field "text" (str intercept_text) end)) in
    let usage : Json = obj (
      field "input_tokens" (int (pos 1)) (
        field "output_tokens" (int (pos 20)) (
          field "cache_creation_input_tokens" (int (pos 0))
            (field "cache_read_input_tokens" (int (pos 0)) end)))) in
    field "id" (str (append "msg_spillover_" hex12)) (
      field "type" (str "message") (
        field "role" (str "assistant") (
          field "model" (str (or_else payload.model "claude-opus-4-7")) (
            field "content" (arr (cons text_block nil)) (
              field "stop_reason" (str "end_turn") (
                field "stop_sequence" null (
                  field "usage" usage (
                    field "spillover_intercepted" (bool true)
                      (field "spillover_intercept_ts" (int (pos now)) end)))))))))
