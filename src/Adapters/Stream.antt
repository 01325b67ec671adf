-- ===== src/Adapters/Stream.antt =====
-- The readers of event streams that both adapters of src/spillover/adapters have, with what they
-- differ in as parameters. `none` is an exception; the chunks are joined and decoded before.
use spillover.Prelude.{
  String, Bool, not, any, ◌||◌, Option, none, some, List, [], ◌∷◌, str_eq, if◌then◌else◌, or_else,
  ℤ, pos,
}
use spillover.Text.{starts_with, occurs_in, drop_chars, strip}
use spillover.Json.{Json, int, obj, str, arr, is_text, items, Fields, get, truthy}
use spillover.Runtime.{Codec, Floats}
use spillover.CounterCompact.Usage.{int_of_json}

-- The text behind `data:`, stripped, of a line that begins with it.
unfoldable pub event_of_line : String → Option String
event_of_line line = if starts_with "data:" line then some (strip (drop_chars 5 line)) else none

-- `key not in delta` of a value that is no dict; false also where `in` or the access behind it fails
abbrev pub lacks_key : String → Json → Bool
lacks_key k (str t) = not (occurs_in k t)
lacks_key k (arr xs) = not (any (is_text k) (items xs))
lacks_key k v = not (truthy v)

-- The events that are skipped: an empty one, and the mark of the end.
abbrev pub is_idle : String → Bool
is_idle t = str_eq t "" || str_eq t "[DONE]"

module _ (f : Floats) (c : Codec) (in_key out_key : String) where
  -- `int(usage.get(key, n))` for both keys
  abbrev pub read_counts : Fields → ℤ × ℤ → Option (ℤ × ℤ)
  read_counts u (a, b) = elim (int_of_json f (or_else (get in_key u) (int a))) [
    | none ↦ none
    | some a' ↦ elim (int_of_json f (or_else (get out_key u) (int b))) [
      | none ↦ none
      | some b' ↦ some (a', b')
    ]
  ]

  -- The body of `extract_usage_non_streaming`: first `none` for an exception, then for no usage.
  unfoldable pub usage_of_body : String → Option (Option (ℤ × ℤ))
  usage_of_body body = elim (c.loads body) [
    | none ↦ some none
    | some (obj d) ↦ elim (or_else (get "usage" d) Json.null) [
      | obj u ↦
          let counts : Option (Option (ℤ × ℤ)) = elim (read_counts u (pos 0, pos 0)) [
            | none ↦ none
            | some p ↦ some (some p)
          ] in
          if truthy (obj u) then counts else some none
      | v ↦ if truthy v then none else some none
    ]
    | some v ↦ none
  ]

  module _ (usage_in : Fields → Option Json) where
    -- One event: the counts so far, `none` where no event had a usage yet.
    abbrev pub usage_step : Json → Option (ℤ × ℤ) → Option (Option (ℤ × ℤ))
    usage_step (obj d) s = elim (usage_in d) [
      | none ↦ none
      | some (obj u) ↦
          let counts : Option (Option (ℤ × ℤ)) = elim (read_counts u (or_else s (pos 0, pos 0))) [
            | none ↦ none
            | some p ↦ some (some p)
          ] in
          if truthy (obj u) then counts else some s
      | some v ↦ if truthy v then none else some s
    ]
    usage_step v s = none

    unfoldable pub usage_lines : List String → Option (ℤ × ℤ) → Option (Option (ℤ × ℤ))
    usage_lines [] s = some s
    usage_lines (l ∷ ls) s =
        let skipped = usage_lines ls s in
        elim (event_of_line l) [
          | none ↦ skipped
          | some t ↦
              let read : Option (Option (ℤ × ℤ)) = elim (c.loads t) [
                | none ↦ skipped
                | some v ↦ elim (usage_step v s) [ none ↦ none | some s' ↦ usage_lines ls s' ]
              ] in
              if is_idle t then skipped else read
        ]

module _ (c : Codec) (is_skipped : String → Bool) (text_in : Fields → String → Option String) where
  -- The loop of `extract_assistant_text_sse`, with `text`.
  unfoldable pub text_lines : List String → String → Option String
  text_lines [] text = some text
  text_lines (l ∷ ls) text =
      let skipped = text_lines ls text in
      elim (event_of_line l) [
        | none ↦ skipped
        | some t ↦
            let read : Option String = elim (c.loads t) [
              | none ↦ skipped
              | some (obj d) ↦ elim (text_in d text) [
                | none ↦ none
                | some text' ↦ text_lines ls text'
              ]
              | some v ↦ none
            ] in
            if is_skipped t then skipped else read
      ]
