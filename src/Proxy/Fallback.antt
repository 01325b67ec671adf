-- ===== src/Proxy/Fallback.antt =====
-- src/spillover/proxy/fallback.py: another model, once, where the requested one is refused.
use Prim.Native.String.{◌++◌ as append}
use spillover.Prelude.{ℕ, String, Bool, false, ◌||◌, Option, none, some, str_eq, if◌then◌else◌}
use spillover.Json.{str, obj, end, field, put}
use spillover.Runtime.{Codec}
use spillover.Proxy.Retry.{is_retryable_status}

-- A response of the upstream: its status and its body, a text or the chunks of a stream.
pub record Answer (B : Type 0) : Type 0 where
  pub status_code : ℕ
  pub body : B

unfoldable pub should_fallback : {B : Type 0} → Answer B → String → String → Bool
should_fallback answer fallback_model current_model =
    if str_eq fallback_model ""
    then false
    else if str_eq fallback_model current_model
    then false
    else is_retryable_status answer.status_code

-- `none` is the TypeError of a body that is no dict.
unfoldable pub rewrite_payload_model : Codec → String → String → Option String
rewrite_payload_model c payload new_model = elim (c.loads payload) [
  | none ↦ some payload
  | some (obj d) ↦ some (c.dumps_ascii (obj (put "model" (str new_model) d)))
  | some v ↦ none
]

abbrev pub make_sse_banner : Codec → String → String → String
make_sse_banner c original_model fallback_model = append "event: spillover_fallback\ndata: " (
    append
      (c.dumps_ascii (
        obj (
          field "type" (str "spillover_fallback") (
            field "original_model" (str original_model) (
              field "fallback_model" (str fallback_model)
                (field "reason" (str "upstream rate limit on requested model") end))))))
      "\n\n")

-- `attempt_fallback_unary` and `attempt_fallback_stream`; `post` is what the upstream answers to a
-- body, and `none` an exception. The inner `none` stands for `(None, False)`.
unfoldable pub attempt_fallback :
    {B : Type 0}
    → Codec
    → (String → Option (Answer B))
    → String
    → String
    → String
    → Option (Option (Answer B))
attempt_fallback {B} c post payload current_model fallback_model =
    let attempt : Option (Option (Answer B)) =
      elim (rewrite_payload_model c payload fallback_model) [
        | none ↦ none
        | some body ↦ elim (post body) [ none ↦ none | some answer ↦ some (some answer) ]
      ] in
    if str_eq fallback_model "" || str_eq fallback_model current_model then some none else attempt
