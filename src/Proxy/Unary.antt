-- ===== src/Proxy/Unary.antt =====
-- The branch of `_handle_request` in src/spillover/proxy/app.py for responses that are no streams.
pub mod Exchange
pub mod Counted
pub mod Told
pub mod Failures
use spillover.Prelude.{
  ℕ, ◌+◌, String, Bool, true, false, not, ◌&&◌, ◌||◌, Option, none, some, List, [], ◌∷◌, ltb, ◌==◌,
  str_eq, if◌then◌else◌, or_else, ℤ, pos,
}
use spillover.Json.{Json, obj, Fields, end, Payload}
use spillover.Runtime.{Codec, Floats, Environ}
use spillover.Adapters.{Adapter}
use spillover.CounterCompact.Usage.{rewrite_response_json}
use spillover.CounterCompact.Events.{is_cap_active}
use spillover.Proxy.Fallback.{Answer, should_fallback, attempt_fallback}
use spillover.Proxy.Rescue.{enqueue_facets}
use spillover.Proxy.Respond.{maybe_evict}
use spillover.Proxy.Prepare.{Settings, World, Prepared, forwarded_body}

-- The response to the client: its status, its body and the header that names the fallback.
pub record Served : Type 0 where
  pub status_code : ℕ
  pub content : Json
  pub fallback_model : Option String

abbrev pub fallback_model_of : {F : Type 0} → Settings F → Bool → String
fallback_model_of settings is_anthropic =
    if is_anthropic then settings.fallback_model_anthropic else settings.fallback_model_openai

-- The fallback, where one is configured and fits. `none` is an exception, and the text beside the
-- answer the model that was used in place of the requested one.
unfoldable pub with_fallback :
    Codec
    → (String → Option (Answer String))
    → String
    → String
    → String
    → Answer String
    → Option (Answer String × Option String)
with_fallback c post body primary_model fb_model r =
    let attempt : Option (Answer String × Option String) =
      elim (attempt_fallback c post body primary_model fb_model) [
        | none ↦ none
        | some none ↦ some (r, none)
        | some (some a) ↦ if ltb a.status_code 400 then some (a, some fb_model) else some (r, none)
      ] in
    if should_fallback r fb_model primary_model then attempt else some (r, none)

-- `post n` is what the upstream answers to the n-th request, by its body; `none` is an exception.
unfoldable pub exchange :
    Codec
    → (ℕ → String → Option (Answer String))
    → String
    → String
    → String
    → Option (Answer String × Option String)
exchange c post body primary_model fb_model = elim (post 0 body) [
  | none ↦ none
  | some r ↦ with_fallback c (post 1) body primary_model fb_model r
]

abbrev pub response_text_of : Adapter → Json → Option String
response_text_of adapter (obj d) = adapter.response_text d
response_text_of adapter _ = none

-- The body with its usage rewritten, where something is subtracted or a cap is set.
unfoldable pub rewritten : Floats → Codec → Environ → ℕ → String → Option String
rewritten f c env total_subtract body =
    let rewrite : Option String = elim (or_else (c.loads body) (obj end)) [
      | obj d ↦ elim (rewrite_response_json f env (pos total_subtract) d) [
        | none ↦ none
        | some d' ↦ some (c.dumps_ascii (obj d'))
      ]
      | _ ↦ none
    ] in
    if ltb 0 total_subtract || is_cap_active env then rewrite else some body

abbrev pub Answered : Type 0
Answered = World × Option (String × List String)

-- The end: the archived ids are queued, and the body is read once more for the response.
unfoldable pub respond : Codec → String → ℕ → Option String → Answered → World × Option Served
respond c p status_code used answered = elim answered.1 [
  | none ↦ (answered.0, none)
  | some (body, eids) ↦
      let w : World = record answered.0 { queue = enqueue_facets p eids answered.0.queue } in
      elim (c.loads body) [
        | none ↦ (w, none)
        | some content ↦ (
          w,
          some (record { status_code = status_code; content = content; fallback_model = used }),
        )
      ]
]

module _ (f : Floats) (c : Codec) (settings : Settings f.Float) (adapter : Adapter)
    (is_anthropic : Bool) (p : String) (ids : ℕ → ℕ → String) (clock : ℕ → ℕ) where
  -- With the usage known: the eviction, and the sum that fails where `pre_forward_tokens_freed` has
  -- no value.
  unfoldable pub evict_and_rewrite : Prepared → String → ℤ → ℤ → String → World → Answered
  evict_and_rewrite q body input_tokens output_tokens text w =
      let evicted =
        maybe_evict c (ids 2) p (clock 4) f settings.operational_ceiling settings.watermark
          adapter.parse q.payload (some text) input_tokens output_tokens w.db in
      let w' : World = record w { db = evicted.0 } in
      elim evicted.1 [
        | none ↦ (w', none)
        | some (eids, tokens_archived) ↦ elim q.freed [
          | none ↦ (w', none)
          | some freed ↦ elim (rewritten f c w.environ (tokens_archived + freed) body) [
            | none ↦ (w', none)
            | some body' ↦ (w', some (body', eids))
          ]
        ]
      ]

  -- What a response of status 200 brings about: its body for the client and the archived ids.
  unfoldable pub after_response : Prepared → String → World → Answered
  after_response q body w = elim (adapter.usage_of_body body) [
    | none ↦ (w, none)
    | some none ↦ (w, some (body, []))
    | some (some (i, o)) ↦ elim (response_text_of adapter (or_else (c.loads body) (obj end))) [
      | none ↦ (w, none)
      | some text ↦ evict_and_rewrite q body i o text w
    ]
  ]

  unfoldable pub serve_unary :
      (ℕ → String → Option (Answer String)) → Prepared → World → World × Option Served
  serve_unary post q w =
      let primary_model = or_else q.payload.model "" in
      elim (exchange c post (forwarded_body c q.payload) primary_model
        (fallback_model_of settings is_anthropic)) [
          | none ↦ (w, none)
          | some (r, used) ↦
              let answered = after_response q r.body w in
              respond c p r.status_code used
                (if r.status_code == 200 then answered else (w, some (r.body, [])))
        ]
