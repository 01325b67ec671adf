-- ===== src/Proxy/Streamed.antt =====
-- The branch of `_handle_request` in src/spillover/proxy/app.py for streams, with `proxy_stream`. A
-- stream that breaks off is not modelled: the chunks are all that the upstream sends.
pub mod Delivery
use Prim.Native.String.{◌++◌ as append}
use spillover.Prelude.{
  ℕ, ◌+◌, String, Bool, true, false, not, ◌&&◌, ◌||◌, Option, none, some, List, [], ◌∷◌, ◌++◌, ltb,
  ◌==◌, str_eq, if◌then◌else◌, or_else, pos,
}
use spillover.Json.{Payload}
use spillover.Runtime.{Codec, Floats, Environ}
use spillover.Adapters.{Adapter}
use spillover.CounterCompact.Events.{has_usage_marker, is_cap_active, rewrite_sse_body}
use spillover.Proxy.Fallback.{Answer, should_fallback, attempt_fallback, make_sse_banner}
use spillover.Proxy.Rescue.{enqueue_facets}
use spillover.Proxy.Respond.{Outcome, maybe_evict}
use spillover.Proxy.Prepare.{Settings, World, Prepared, forwarded_body}
use spillover.Proxy.Unary.{fallback_model_of}

-- `_stream_rewrite_enabled`
abbrev pub stream_rewrite_enabled : Environ → Bool
stream_rewrite_enabled env = not (str_eq (or_else (env "SPILLOVER_STREAM_REWRITE") "1") "0")

abbrev pub Opened : Type 0
Opened = Answer (List String) × Option String

-- The fallback of a stream: where it fails, the request is sent once more as it was.
unfoldable pub open_fallback :
    Codec → (ℕ → String → Option (Answer (List String))) → String → String → String → Option Opened
open_fallback c send body primary_model fb_model =
    let again : Option Opened = elim (send 2 body) [ none ↦ none | some r ↦ some (r, none) ] in
    elim (attempt_fallback c (send 1) body primary_model fb_model) [
      | none ↦ none
      | some none ↦ again
      | some (some a) ↦ if ltb a.status_code 400 then some (a, some fb_model) else again
    ]

unfoldable pub open_stream :
    Codec → (ℕ → String → Option (Answer (List String))) → String → String → String → Option Opened
open_stream c send body primary_model fb_model = elim (send 0 body) [
  | none ↦ none
  | some r ↦
      let fallback = open_fallback c send body primary_model fb_model in
      if should_fallback r fb_model primary_model then fallback else some (r, none)
]

-- The loop over the chunks: those that go on at once, and `tail_buffer`.
unfoldable pub split_chunks : Bool → List String → List String × String
split_chunks rewrite_enabled [] = ([], "")
split_chunks rewrite_enabled (chunk ∷ chunks) =
    let rest = split_chunks rewrite_enabled chunks in
    if rewrite_enabled && has_usage_marker chunk
    then (rest.0, append chunk rest.1)
    else (chunk ∷ rest.0, rest.1)

-- What the client gets of a stream, and whether it ends by an exception.
pub record Delivered : Type 0 where
  pub chunks : List String
  pub failed : Bool

-- The status and the header of the response, with the stream.
pub record StreamServed : Type 0 where
  pub status_code : ℕ
  pub fallback_model : Option String
  pub stream : Delivered

-- The last chunk: the buffered ones, rewritten where there is something to rewrite.
unfoldable pub last_chunks : Floats → Codec → Environ → ℕ → String → Option (List String)
last_chunks f c env total_subtract tail_buffer =
    let rewrite : Option (List String) =
      elim (rewrite_sse_body f c env (pos total_subtract) tail_buffer) [
        | none ↦ none
        | some body ↦ some (body ∷ [])
      ] in
    if str_eq tail_buffer ""
    then some []
    else if stream_rewrite_enabled env && (ltb 0 total_subtract || is_cap_active env)
    then rewrite
    else some (tail_buffer ∷ [])

abbrev pub banner : Codec → Payload → Option String → List String
banner c payload none = []
banner c payload (some used) = make_sse_banner c (or_else payload.model "") used ∷ []

module _ (f : Floats) (c : Codec) (settings : Settings f.Float) (adapter : Adapter)
    (is_anthropic : Bool) (p : String) (ids : ℕ → ℕ → String) (clock : ℕ → ℕ) where
  -- The eviction behind the stream: nothing for a status other than 200 or a stream without usage.
  unfoldable pub evict_streamed : Prepared → ℕ → List String → World → Outcome
  evict_streamed q status_code sink w =
      let counted : Outcome = elim (adapter.usage_of_stream sink) [
        | none ↦ (w.db, none)
        | some none ↦ (w.db, some ([], 0))
        | some (some (i, o)) ↦ elim (adapter.stream_text sink) [
          | none ↦ (w.db, none)
          | some text ↦
              maybe_evict c (ids 2) p (clock 4) f settings.operational_ceiling settings.watermark
                adapter.parse q.payload (some text) i o w.db
        ]
      ] in
      if status_code == 200 then counted else (w.db, some ([], 0))

  -- The `finally` block: the chunks that it yields, or `none` for an exception, also that of
  -- `pre_forward_tokens_freed` without a value.
  unfoldable pub finish_stream :
      Prepared → ℕ → List String → String → World → World × Option (List String)
  finish_stream q status_code sink tail_buffer w =
      let evicted = evict_streamed q status_code sink w in
      let w' : World = record w { db = evicted.0 } in
      elim evicted.1 [
        | none ↦ (w', none)
        | some (eids, tokens_archived) ↦ elim q.freed [
          | none ↦ (w', none)
          | some freed ↦ elim (last_chunks f c w.environ (tokens_archived + freed) tail_buffer) [
            | none ↦ (w', none)
            | some last ↦ (record w' { queue = enqueue_facets p eids w'.queue }, some last)
          ]
        ]
      ]

  unfoldable pub proxy_stream :
      Prepared → Answer (List String) → Option String → World → World × Delivered
  proxy_stream q upstream used w =
      let parts = split_chunks (stream_rewrite_enabled w.environ) upstream.body in
      let sent = banner c q.payload used ++ parts.0 in
      let finished = finish_stream q upstream.status_code upstream.body parts.1 w in
      elim finished.1 [
        | none ↦ (finished.0, record { chunks = sent; failed = true })
        | some last ↦ (finished.0, record { chunks = sent ++ last; failed = false })
      ]

  unfoldable pub serve_stream :
      (ℕ → String → Option (Answer (List String))) → Prepared → World → World × Option StreamServed
  serve_stream send q w =
      let primary_model = or_else q.payload.model "" in
      elim (open_stream c send (forwarded_body c q.payload) primary_model
        (fallback_model_of settings is_anthropic)) [
          | none ↦ (w, none)
          | some (r, used) ↦
              let delivered = proxy_stream q r used w in
              (
                delivered.0,
                some (record {
                  status_code = r.status_code;
                  fallback_model = used;
                  stream = delivered.1;
                }),
              )
        ]
