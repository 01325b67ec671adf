-- ===== src/Proxy/Unary/Failures.antt =====
-- What `_handle_request` of src/spillover/proxy/app.py makes of an answer that is no stream, by its
-- status and its usage.
use spillover.Prelude.{
  ℕ, String, ◌≡◌, refl, Bool, true, false, Option, none, some, List, [], ◌==◌, or_else, ℤ, arith,
  Bool-cases, Option-cases, inl, inr, ◌⊎◌, subst, sym,
}
use spillover.Json.{Json, obj, end}
use spillover.Runtime.{Codec, Floats}
use spillover.Adapters.{Adapter}
use spillover.Proxy.Fallback.{Answer}
use spillover.Proxy.Respond.{maybe_evict}
use spillover.Proxy.Rescue.{enqueue_facets}
use spillover.Proxy.Prepare.{Settings, World, Prepared, forwarded_body}
use spillover.Proxy.Unary.{
  Served, fallback_model_of, exchange, response_text_of, evict_and_rewrite, after_response, respond,
  serve_unary,
}

module _ (f : Floats) (c : Codec) (settings : Settings f.Float) (adapter : Adapter)
    (is_anthropic : Bool) (p : String) (ids : ℕ → ℕ → String) (clock : ℕ → ℕ)
    (post : ℕ → String → Option (Answer String)) (q : Prepared) (w : World) where
  abbrev exchanged : Option (Answer String × Option String)
  exchanged =
      exchange c post (forwarded_body c q.payload) (or_else q.payload.model "")
        (fallback_model_of settings is_anthropic)

  abbrev result : World × Option Served
  result = serve_unary f c settings adapter is_anthropic p ids clock post q w

  evict_and_rewrite-fails :
      (body : String) (i o : ℤ) (text : String)
      → q.freed ≡ none
      → (evict_and_rewrite f c settings adapter is_anthropic p ids clock q body i o text w).1 ≡ none
  unfolding evict_and_rewrite
  evict_and_rewrite-fails body i o text missing =
      elim (Option-cases
        (maybe_evict c (ids 2) p (clock 4) f settings.operational_ceiling settings.watermark
          adapter.parse q.payload (some text) i o w.db).1) [
            | inl bad ↦ rw (bad, evict_and_rewrite) refl
            | inr ((eids, n), good) ↦ rw (good, missing, evict_and_rewrite) refl
          ]

  after_response-fails :
      (body : String) (i o : ℤ)
      → q.freed ≡ none
      → adapter.usage_of_body body ≡ some (some (i, o))
      → (after_response f c settings adapter is_anthropic p ids clock q body w).1 ≡ none
  unfolding after_response
  after_response-fails body i o missing counted =
      elim (Option-cases (response_text_of adapter (or_else (c.loads body) (obj end)))) [
        | inl bad ↦ rw (counted, bad, after_response) refl
        | inr (text, good) ↦
            rw (counted, good, after_response) (evict_and_rewrite-fails body i o text missing)
      ]

  respond-fails :
      (status_code : ℕ) (used : Option String) (answered : World × Option (String × List String))
      → answered.1 ≡ none
      → (respond c p status_code used answered).1 ≡ none
  unfolding respond
  respond-fails status_code used answered e = rw (e, respond) refl

  -- Where nothing says what the trimming freed, as in passive mode, an answer of status 200 that
  -- reports its usage never reaches the client: the request ends by an exception.
  pub serve_unary-fails :
      (r : Answer String) (used : Option String) (i o : ℤ)
      → exchanged ≡ some (r, used)
      → (r.status_code == 200) ≡ true
      → q.freed ≡ none
      → adapter.usage_of_body r.body ≡ some (some (i, o))
      → result.1 ≡ none
  unfolding serve_unary
  serve_unary-fails r used i o answered ok missing counted =
      rw (answered, ok, serve_unary)
        (respond-fails r.status_code used
          (after_response f c settings adapter is_anthropic p ids clock q r.body w)
          (after_response-fails r.body i o missing counted))

  -- What the client gets of a body that goes on as it is.
  abbrev pub AsItIs : Answer String → Option String → World × Option Served → Type 0
  AsItIs r used out =
      (out.0 ≡ w)
      × (c.loads r.body ≡ none → out.1 ≡ none)
      × ((content : Json)
          → c.loads r.body ≡ some content
          → out.1
            ≡ some
                (record { status_code = r.status_code; content = content; fallback_model = used }))

  respond-AsItIs :
      (r : Answer String) (used : Option String)
      → AsItIs r used (respond c p r.status_code used (w, some (r.body, [])))
  unfolding respond enqueue_facets
  respond-AsItIs r used = elim (Option-cases (c.loads r.body)) [
    | inl bad ↦ (rw (bad, respond) refl, λ e. rw (bad, respond) refl, λ v e. absurd (ground arith))
    | inr (v, good) ↦
        (rw (good, respond) refl, λ e. absurd (ground arith), λ v' e. rw (e, respond) refl)
  ]

  -- An answer of another status, or one without usage, changes nothing and reaches the client with
  -- its status where its body is JSON; where it is not, the request ends by an exception.
  pub serve_unary-AsItIs :
      (r : Answer String) (used : Option String)
      → exchanged ≡ some (r, used)
      → ((r.status_code == 200) ≡ false) ⊎ (adapter.usage_of_body r.body ≡ some none)
      → AsItIs r used result
  unfolding serve_unary after_response
  serve_unary-AsItIs r used answered quiet =
      let step : result ≡ respond c p r.status_code used (w, some (r.body, [])) =
        elim (Bool-cases (r.status_code == 200)) [
          | inr other ↦ rw (answered, other, serve_unary) refl
          | inl ok ↦ elim quiet [
            | inl other ↦ absurd (ground arith)
            | inr uncounted ↦ rw (answered, ok, uncounted, serve_unary, after_response) refl
          ]
        ] in
      subst (AsItIs r used) (sym step) (respond-AsItIs r used)
