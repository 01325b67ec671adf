-- ===== src/Proxy/Handler/Modes.antt =====
-- The two modes of `_handle_request` in src/spillover/proxy/app.py, and the answers of its own.
use spillover.Prelude.{
  ℕ, String, ◌≡◌, refl, sym, ap, ◌∙◌, Bool, true, false, Option, none, some, List, ◌++◌, ◌==◌, inl,
  inr, or_else, ℤ, arith, Bool-cases, if◌then◌else◌,
}
use spillover.Json.{Payload}
use spillover.Runtime.{Codec, Floats}
use spillover.Adapters.{Adapter}
use spillover.Proxy.Fallback.{Answer}
use spillover.Proxy.Retrieve.{Searches}
use spillover.Proxy.Prepare.{
  Settings, World, Prepared, is_passive, is_stream, forwarded_body, prepare_passive,
}
use spillover.Proxy.Unary.{Served, fallback_model_of, exchange}
use spillover.Proxy.Unary.Failures.{serve_unary-fails}
use spillover.Proxy.Streamed.{
  stream_rewrite_enabled, open_stream, banner, Delivered, proxy_stream, serve_stream,
}
use spillover.Proxy.Streamed.Delivery.{proxy_stream-IsDelivered, proxy_stream_fails, sent_at_once}
use spillover.Proxy.Handler.{
  Ending, streamed, crashed, Upstream, intercepts, prepare, replied_with, forward, forward_prepared,
  handle,
}

replied_with-none : (x : World × Option Served) → x.1 ≡ none → (replied_with x).1 ≡ crashed
replied_with-none (w, none) e = refl
replied_with-none (w, some s) e = absurd (ground arith)

same_stream :
    (d : Delivered) (chunks : List String) (failed : Bool)
    → d.chunks ≡ chunks
    → d.failed ≡ failed
    → d ≡ record { chunks = chunks; failed = failed }
same_stream d chunks failed e k = rw (sym e, sym k) refl

module _ (f : Floats) (c : Codec) (settings : Settings f.Float) (adapter : Adapter)
    (is_anthropic : Bool) (p : String) (ids : ℕ → ℕ → String) (clock : ℕ → ℕ)
    (runtime : List String) (searches : Searches f.Float) (upstream : Upstream) (payload : Payload)
    (w : World) where
  abbrev result : World × Ending
  result = handle f c settings adapter is_anthropic p ids clock runtime searches upstream payload w

  abbrev as_it_came : Prepared
  as_it_came = record { payload = payload; freed = none }

  abbrev seen : World
  seen = (prepare_passive c is_anthropic p clock payload w).0

  handle_forwards :
      is_passive w.environ ≡ true
      → result ≡ forward f c settings adapter is_anthropic p ids clock upstream as_it_came seen
  unfolding handle prepare intercepts prepare_passive
  handle_forwards passive =
      let passes : intercepts c is_anthropic payload w.environ ≡ some false =
        rw (passive, intercepts) refl in
      let prepared : prepare f c settings adapter is_anthropic p ids clock runtime searches payload
            w
          ≡ prepare_passive c is_anthropic p clock payload w =
        rw (passive, prepare) refl in
      let step : result
          ≡ forward_prepared f c settings adapter is_anthropic p ids clock upstream
              (prepare f c settings adapter is_anthropic p ids clock runtime searches payload w) =
        rw (passes, handle) refl in
      step ∙ ap (forward_prepared f c settings adapter is_anthropic p ids clock upstream) prepared

  seen-environ : seen.environ ≡ w.environ
  unfolding prepare_passive
  seen-environ = elim (Bool-cases is_anthropic) [
    | inl messages ↦ rw (messages, prepare_passive) refl
    | inr chat ↦ rw (chat, prepare_passive) refl
  ]

  abbrev pub AnswersWith : Answer String → Option String → Type 0
  AnswersWith r used =
      exchange c upstream.post (forwarded_body c payload) (or_else payload.model "")
        (fallback_model_of settings is_anthropic)
      ≡ some (r, used)

  abbrev pub OpensWith : Answer (List String) → Option String → Type 0
  OpensWith r used =
      open_stream c upstream.send (forwarded_body c payload) (or_else payload.model "")
        (fallback_model_of settings is_anthropic)
      ≡ some (r, used)

  -- In passive mode, where the request goes out as it came, a request without streaming crashes if
  -- the answer has status 200 and reports its usage.
  pub handle-passive_crashed :
      (r : Answer String) (used : Option String) (i o : ℤ)
      → is_passive w.environ ≡ true
      → is_stream payload ≡ false
      → AnswersWith r used
      → (r.status_code == 200) ≡ true
      → adapter.usage_of_body r.body ≡ some (some (i, o))
      → result.1 ≡ crashed
  unfolding forward
  handle-passive_crashed r used i o passive unary answers ok counted =
      let fails =
        serve_unary-fails f c settings adapter is_anthropic p ids clock upstream.post as_it_came
          seen r used i o answers ok refl counted in
      ap (λ x. x.1) (handle_forwards passive) ∙ rw (unary, forward) (replied_with-none _ fails)

  -- In passive mode every stream that the upstream opens ends by an exception. What the client has
  -- got by then is the banner and, with the rewriting off, all the chunks; with it on, those without
  -- the usage marker: the others are lost.
  pub handle-passive_failed :
      (r : Answer (List String)) (used : Option String)
      → is_passive w.environ ≡ true
      → is_stream payload ≡ true
      → OpensWith r used
      → result.1
        ≡ streamed (record {
          status_code = r.status_code;
          fallback_model = used;
          stream = record {
            chunks =
                banner c payload used
                ++ (if stream_rewrite_enabled w.environ then sent_at_once r.body else r.body);
            failed = true;
          };
        })
  unfolding forward serve_stream
  handle-passive_failed r used passive streams opens =
      let sub = proxy_stream f c settings adapter is_anthropic p ids clock as_it_came r used seen in
      let chunks =
        banner c payload used
        ++ (if stream_rewrite_enabled w.environ then sent_at_once r.body else r.body) in
      let delivered =
        proxy_stream-IsDelivered f c settings adapter is_anthropic p ids clock as_it_came r used
          seen in
      let arrived : sub.1.chunks ≡ chunks = elim (Bool-cases (stream_rewrite_enabled w.environ)) [
        | inr off ↦ rw off (delivered.0 (ap stream_rewrite_enabled seen-environ ∙ off))
        | inl on ↦ elim (delivered.1 (ap stream_rewrite_enabled seen-environ ∙ on)) [
          | inl (failed, sent) ↦ rw on sent
          | inr (eids, n, freed, last, evicted, known, rest, alive, sent) ↦ absurd (ground arith)
        ]
      ] in
      let failed =
        proxy_stream_fails f c settings adapter is_anthropic p ids clock as_it_came r used seen
          refl in
      ap (λ x. x.1) (handle_forwards passive)
      ∙ rw (streams, opens, forward, serve_stream)
          (ap
            (λ d.
              streamed (record { status_code = r.status_code; fallback_model = used; stream = d }))
            (same_stream sub.1 chunks true arrived failed))
