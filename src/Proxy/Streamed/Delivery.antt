-- ===== src/Proxy/Streamed/Delivery.antt =====
-- What the client gets of a stream (`proxy_stream` in src/spillover/proxy/app.py), and where the
-- stream fails at its end.
use Prim.Native.String.{◌++◌ as append}
use spillover.Prelude.{
  ℕ, ◌+◌, String, ◌≡◌, refl, sym, ap, ◌∙◌, subst, Bool, true, false, not, ◌||◌, Option, none, some,
  List, [], ◌∷◌, ◌++◌, ◌⊎◌, inl, inr, arith, keep, ltb, str_eq, Bool-cases, Option-cases, pos,
  eq_iff,
}
use mathlib.Core.List.{append-nil}
use spillover.Runtime.{Codec, Floats, Environ}
use spillover.Adapters.{Adapter}
use spillover.CounterCompact.Events.{has_usage_marker, is_cap_active, rewrite_sse_body}
use spillover.Proxy.Fallback.{Answer}
use spillover.Proxy.Prepare.{Settings, World, Prepared}
use spillover.Proxy.Streamed.{
  stream_rewrite_enabled, split_chunks, Delivered, evict_streamed, last_chunks, finish_stream,
  banner, proxy_stream,
}

-- The chunks one behind the other.
abbrev pub concat_chunks : List String → String
concat_chunks [] = ""
concat_chunks (t ∷ ts) = append t (concat_chunks ts)

abbrev pub sent_at_once : List String → List String
sent_at_once = keep (λ chunk. not (has_usage_marker chunk))

abbrev pub held_back : List String → List String
held_back = keep has_usage_marker

split_chunks-on :
    (chunks : List String)
    → split_chunks true chunks ≡ (sent_at_once chunks, concat_chunks (held_back chunks))
unfolding split_chunks
split_chunks-on [] = refl
split_chunks-on (t ∷ ts) = elim (Bool-cases (has_usage_marker t)) [
  | inl marked ↦ rw (marked, split_chunks, split_chunks-on ts) refl
  | inr plain ↦ rw (plain, split_chunks, split_chunks-on ts) refl
]

split_chunks-off : (chunks : List String) → split_chunks false chunks ≡ (chunks, "")
unfolding split_chunks
split_chunks-off [] = refl
split_chunks-off (t ∷ ts) = rw (split_chunks, split_chunks-off ts) refl

module _ (f : Floats) (c : Codec) where
  -- What comes behind the chunks that went on at once: nothing for an empty buffer, and else one
  -- chunk, the buffer or its rewriting.
  abbrev pub IsLast : Environ → ℕ → String → List String → Type 0
  IsLast env n tail_buffer last =
      ((tail_buffer ≡ "") × (last ≡ []))
      ⊎ ((last ≡ tail_buffer ∷ [])
          ⊎ ((t : String) × ((ltb 0 n || is_cap_active env) ≡ true)
              × (rewrite_sse_body f c env (pos n) tail_buffer ≡ some t)
              × (last ≡ t ∷ [])))

  last_chunks-IsLast :
      (env : Environ) (n : ℕ) (tail_buffer : String) (last : List String)
      → last_chunks f c env n tail_buffer ≡ some last
      → IsLast env n tail_buffer last
  unfolding last_chunks
  last_chunks-IsLast env n tail_buffer last e =
      let changes = ltb 0 n || is_cap_active env in
      elim (Bool-cases (str_eq tail_buffer "")) [
        | inl empty ↦ inl ((eq_iff tail_buffer "").0 empty, ground arith)
        | inr held ↦ elim (Bool-cases (stream_rewrite_enabled env)) [
          | inl on ↦ elim (Bool-cases changes) [
            | inl rewrites ↦ elim (Option-cases (rewrite_sse_body f c env (pos n) tail_buffer)) [
              | inl bad ↦ absurd (ground arith)
              | inr (t, good) ↦
                  let k : some (t ∷ []) ≡ some last =
                    rw (held, on, rewrites, good, last_chunks) at e in
                  inr (inr (t, rewrites, good, ground arith))
            ]
            | inr keeps ↦
                let k : some (tail_buffer ∷ []) ≡ some last =
                  rw (held, on, keeps, last_chunks) at e in
                inr (inl (ground arith))
          ]
          | inr off ↦
              let k : some (tail_buffer ∷ []) ≡ some last = rw (held, off, last_chunks) at e in
              inr (inl (ground arith))
        ]
      ]

module _ (f : Floats) (c : Codec) (settings : Settings f.Float) (adapter : Adapter)
    (is_anthropic : Bool) (p : String) (ids : ℕ → ℕ → String) (clock : ℕ → ℕ) (q : Prepared)
    (upstream : Answer (List String)) (used : Option String) (w : World) where
  abbrev result : World × Delivered
  result = proxy_stream f c settings adapter is_anthropic p ids clock q upstream used w

  abbrev pub sent : List String
  sent = banner c q.payload used ++ sent_at_once upstream.body

  -- What the stream delivers where the usage in it may be rewritten.
  abbrev pub IsDelivered : Delivered → Type 0
  IsDelivered d =
      ((d.failed ≡ true) × (d.chunks ≡ sent))
      ⊎ ((eids : List String) × (n : ℕ) × (freed : ℕ) × (last : List String) × ((evict_streamed f c
              settings adapter is_anthropic p ids clock q upstream.status_code upstream.body w).1
            ≡ some (eids, n))
          × (q.freed ≡ some freed)
          × IsLast f c w.environ (n + freed) (concat_chunks (held_back upstream.body)) last
          × (d.failed ≡ false)
          × (d.chunks ≡ sent ++ last))

  finish_stream_cases :
      (tail_buffer : String)
      → let out =
          finish_stream f c settings adapter is_anthropic p ids clock q upstream.status_code
            upstream.body tail_buffer w in
        (out.1 ≡ none)
        ⊎ ((eids : List String) × (n : ℕ) × (freed : ℕ) × (last : List String) × ((evict_streamed f
                c settings adapter is_anthropic p ids clock q upstream.status_code upstream.body
                w).1
              ≡ some (eids, n))
            × (q.freed ≡ some freed)
            × (last_chunks f c w.environ (n + freed) tail_buffer ≡ some last)
            × (out.1 ≡ some last))
  unfolding finish_stream
  finish_stream_cases tail_buffer =
      elim (Option-cases
        (evict_streamed f c settings adapter is_anthropic p ids clock q upstream.status_code
          upstream.body w).1) [
            | inl fails ↦ inl (rw (fails, finish_stream) refl)
            | inr ((eids, n), good) ↦ elim (Option-cases q.freed) [
              | inl missing ↦ inl (rw (good, missing, finish_stream) refl)
              | inr (freed, known) ↦
                  elim (Option-cases (last_chunks f c w.environ (n + freed) tail_buffer)) [
                    | inl bad ↦ inl (rw (good, known, bad, finish_stream) refl)
                    | inr (last, done) ↦ inr (
                      eids,
                      n,
                      freed,
                      last,
                      good,
                      known,
                      done,
                      rw (good, known, done, finish_stream) refl,
                    )
                  ]
            ]
          ]

  delivered_from : List String × String → Delivered
  delivered_from parts =
      let before = banner c q.payload used ++ parts.0 in
      elim (finish_stream f c settings adapter is_anthropic p ids clock q upstream.status_code
        upstream.body parts.1 w).1 [
          | none ↦ record { chunks = before; failed = true }
          | some last ↦ record { chunks = before ++ last; failed = false }
        ]

  delivered_from_eq :
      result.1 ≡ delivered_from (split_chunks (stream_rewrite_enabled w.environ) upstream.body)
  unfolding proxy_stream delivered_from
  delivered_from_eq =
      let tail_buffer = (split_chunks (stream_rewrite_enabled w.environ) upstream.body).1 in
      elim (finish_stream_cases tail_buffer) [
        | inl fails ↦ rw (fails, proxy_stream, delivered_from) refl
        | inr (eids, n, freed, last, good, known, done, out) ↦
            rw (out, proxy_stream, delivered_from) refl
      ]

  -- Without a number of freed tokens the stream ends by an exception.
  pub proxy_stream_fails : q.freed ≡ none → result.1.failed ≡ true
  unfolding delivered_from
  proxy_stream_fails missing =
      let parts = split_chunks (stream_rewrite_enabled w.environ) upstream.body in
      ap (λ d. d.failed) delivered_from_eq ∙ elim (finish_stream_cases parts.1) [
        | inl fails ↦ rw (fails, delivered_from) refl
        | inr (eids, n, freed, last, good, known, done, out) ↦ absurd (ground arith)
      ]

  -- Every chunk reaches the client. With the rewriting off they do so as they came, behind the
  -- banner of a fallback. With it on, those without the usage marker go on in their order, and those
  -- with it, put together, follow as one last chunk, rewritten or not; they are lost where the
  -- stream ends by an exception.
  pub proxy_stream-IsDelivered :
      (stream_rewrite_enabled w.environ ≡ false
        → result.1.chunks ≡ banner c q.payload used ++ upstream.body)
      × (stream_rewrite_enabled w.environ ≡ true → IsDelivered result.1)
  unfolding delivered_from last_chunks
  proxy_stream-IsDelivered =
      subst
        (λ d.
          (stream_rewrite_enabled w.environ ≡ false
            → d.chunks ≡ banner c q.payload used ++ upstream.body)
          × (stream_rewrite_enabled w.environ ≡ true → IsDelivered d))
        (sym delivered_from_eq)
        (
          λ off.
              let split =
                ap (λ b. split_chunks b upstream.body) off ∙ split_chunks-off upstream.body in
              subst
                (λ parts. (delivered_from parts).chunks ≡ banner c q.payload used ++ upstream.body)
                (sym split)
                (elim (finish_stream_cases "") [
                  | inl fails ↦ rw (fails, delivered_from) refl
                  | inr (eids, n, freed, last, good, known, done, out) ↦
                      let empty : [] ≡ last = ground arith in
                      rw (out, delivered_from)
                        (ap (λ l. (banner c q.payload used ++ upstream.body) ++ l) (sym empty)
                          ∙ append-nil (banner c q.payload used ++ upstream.body))
                ]),
          λ on.
              let held = concat_chunks (held_back upstream.body) in
              let split =
                ap (λ b. split_chunks b upstream.body) on ∙ split_chunks-on upstream.body in
              subst (λ parts. IsDelivered (delivered_from parts)) (sym split)
                (elim (finish_stream_cases held) [
                  | inl fails ↦ inl (rw (fails, delivered_from) (refl, refl))
                  | inr (eids, n, freed, last, good, known, done, out) ↦ inr (
                    eids,
                    n,
                    freed,
                    last,
                    good,
                    known,
                    last_chunks-IsLast f c w.environ (n + freed) held last done,
                    rw (out, delivered_from) refl,
                    rw (out, delivered_from) refl,
                  )
                ]),
        )
