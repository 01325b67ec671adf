-- ===== src/Proxy/Unary/Exchange.antt =====
-- When the fallback of src/spillover/proxy/fallback.py stands in for the requested model.
use spillover.Prelude.{
  ℕ, ◌<◌, String, ◌≡◌, true, false, Option, none, some, ◌⊎◌, inl, inr, arith, ltb, str_eq,
  Bool-cases, Option-cases, ltb→lt, ap, subst, ◌∙◌,
}
use spillover.Runtime.{Codec}
use spillover.Proxy.Retry.{is_retryable_status}
use spillover.Proxy.Fallback.{Answer, should_fallback, rewrite_payload_model, attempt_fallback}
use spillover.Proxy.Unary.{with_fallback, exchange}

module _ (c : Codec) (post : ℕ → String → Option (Answer String))
    (body primary_model fb_model : String) where
  -- A status that asks for another model, and another model that is configured.
  abbrev pub IsWanted : Answer String → Type 0
  IsWanted first =
      (is_retryable_status first.status_code ≡ true)
      × (str_eq fb_model "" ≡ false)
      × (str_eq fb_model primary_model ≡ false)

  -- The first answer, or the fallback's to the same request under its model.
  abbrev pub IsExchanged : Answer String → Answer String → Option String → Type 0
  IsExchanged first r used =
      ((r ≡ first) × (used ≡ none))
      ⊎ (IsWanted first
          × ((body' : String) × (rewrite_payload_model c body fb_model ≡ some body')
              × (post 1 body' ≡ some r))
          × (r.status_code < 400)
          × (used ≡ some fb_model))

  should_fallback-IsWanted :
      (first : Answer String) → should_fallback first fb_model primary_model ≡ true → IsWanted first
  unfolding should_fallback
  should_fallback-IsWanted first e = elim (Bool-cases (str_eq fb_model "")) [
    | inl empty ↦ absurd (ground arith)
    | inr full ↦ elim (Bool-cases (str_eq fb_model primary_model)) [
      | inl same ↦ absurd (ground arith)
      | inr other ↦ (ground arith, full, other)
    ]
  ]

  attempt_fallback-posts :
      (first r : Answer String)
      → IsWanted first
      → attempt_fallback c (post 1) body primary_model fb_model ≡ some (some r)
      → (body' : String) × (rewrite_payload_model c body fb_model ≡ some body')
        × (post 1 body' ≡ some r)
  unfolding attempt_fallback
  attempt_fallback-posts first r (hot, full, other) e =
      elim (Option-cases (rewrite_payload_model c body fb_model)) [
        | inl bad ↦ absurd (ground arith)
        | inr (body', good) ↦ elim (Option-cases (post 1 body')) [
          | inl bad ↦ absurd (ground arith)
          | inr (a, answered) ↦
              let k : some (some a) ≡ some (some r) =
                rw (full, other, good, answered, attempt_fallback) at e in
              (body', good, ground arith)
        ]
      ]

  abbrev answered_by : Answer String → Option String → Option (Answer String × Option String)
  answered_by r used = some (r, used)

  first_answer :
      (first r : Answer String) (used : Option String)
      → answered_by first none ≡ answered_by r used
      → IsExchanged first r used
  first_answer first r used k = inl (ground arith, ground arith)

  -- What the client is answered is the upstream's first answer, without the header; or the first
  -- status was a retryable one, a fallback other than the requested model is configured, and the
  -- answer is the one to the same request under the fallback's name, of a status below 400, with the
  -- fallback in the header.
  pub exchange-IsExchanged :
      (first r : Answer String) (used : Option String)
      → post 0 body ≡ some first
      → exchange c post body primary_model fb_model ≡ some (r, used)
      → IsExchanged first r used
  unfolding exchange with_fallback
  exchange-IsExchanged first r used sent e =
      let attempted = attempt_fallback c (post 1) body primary_model fb_model in
      elim (Bool-cases (should_fallback first fb_model primary_model)) [
        | inr calm ↦ first_answer first r used (rw (sent, calm, exchange, with_fallback) at e)
        | inl hot ↦ elim (Option-cases attempted) [
          | inl bad ↦ absurd (
              let k : none ≡ answered_by r used =
                rw (sent, hot, bad, exchange, with_fallback) at e in
              ground arith)
          | inr (none, tried) ↦
              first_answer first r used (rw (sent, hot, tried, exchange, with_fallback) at e)
          | inr (some a, tried) ↦ elim (Bool-cases (ltb a.status_code 400)) [
            | inr refused ↦
                first_answer first r used
                  (rw (sent, hot, tried, refused, exchange, with_fallback) at e)
            | inl good ↦
                let k : answered_by a (some fb_model) ≡ answered_by r used =
                  rw (sent, hot, tried, good, exchange, with_fallback) at e in
                let same : a ≡ r = ground arith in
                let wanted = should_fallback-IsWanted first hot in
                inr (
                  wanted,
                  attempt_fallback-posts first r wanted (tried ∙ ap (λ x. some (some x)) same),
                  subst (λ x. x.status_code < 400) same (ltb→lt a.status_code 400 good),
                  ground arith,
                )
          ]
        ]
      ]
