-- ===== src/Proxy/Retry/Stream.antt =====
-- `with_retry_stream` of src/spillover/proxy/retry.py beside `with_retry`.
use spillover.Prelude.{
  ℕ, zero, suc, ◌+◌, ◌<◌, ◌≡◌, refl, sym, ◌∙◌, ap, false, Option, none, some, List, [], ◌∷◌, inl,
  inr, arith, ◌==◌, Bool-cases, length,
}
use spillover.Proxy.Retry.{
  Response, Reply, lost, replied, is_retryable_status, Run, wait, close, retry_from, with_retry,
  stream_from, with_retry_stream,
}
use spillover.Proxy.Retry.Contract.{Reply-cases}

-- The responses among `k` replies, from the attempt `n` on.
abbrev pub answers : {E : Type 0} → (ℕ → Reply E Response) → ℕ → ℕ → List Response
answers send n zero = []
answers send n (suc k) = elim (send n) [
  | replied r ↦ r ∷ answers send (suc n) k
  | _ ↦ answers send (suc n) k
]

module _ {D E : Type 0} (delay_of : ℕ → Option Response → D) (send : ℕ → Reply E Response)
    (ma : ℕ) where
  -- The run of `with_retry`, with the responses closed that were waited after.
  abbrev pub closing : ℕ → Run D E Response → Run D E Response
  closing n run = record run { closed = answers send n (length run.delays) }

  closing-lost :
      (n : ℕ) (e : E)
      → send n ≡ lost e
      → (run : Run D E Response)
      → closing n (wait (delay_of n none) run) ≡ wait (delay_of n none) (closing (suc n) run)
  closing-lost n e sent run = rw sent refl

  closing-replied :
      (n : ℕ) (r : Response)
      → send n ≡ replied r
      → (run : Run D E Response)
      → closing n (wait (delay_of n (some r)) run)
        ≡ close r (wait (delay_of n (some r)) (closing (suc n) run))
  closing-replied n r sent run = rw sent refl

  -- One round, where the rounds behind it agree.
  round-closing :
      (left n : ℕ) (x : Option E) (y : Option Response)
      → ((n == ma) ≡ false
          → (x' : Option E) (y' : Option Response)
          → stream_from delay_of send ma left (suc n)
            ≡ closing (suc n) (retry_from delay_of some send ma left (suc n) x' y'))
      → stream_from delay_of send ma (suc left) n
        ≡ closing n (retry_from delay_of some send ma (suc left) n x y)
  unfolding retry_from stream_from
  round-closing left n x y next = elim (Reply-cases (send n)) [
    | inl (e, sent) ↦ elim (Bool-cases (n == ma)) [
      | inl last ↦ rw (sent, last, retry_from, stream_from) refl
      | inr more ↦
          let one : stream_from delay_of send ma (suc left) n
              ≡ wait (delay_of n none) (stream_from delay_of send ma left (suc n)) =
            rw (sent, more, stream_from) refl in
          let two : retry_from delay_of some send ma (suc left) n x y
              ≡ wait (delay_of n none) (retry_from delay_of some send ma left (suc n) (some e) y) =
            rw (sent, more, retry_from) refl in
          one
          ∙ ap (wait (delay_of n none)) (next more (some e) y)
          ∙ sym (
              ap (closing n) two
              ∙ closing-lost n e sent (retry_from delay_of some send ma left (suc n) (some e) y))
    ]
    | inr (inl (e, sent)) ↦ rw (sent, retry_from, stream_from) refl
    | inr (inr (r, sent)) ↦ elim (Bool-cases (is_retryable_status r.status_code)) [
      | inr fine ↦ rw (sent, fine, retry_from, stream_from) refl
      | inl bad ↦ elim (Bool-cases (n == ma)) [
        | inl last ↦ rw (sent, bad, last, retry_from, stream_from) refl
        | inr more ↦
            let one : stream_from delay_of send ma (suc left) n
                ≡ close r (wait (delay_of n (some r)) (stream_from delay_of send ma left (suc n))) =
              rw (sent, bad, more, stream_from) refl in
            let two : retry_from delay_of some send ma (suc left) n x y
                ≡ wait (delay_of n (some r))
                    (retry_from delay_of some send ma left (suc n) x (some r)) =
              rw (sent, bad, more, retry_from) refl in
            one
            ∙ ap (λ t. close r (wait (delay_of n (some r)) t)) (next more x (some r))
            ∙ sym (
                ap (closing n) two
                ∙ closing-replied n r sent
                    (retry_from delay_of some send ma left (suc n) x (some r)))
      ]
    ]
  ]

  stream_from-closing :
      (left n : ℕ) (x : Option E) (y : Option Response)
      → n + left ≡ ma
      → stream_from delay_of send ma (suc left) n
        ≡ closing n (retry_from delay_of some send ma (suc left) n x y)
  stream_from-closing zero n x y h = round-closing zero n x y (λ more. absurd (ground arith))
  stream_from-closing (suc left) n x y h =
      round-closing (suc left) n x y
        (λ more x' y'. stream_from-closing left (suc n) x' y' (omega arith))

-- With at least one attempt, `with_retry_stream` ends as `with_retry` does on the same replies, with
-- the same waits; and it closes exactly the responses that it waits after, never the one it returns.
pub with_retry_stream-closing :
    {D E : Type 0}
    → (delay_of : ℕ → Option Response → D) (send : ℕ → Reply E Response) (ma : ℕ) → 0 < ma
    → with_retry_stream delay_of send ma
      ≡ closing delay_of send ma 1 (with_retry delay_of some send ma)
with_retry_stream-closing delay_of send zero h = absurd (omega arith)
with_retry_stream-closing delay_of send (suc left) h =
    stream_from-closing delay_of send (suc left) left 1 none none (omega arith)
