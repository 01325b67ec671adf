-- ===== src/Proxy/Retry/Contract.antt =====
-- What the retries of src/spillover/proxy/retry.py amount to.
use spillover.Prelude.{
  ℕ, zero, suc, ◌+◌, ◌-◌, ◌≤◌, ◌<◌, ◌≡◌, refl, ◌∙◌, ap, Bool, true, false, Option, none, some, List,
  [], ◌∷◌, ◌⊎◌, inl, inr, arith, ◌==◌, Bool-cases, Option-cases,
}
use spillover.Proxy.Retry.{
  Response, Reply, lost, failed, replied, Outcome, raises, returns, is_retryable_status, Run, halt,
  wait, retry_from, with_retry,
}

pub Reply-cases :
    {E A : Type 0}
    → (r : Reply E A)
    → ((e : E) × (r ≡ lost e)) ⊎ ((e : E) × (r ≡ failed e)) ⊎ ((a : A) × (r ≡ replied a))
Reply-cases (lost e) = inl (e, refl)
Reply-cases (failed e) = inr (inl (e, refl))
Reply-cases (replied a) = inr (inr (a, refl))

-- The outcome of a call that is the last.
abbrev pub ends : {E A : Type 0} → Reply E A → Outcome E A
ends (lost e) = raises e
ends (failed e) = raises e
ends (replied a) = returns a

-- Whether a reply is one to try again after: a lost connection or a response with such a status.
abbrev pub is_transient : {E A : Type 0} → (A → Option Response) → Reply E A → Bool
is_transient as_response (lost e) = true
is_transient as_response (failed e) = false
is_transient as_response (replied a) = elim (as_response a) [
  | none ↦ false
  | some r ↦ is_retryable_status r.status_code
]

module _ {D E A : Type 0} (delay_of : ℕ → Option Response → D)
    (as_response : A → Option Response) where
  -- The wait behind a reply.
  abbrev pub delay_after : ℕ → Reply E A → D
  delay_after n (lost e) = delay_of n none
  delay_after n (failed e) = delay_of n none
  delay_after n (replied a) = delay_of n (as_response a)

  -- The waits behind `k` replies, from the attempt `n` on.
  abbrev pub delays_from : (ℕ → Reply E A) → ℕ → ℕ → List D
  delays_from fn n zero = []
  delays_from fn n (suc k) = delay_after n (fn n) ∷ delays_from fn (suc n) k

module _ {D E A : Type 0} (delay_of : ℕ → Option Response → D) (as_response : A → Option Response)
    (fn : ℕ → Reply E A) (ma : ℕ) where
  -- One round of the loop.
  data Round (left n : ℕ) (x : Option E) (y : Option A) : Type 0 where
    over :
        retry_from delay_of as_response fn ma (suc left) n x y ≡ halt (ends (fn n))
        → (is_transient as_response (fn n) ≡ true → n ≡ ma)
        → Round left n x y
    again :
        (x' : Option E) (y' : Option A)
        → retry_from delay_of as_response fn ma (suc left) n x y
          ≡ wait
              (delay_after delay_of as_response n (fn n))
              (retry_from delay_of as_response fn ma left (suc n) x' y')
        → is_transient as_response (fn n) ≡ true
        → (n == ma) ≡ false
        → Round left n x y

  round : (left n : ℕ) (x : Option E) (y : Option A) → Round left n x y
  unfolding retry_from
  round left n x y = elim (Reply-cases (fn n)) [
    | inl (e, h) ↦ elim (Bool-cases (n == ma)) [
      | inl last ↦ over (rw (h, last, retry_from)) (λ k. ground arith)
      | inr more ↦ again (some e) y (rw (h, more, retry_from)) (rw h) more
    ]
    | inr (inl (e, h)) ↦ over (rw (h, retry_from)) (λ k. ground arith)
    | inr (inr (a, h)) ↦ elim (Option-cases (as_response a)) [
      | inl other ↦ over (rw (h, other, retry_from)) (λ k. ground arith)
      | inr (r, resp) ↦ elim (Bool-cases (is_retryable_status r.status_code)) [
        | inr fine ↦ over (rw (h, resp, fine, retry_from)) (λ k. ground arith)
        | inl bad ↦ elim (Bool-cases (n == ma)) [
          | inl last ↦ over (rw (h, resp, bad, last, retry_from)) (λ k. ground arith)
          | inr more ↦ again x (some a) (rw (h, resp, bad, more, retry_from)) (ground arith) more
        ]
      ]
    ]
  ]

  -- Where the loop settles, from the attempt `n` on.
  abbrev pub SettlesAt : Run D E A → ℕ → ℕ → Type 0
  SettlesAt run n last =
      (n ≤ last)
      × (last ≤ ma)
      × ((j : ℕ) → n ≤ j → j < last → is_transient as_response (fn j) ≡ true)
      × (is_transient as_response (fn last) ≡ true → last ≡ ma)
      × (run ≡ record {
        outcome = ends (fn last);
        delays = delays_from delay_of as_response fn n (last - n);
        closed = [];
      })

  over-SettlesAt :
      (run : Run D E A) (n : ℕ)
      → n ≤ ma
      → run ≡ halt (ends (fn n))
      → (is_transient as_response (fn n) ≡ true → n ≡ ma)
      → SettlesAt run n n
  over-SettlesAt run n h e last = (
    omega arith,
    h,
    λ j a b. absurd (omega arith),
    last,
    e
        ∙ ap
            (λ k. record {
              outcome = ends (fn n);
              delays = delays_from delay_of as_response fn n k;
              closed = [];
            })
            (let z : 0 ≡ n - n = omega arith in z),
  )

  again-SettlesAt :
      (run rest : Run D E A) (n last : ℕ)
      → run ≡ wait (delay_after delay_of as_response n (fn n)) rest
      → is_transient as_response (fn n) ≡ true
      → SettlesAt rest (suc n) last
      → SettlesAt run n last
  again-SettlesAt run rest n last e transient (lo, hi, before, at_last, e') = (
    omega arith,
    hi,
    λ j a b. elim (Bool-cases (j == n)) [
      | inl here ↦ let j_is_n : j ≡ n = ground arith in rw j_is_n transient
      | inr past ↦ before j (ground arith) b
    ],
    at_last,
    e
        ∙ ap (wait (delay_after delay_of as_response n (fn n))) e'
        ∙ ap
            (λ k. record {
              outcome = ends (fn last);
              delays = delays_from delay_of as_response fn n k;
              closed = [];
            })
            (let z : suc (last - suc n) ≡ last - n = omega arith in z),
  )

  retry_from-SettlesAt :
      (left n : ℕ) (x : Option E) (y : Option A)
      → n + left ≡ ma
      → (last : ℕ) × SettlesAt (retry_from delay_of as_response fn ma (suc left) n x y) n last
  retry_from-SettlesAt zero n x y h = elim (round zero n x y) [
    | over e last ↦ (n, over-SettlesAt _ n (omega arith) e last)
    | again x' y' e transient more ↦ absurd (ground arith)
  ]
  retry_from-SettlesAt (suc left) n x y h = elim (round (suc left) n x y) [
    | over e last ↦ (n, over-SettlesAt _ n (omega arith) e last)
    | again x' y' e transient more ↦
        let (last, rest) = retry_from-SettlesAt left (suc n) x' y' (omega arith) in
        (last, again-SettlesAt _ _ n last e transient rest)
  ]

-- With at least one attempt, `with_retry` ends by itself at some attempt up to the last: all the
-- attempts before it were transient failures, each followed by its wait and by nothing else, that
-- attempt was not or was the last, and its reply is the outcome: returned or raised as it came.
pub with_retry-SettlesAt :
    {D E A : Type 0}
    → (delay_of : ℕ → Option Response → D) (as_response : A → Option Response) (fn : ℕ → Reply E A)
      (ma : ℕ)
    → 0 < ma
    → (last : ℕ) × SettlesAt delay_of as_response fn ma
        (with_retry delay_of as_response fn ma)
        1
        last
with_retry-SettlesAt delay_of as_response fn zero h = absurd (omega arith)
with_retry-SettlesAt delay_of as_response fn (suc left) h =
    retry_from-SettlesAt delay_of as_response fn (suc left) left 1 none none (omega arith)
