-- ===== src/Tests/Retry.antt =====
-- Retries (src/spillover/proxy/retry.py): a lost connection, a busy server, then an answer.
use spillover.Prelude.{ℕ, zero, suc, ◌≡◌, refl, Option, none, some, String, [], ◌∷◌, arith}
use spillover.Proxy.Retry.{
  Response, Reply, lost, replied, returns, retry_from, is_retryable_status, with_retry,
  with_retry_stream,
}
use spillover.Proxy.Retry.Contract.{SettlesAt, with_retry-SettlesAt}
use spillover.Proxy.Retry.Stream.{closing, with_retry_stream-closing}

abbrev response : ℕ → Response
response n = record { status_code = n; headers = λ k. none }

abbrev send : ℕ → Reply String Response
send zero = replied (response 200)
send (suc zero) = lost "reset"
send (suc (suc zero)) = replied (response 503)
send (suc (suc (suc n))) = replied (response 200)

-- The delays of the example are the attempts themselves.
abbrev delay_of : ℕ → Option Response → ℕ
delay_of n r = n

third_try :
    with_retry delay_of some send 5
    ≡ record { outcome = returns (response 200); delays = 1 ∷ 2 ∷ []; closed = [] }
unfolding retry_from is_retryable_status
third_try = refl

with_retry-SettlesAt_example :
    (last : ℕ) × SettlesAt delay_of some send 5 (with_retry delay_of some send 5) 1 last
with_retry-SettlesAt_example = with_retry-SettlesAt delay_of some send 5 (omega arith)

with_retry_stream-closing_example :
    with_retry_stream delay_of send 5 ≡ closing delay_of send 5 1 (with_retry delay_of some send 5)
with_retry_stream-closing_example = with_retry_stream-closing delay_of send 5 (omega arith)
