-- ===== src/Tests/Served.antt =====
-- Answers of the upstream (src/spillover/proxy/app.py) that are no streams.
use spillover.Proxy.Retry.{is_retryable_status}
use spillover.Prelude.{◌==◌, if◌then◌else◌, inl, true, ℕ, String, refl, Option, none, some}
use spillover.Json.{str}
use spillover.Proxy.Fallback.{rewrite_payload_model, attempt_fallback, should_fallback, Answer}
use spillover.Proxy.Prepare.{World, Prepared}
use spillover.Proxy.Unary.{with_fallback, exchange, Served, serve_unary}
use spillover.Proxy.Unary.Exchange.{IsExchanged, exchange-IsExchanged}
use spillover.Proxy.Unary.Failures.{AsItIs, serve_unary-AsItIs}
use spillover.Tests.Fixtures.{floats}
use spillover.Tests.Upstream.{api_codec, adapter, settings, world, ids, clock, asks, answers}

abbrev trimmed : Prepared
trimmed = record { payload = asks; freed = some 5 }

abbrev ok : Answer String
ok = record { status_code = 200; body = "answer" }

abbrev served : Served
served = record { status_code = 200; content = str "block;-;"; fallback_model = none }

abbrev outcome : World × Option Served
outcome = serve_unary floats api_codec settings adapter true "p" ids clock answers trimmed world

abbrev limited : Answer String
limited = record { status_code = 429; body = "slow down" }

abbrev small_ok : Answer String
small_ok = record { status_code = 200; body = "small answer" }

abbrev busy : ℕ → String → Option (Answer String)
busy n body = if n == 0 then some limited else some small_ok

exchange-IsExchanged_example :
    IsExchanged api_codec busy "answer" "large" "small" limited small_ok (some "small")
unfolding exchange with_fallback should_fallback is_retryable_status attempt_fallback
    rewrite_payload_model
exchange-IsExchanged_example =
    exchange-IsExchanged api_codec busy "answer" "large" "small" limited small_ok (some "small")
      refl refl

abbrev invalid : Answer String
invalid = record { status_code = 400; body = "no such model" }

abbrev refuses : ℕ → String → Option (Answer String)
refuses n body = some invalid

serve_unary-AsItIs_example :
    AsItIs floats api_codec settings adapter true "p" ids clock refuses trimmed world invalid none
      (serve_unary floats api_codec settings adapter true "p" ids clock refuses trimmed world)
unfolding exchange with_fallback should_fallback is_retryable_status
serve_unary-AsItIs_example =
    serve_unary-AsItIs floats api_codec settings adapter true "p" ids clock refuses trimmed world
      invalid none refl (inl refl)
