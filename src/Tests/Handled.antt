-- ===== src/Tests/Handled.antt =====
-- Requests through the handler (src/spillover/proxy/app.py), in both modes.
use spillover.Text.{starts_with, occurs_in}
use spillover.Adapters.Stream.{usage_of_body}
use spillover.Proxy.Retry.{is_retryable_status}
use spillover.Proxy.Unary.{with_fallback, exchange}
use spillover.Prelude.{
  ℕ, String, ◌≡◌, refl, true, false, none, some, List, [], ◌∷◌, pos, max_ℤ, min_ℤ, ◌-ℤ◌,
}
use spillover.Json.{get}
use spillover.Storage.{empty_db, id_of_hash, insert_episode}
use spillover.Archive.{hash_turn, insert_turn, archive_raw}
use spillover.Tokenizer.{count_tokens, count_for_text, normalize}
use spillover.Proxy.RuntimeEnv.{load_runtime}
use spillover.Proxy.Budget.{
  archive_pct, retrieval_pct, effective_ceiling, target_to_evict, ltm_budget_for,
}
use spillover.Proxy.Forward.{
  is_safely_evictable, has_tool_block, Trimmed, trim_by, walk, evict_inbound_to_ceiling,
}
use spillover.Proxy.Fallback.{should_fallback, Answer}
use spillover.Proxy.Prepare.{is_passive, Settings, World, Prepared, trim_and_inject}
use spillover.Proxy.Prepare.Forwarded.{adapter_of}
use spillover.Proxy.Streamed.{open_stream, stream_rewrite_enabled, Delivered, proxy_stream}
use spillover.Proxy.Streamed.Delivery.{IsDelivered, proxy_stream-IsDelivered}
use spillover.Proxy.Handler.{streamed, crashed, Upstream, handle}
use spillover.Proxy.Handler.Modes.{handle-passive_crashed, handle-passive_failed}
use spillover.Tests.Fixtures.{floats, no_env, request}
use spillover.Tests.Forward.{talk}
use spillover.Tests.Upstream.{
  api_codec, adapter, settings, searches, world, passive, ids, clock, asks, streams, answers,
  chunks, opens,
}

-- A ceiling of sixteen tokens, and a tenth of them for long-term memory.
abbrev narrow : Settings ℕ
narrow = record settings { operational_ceiling = 16 }

abbrev prepared : World × Prepared
prepared =
    trim_and_inject floats api_codec narrow (adapter_of floats api_codec (λ t. t) false) "p" ids
      clock [] searches (request talk) world

-- Its trimming takes a message out.
abbrev trimmed : Trimmed
trimmed =
    evict_inbound_to_ceiling floats api_codec (ids 1) "p" 7 [] (pos 16)
      (ltm_budget_for floats api_codec no_env (request talk)) (request talk) empty_db no_env

some_leave : trimmed.turns_removed ≡ 1
unfolding evict_inbound_to_ceiling trim_by target_to_evict max_ℤ load_runtime count_tokens
    count_for_text normalize ◌-ℤ◌ ltm_budget_for min_ℤ archive_pct retrieval_pct is_safely_evictable
    walk effective_ceiling archive_raw hash_turn insert_turn get has_tool_block id_of_hash
    insert_episode
some_leave = refl

abbrev counted : Prepared
counted = record { payload = streams; freed = some 5 }

abbrev stream : Answer (List String)
stream = record { status_code = 200; body = chunks }

abbrev delivery : Delivered
delivery =
    (proxy_stream floats api_codec settings adapter true "p" ids clock counted stream none world).1

proxy_stream-IsDelivered_example :
    (stream_rewrite_enabled world.environ ≡ false → delivery.chunks ≡ chunks)
    × (stream_rewrite_enabled world.environ ≡ true
        → IsDelivered floats api_codec settings adapter true "p" ids clock counted stream none world
            delivery)
proxy_stream-IsDelivered_example =
    proxy_stream-IsDelivered floats api_codec settings adapter true "p" ids clock counted stream
      none world

abbrev upstream : Upstream
upstream = record { post = answers; send = opens }

abbrev watching : World
watching = record world { environ = passive }

handle-passive_crashed_example :
    (handle floats api_codec settings adapter true "p" ids clock [] searches upstream asks
      watching).1
    ≡ crashed
unfolding is_passive get exchange with_fallback should_fallback is_retryable_status usage_of_body
handle-passive_crashed_example =
    handle-passive_crashed floats api_codec settings adapter true "p" ids clock [] searches upstream
      asks watching (record { status_code = 200; body = "answer" }) none (pos 100) (pos 10) refl
      refl refl refl refl

handle-passive_failed_example :
    (handle floats api_codec settings adapter true "p" ids clock [] searches upstream streams
      watching).1
    ≡ streamed (record {
      status_code = 200;
      fallback_model = none;
      stream = record { chunks = "data: text\n\n" ∷ []; failed = true };
    })
unfolding is_passive get open_stream should_fallback is_retryable_status occurs_in starts_with
handle-passive_failed_example =
    handle-passive_failed floats api_codec settings adapter true "p" ids clock [] searches upstream
      streams watching stream none refl refl refl
