-- ===== src/Proxy/Handler.antt =====
-- `_handle_request` of src/spillover/proxy/app.py as a whole, for a request whose project is known.
-- The dumps for debugging and the metrics are left out.
pub mod Modes
use Prim.Native.String.{◌++◌ as append}
use spillover.Prelude.{ℕ, String, Bool, true, false, Option, none, some, List, if◌then◌else◌}
use spillover.Json.{Json, str, obj, end, field, Payload}
use spillover.Runtime.{Codec, Floats, Environ}
use spillover.Adapters.{Adapter}
use spillover.CounterCompact.Intercept.{should_intercept_request, make_intercept_response}
use spillover.Proxy.Fallback.{Answer}
use spillover.Proxy.Retrieve.{Searches}
use spillover.Proxy.Prepare.{
  Settings, World, Prepared, is_passive, is_stream, prepare_active, prepare_passive,
}
use spillover.Proxy.Unary.{Served, serve_unary}
use spillover.Proxy.Streamed.{StreamServed, serve_stream}

-- How a request ends; `crashed` is an exception that nothing catches.
pub data Ending : Type 0 where
  replied : Served → Ending
  streamed : StreamServed → Ending
  crashed : Ending

-- The upstream, as it answers requests of either kind.
pub record Upstream : Type 0 where
  pub post : ℕ → String → Option (Answer String)
  pub send : ℕ → String → Option (Answer (List String))

abbrev pub plain_reply : ℕ → Json → Ending
plain_reply status_code content =
    replied (record { status_code = status_code; content = content; fallback_model = none })

abbrev pub bad_request : String → Ending
bad_request msg =
    plain_reply 400 (obj (field "error" (str (append "invalid JSON in request body: " msg)) end))

abbrev pub replied_with : World × Option Served → World × Ending
replied_with (w, none) = (w, crashed)
replied_with (w, some served) = (w, replied served)

abbrev pub streamed_with : World × Option StreamServed → World × Ending
streamed_with (w, none) = (w, crashed)
streamed_with (w, some served) = (w, streamed served)

-- Whether the proxy answers in place of the model; `none` is an exception.
unfoldable pub intercepts : Codec → Bool → Payload → Environ → Option Bool
intercepts c is_anthropic payload env =
    let asked = should_intercept_request c payload in
    if is_passive env then some false else if is_anthropic then asked else some false

module _ (f : Floats) (c : Codec) (settings : Settings f.Float) (adapter : Adapter)
    (is_anthropic : Bool) (p : String) (ids : ℕ → ℕ → String) (clock : ℕ → ℕ)
    (upstream : Upstream) where
  -- The forwarding of a prepared request.
  unfoldable pub forward : Prepared → World → World × Ending
  forward q w =
      let as_stream =
        streamed_with
          (serve_stream f c settings adapter is_anthropic p ids clock upstream.send q w) in
      let as_unary =
        replied_with
          (serve_unary f c settings adapter is_anthropic p ids clock upstream.post q w) in
      if is_stream q.payload then as_stream else as_unary

  -- `none` is an exception before the forwarding.
  abbrev pub forward_prepared : World × Option Prepared → World × Ending
  forward_prepared (w, none) = (w, crashed)
  forward_prepared (w, some q) = forward q w

module _ (f : Floats) (c : Codec) (settings : Settings f.Float) (adapter : Adapter)
    (is_anthropic : Bool) (p : String) (ids : ℕ → ℕ → String) (clock : ℕ → ℕ)
    (runtime : List String) (searches : Searches f.Float) where
  unfoldable pub prepare : Payload → World → World × Option Prepared
  prepare payload w =
      let active =
        prepare_active f c settings adapter p ids clock runtime searches is_anthropic payload w in
      if is_passive w.environ then prepare_passive c is_anthropic p clock payload w else active

  module _ (upstream : Upstream) where
    unfoldable pub handle : Payload → World → World × Ending
    handle payload w = elim (intercepts c is_anthropic payload w.environ) [
      | none ↦ (w, crashed)
      | some true ↦ (w, plain_reply 200 (obj (make_intercept_response (ids 3 0) (clock 5) payload)))
      | some false ↦
          forward_prepared f c settings adapter is_anthropic p ids clock upstream
            (prepare payload w)
    ]

    -- `inbound` is the parsed body, or the message of the JSONDecodeError.
    unfoldable pub handle_request : String → Option Payload → World → World × Ending
    handle_request msg inbound w = elim inbound [
      | none ↦ (w, bad_request msg)
      | some payload ↦ handle payload w
    ]
