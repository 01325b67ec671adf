-- ===== src/Proxy/Prepare/Forwarded.antt =====
-- The request that goes out in active mode, against the one that came in (`_handle_request` of
-- src/spillover/proxy/app.py, steps 1 to 4).
use Prim.Native.String.{◌++◌ as append}
use spillover.Prelude.{
  ℕ, ◌+◌, String, ◌≡◌, Bool, true, false, Option, some, List, ◌∷◌, All, length, if◌then◌else◌,
}
use spillover.Json.{str, Message, Payload}
use spillover.Runtime.{Codec, Floats}
use spillover.Storage.{Db}
use spillover.Archive.Honest.{IsHonest}
use spillover.Adapters.{Adapter}
use spillover.Adapters.Anthropic.Responses.{anthropic}
use spillover.Adapters.OpenAi.{system_message}
use spillover.Adapters.OpenAi.Responses.{openai}
use spillover.Proxy.Budget.{messages_tokens}
use spillover.Proxy.Forward.Thinned.{Thinned}
use spillover.Proxy.Forward.Request.{IsProtected, IsStored}
use spillover.Proxy.Retrieve.{Searches}
use spillover.Proxy.Prepare.{Settings, World, Prepared}

-- The adapter of the route: that of the Messages API or that of chat completions.
abbrev pub adapter_of : Floats → Codec → (String → String) → Bool → Adapter
adapter_of f c decode is_anthropic =
    if is_anthropic then anthropic f c decode else openai f c decode

-- The messages of a chat with a text for the system: the same, or a system message in front of
-- them, or another content in a first message with the role of the system.
pub data HasSystem : List Message → List Message → Type 0 where
  same : {ms : List Message} → HasSystem ms ms
  in_front : {t : String} {ms : List Message} → HasSystem ms (system_message t ∷ ms)
  extended :
      {t : String} {m : Message} {ms : List Message}
      → m.role ≡ some "system"
      → HasSystem (m ∷ ms) ((record m { content = some (str t) }) ∷ ms)

-- What the injection may change: the system field of a request to the Messages API, the system's
-- message of a chat.
abbrev pub Injected : Bool → Payload → Payload → Type 0
Injected true before after = after ≡ record before { system = after.system }
Injected false before after =
    (after ≡ record before { messages = after.messages }) × HasSystem before.messages after.messages

module _ (f : Floats) (c : Codec) (settings : Settings f.Float) (decode : String → String)
    (is_anthropic : Bool) (p : String) (ids : ℕ → ℕ → String) (clock : ℕ → ℕ)
    (runtime : List String) (searches : Searches f.Float) (payload : Payload) where
  abbrev adapter : Adapter
  adapter = adapter_of f c decode is_anthropic

  -- The request that goes out, against the one that came in: what the trimming leaves, with its
  -- missing messages stored and counted, and the injection behind it.
  abbrev pub IsForwarded : Prepared → Db → Type 0
  IsForwarded q db =
      (trimmed : Payload) × IsProtected payload trimmed
      × All (IsHonest c) db.episodes
      × Thinned (IsStored c (length payload.messages) db.episodes) (λ j m. Unit) 0 payload.messages
          trimmed.messages
      × ((n : ℕ) × (q.freed ≡ some n)
          × (messages_tokens c trimmed.messages + n ≡ messages_tokens c payload.messages))
      × Injected is_anthropic trimmed q.payload

  abbrev AllForwarded : World × Option Prepared → Type 0
  AllForwarded out = (q : Prepared) → out.1 ≡ some q → IsForwarded q out.0.db
