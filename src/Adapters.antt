-- ===== src/Adapters.antt =====
-- src/spillover/adapters: the conversation that each provider's requests are read into (base.py).
pub mod Stream
pub mod Anthropic
pub mod OpenAi
use spillover.Prelude.{ℕ, ◌+◌, String, Option, List, sum_by, ℤ}
use spillover.Json.{Json, Items, Fields, Payload}

-- A turn that came with the request; `source_index` is then set and `source` is "live".
pub record ConversationTurn : Type 0 where
  pub role : String
  pub content : Json
  pub tool_calls : Items
  pub token_count : ℕ
  pub source_index : Option ℕ

pub record Conversation : Type 0 where
  pub system : Option Json
  pub system_tokens : ℕ
  pub turns : List ConversationTurn
  pub model : Option String
  pub max_tokens : Json
  pub extra : Fields

abbrev pub total_input_tokens : Conversation → ℕ
total_input_tokens conv = conv.system_tokens + sum_by (λ t. t.token_count) conv.turns

-- What the proxy asks of an adapter. An outer `none` is an exception; the chunks of a stream are
-- texts of bytes.
pub record Adapter : Type 0 where
  pub parse : Payload → Option Conversation
  pub usage_of_body : String → Option (Option (ℤ × ℤ))
  pub usage_of_stream : List String → Option (Option (ℤ × ℤ))
  pub response_text : Fields → Option String
  pub stream_text : List String → Option String
  pub inject_ltm : Payload → String → Option Payload
