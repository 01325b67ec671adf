-- ===== src/Tests/Upstream.antt =====
-- An upstream for the tests of the handler (src/spillover/proxy/app.py): its answers, the codec that
-- reads them, and a request.
use spillover.Prelude.{
  ℕ, String, true, Option, none, some, List, [], ◌∷◌, str_eq, if◌then◌else◌, pos,
}
use spillover.Json.{Json, int, bool, str, arr, obj, nil, cons, end, field, Payload}
use spillover.Runtime.{Codec, Environ}
use spillover.Storage.{empty_db}
use spillover.Adapters.{Adapter}
use spillover.Adapters.Anthropic.Responses.{anthropic}
use spillover.Retriever.{Hit}
use spillover.Proxy.Fallback.{Answer}
use spillover.Proxy.Retrieve.{Searches, Limits}
use spillover.Proxy.Prepare.{Settings, World}
use spillover.Tests.Fixtures.{codec, floats, no_env, says, request}

abbrev pub answer : Json
answer = obj (
    field "content" (arr (cons (obj (field "text" (str "hello") end)) nil)) (
      field "usage"
        (obj (field "input_tokens" (int (pos 100)) (field "output_tokens" (int (pos 10)) end)))
        end))

abbrev pub api_codec : Codec
api_codec = record codec { loads = λ t. if str_eq t "answer" then some answer else some (str t) }

abbrev pub adapter : Adapter
adapter = anthropic floats api_codec (λ t. t)

abbrev pub limits : Limits ℕ
limits = record {
  retriever_topk = 5;
  retriever_vector_k = 5;
  retriever_graph_k = 5;
  retriever_bm25_k = 5;
  window_max = pos 1000;
  ltm_budget_pct = 1000;
}

abbrev pub settings : Settings ℕ
settings = record {
  operational_ceiling = 1000;
  watermark = 9000;
  limits = limits;
  fallback_model_anthropic = "small";
  fallback_model_openai = "";
}

abbrev pub hit : String → Hit ℕ
hit i = record {
  episode_id = i;
  score = 1;
  memory_type = none;
  importance = none;
  ts = none;
  source = "vector";
}

abbrev pub searches : Searches ℕ
searches = record {
  vec_count = 2;
  vector_topk = λ t n. hit "a" ∷ [];
  bm25_topk = λ t n. hit "b" ∷ [];
  extract_entities = λ t. [];
  graph_walk = λ t n. none;
  causality_chain = λ t. none;
}

abbrev pub world : World
world = record {
  db = empty_db;
  environ = no_env;
  queue = record { maxsize = 2; events = []; dropped = 0 };
}

abbrev pub passive : Environ
passive k = if str_eq k "SPILLOVER_PASSIVE" then some "1" else none

abbrev pub ids : ℕ → ℕ → String
ids k i = "drawn"

abbrev pub clock : ℕ → ℕ
clock k = 7

abbrev pub asks : Payload
asks = request (says "user" "question" ∷ [])

abbrev pub streams : Payload
streams = record asks { rest = field "stream" (bool true) end }

abbrev pub answers : ℕ → String → Option (Answer String)
answers n body = some (record { status_code = 200; body = "answer" })

abbrev pub chunks : List String
chunks = "data: {\"usage\": 1}\n\n" ∷ "data: text\n\n" ∷ []

abbrev pub opens : ℕ → String → Option (Answer (List String))
opens n body = some (record { status_code = 200; body = chunks })
