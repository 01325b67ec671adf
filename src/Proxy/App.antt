-- ===== src/Proxy/App.antt =====
-- `create_app` of src/spillover/proxy/app.py: the routes, behind the middleware. The pages that only
-- report are left out, and so are the tasks that the application starts.
use Prim.Native.String.{◌++◌ as append}
use spillover.Prelude.{
  ℕ, String, true, false, Option, none, some, List, str_eq, if◌then◌else◌, pos_part,
}
use spillover.Json.{Payload}
use spillover.Runtime.{Codec, Floats, Environ}
use spillover.Config.{Config}
use spillover.Storage.{Db}
use spillover.Adapters.Anthropic.Responses.{anthropic}
use spillover.Adapters.OpenAi.Responses.{openai}
use spillover.Proxy.Rescue.{FacetQueue}
use spillover.Proxy.Retrieve.{Limits, Searches}
use spillover.Proxy.Prepare.{Settings, World}
use spillover.Proxy.Middleware.{dispatch}
use spillover.Proxy.Handler.{Ending, Upstream, handle_request}

-- The settings that the handler and the retriever read; a limit below zero counts as zero.
abbrev pub limits_of : {F : Type 0} → Config F → Limits F
limits_of config = record {
  retriever_topk = pos_part config.retriever_topk;
  retriever_vector_k = pos_part config.retriever_vector_k;
  retriever_graph_k = pos_part config.retriever_graph_k;
  retriever_bm25_k = pos_part config.retriever_bm25_k;
  window_max = config.operational_ceiling_tokens;
  ltm_budget_pct = config.ltm_budget_pct;
}

abbrev pub settings_of : {F : Type 0} → Config F → Settings F
settings_of config = record {
  operational_ceiling = pos_part config.operational_ceiling_tokens;
  watermark = config.watermark;
  limits = limits_of config;
  fallback_model_anthropic = config.fallback_model_anthropic;
  fallback_model_openai = config.fallback_model_openai;
}

-- All projects' databases, the environment and the queue of facets.
pub record AppState : Type 0 where
  pub dbs : String → Db
  pub environ : Environ
  pub queue : FacetQueue

abbrev pub world_of : String → AppState → World
world_of p s = record { db = s.dbs p; environ = s.environ; queue = s.queue }

abbrev pub back_into : String → AppState → World → AppState
back_into p s w = record {
  dbs = λ q. if str_eq p q then w.db else s.dbs q;
  environ = w.environ;
  queue = w.queue;
}

-- A POST: `upstreams` are the servers by their addresses, `searches` the engines of a project.
module _ (f : Floats) (c : Codec) (decode : String → String) (config : Config f.Float)
    (ids : ℕ → ℕ → String) (clock : ℕ → ℕ) (runtime : List String)
    (searches : String → Searches f.Float) (upstreams : String → Upstream) where
  unfoldable pub messages_anthropic :
      String → String → Option Payload → AppState → AppState × Ending
  messages_anthropic p msg inbound s =
      let out =
        handle_request f c (settings_of config) (anthropic f c decode) true p ids clock runtime
          (searches p) (upstreams (append config.upstream_base_url "/v1/messages")) msg inbound
          (world_of p s) in
      (back_into p s out.0, out.1)

  unfoldable pub messages_openai : String → String → Option Payload → AppState → AppState × Ending
  messages_openai p msg inbound s =
      let out =
        handle_request f c (settings_of config) (openai f c decode) false p ids clock runtime
          (searches p) (upstreams (append config.openai_base_url "/v1/chat/completions")) msg
          inbound (world_of p s) in
      (back_into p s out.0, out.1)

  -- `none` is a path without a route for POST.
  abbrev pub route_post :
      Option String → String → String → Option Payload → AppState → Option (AppState × Ending)
  route_post none path msg inbound s = none
  route_post (some p) path msg inbound s =
      if str_eq path "/v1/messages"
      then some (messages_anthropic p msg inbound s)
      else if str_eq path "/v1/chat/completions"
      then some (messages_openai p msg inbound s)
      else none

  unfoldable pub serve_post :
      Option String → String → String → Option Payload → AppState → Option (AppState × Ending)
  serve_post x_project path msg inbound s =
      let routed = dispatch c s.environ x_project path in
      route_post routed.project_id routed.path msg inbound s
