-- ===== src/Config.antt =====
-- src/spillover/config.py: the settings, from the environment.
use spillover.Prelude.{String, Option, some, ◌>>=◌, or_else, ℤ, ◌+ℤ◌}
use spillover.Json.{int}
use spillover.Runtime.{Codec, Floats, Environ}

-- `db_root` is the text that `Path` is made of.
pub record Config (F : Type 0) : Type 0 where
  pub port : ℤ
  pub watermark : F
  pub operational_ceiling_tokens : ℤ
  pub provider_max_tokens : ℤ
  pub db_root : String
  pub upstream_base_url : String
  pub openai_base_url : String
  pub system_pct : F
  pub working_memory_pct : F
  pub active_pct : F
  pub ltm_pct : F
  pub scratchpad_pct : F
  pub ltm_budget_pct : F
  pub retriever_topk : ℤ
  pub retriever_vector_k : ℤ
  pub retriever_graph_k : ℤ
  pub retriever_bm25_k : ℤ
  pub profile_default : String
  pub fallback_model_anthropic : String
  pub fallback_model_openai : String

-- `os.environ.get(k, d)`
abbrev pub env_or : Environ → String → String → String
env_or env k d = or_else (env k) d

-- `Config.from_env`, where `none` is the ValueError of a number that cannot be read and `home` is the
-- directory under the user's home.
unfoldable pub from_env : (f : Floats) → Codec → String → Environ → Option (Config f.Float)
from_env f c home env = do
  ceiling ← f.int_of (
      env_or env "SPILLOVER_OPERATIONAL_CEILING_TOKENS"
        (env_or env "SPILLOVER_WINDOW_MAX" "150000"))
  provider ←
      f.int_of (env_or env "SPILLOVER_PROVIDER_MAX_TOKENS" (c.to_str (int (ceiling +ℤ ceiling))))
  ltm ← f.float_of (env_or env "SPILLOVER_LTM_BUDGET_PCT" "0.15")
  port ← f.int_of (env_or env "SPILLOVER_PORT" "8787")
  watermark ← f.float_of (env_or env "SPILLOVER_WATERMARK" "0.85")
  system ← f.float_of (env_or env "SPILLOVER_SYSTEM_PCT" "0.04")
  working_memory ← f.float_of (env_or env "SPILLOVER_WORKING_MEMORY_PCT" "0.20")
  active ← f.float_of (env_or env "SPILLOVER_ACTIVE_PCT" "0.50")
  scratchpad ← f.float_of (env_or env "SPILLOVER_SCRATCHPAD_PCT" "0.11")
  topk ← f.int_of (env_or env "SPILLOVER_RETRIEVER_TOPK" "5")
  vector_k ← f.int_of (env_or env "SPILLOVER_RETRIEVER_VECTOR_K" "50")
  graph_k ← f.int_of (env_or env "SPILLOVER_RETRIEVER_GRAPH_K" "50")
  bm25_k ← f.int_of (env_or env "SPILLOVER_RETRIEVER_BM25_K" "50")
  some (record {
    port = port;
    watermark = watermark;
    operational_ceiling_tokens = ceiling;
    provider_max_tokens = provider;
    db_root = env_or env "SPILLOVER_DB_ROOT" home;
    upstream_base_url = env_or env "SPILLOVER_UPSTREAM_BASE_URL" "https://api.anthropic.com";
    openai_base_url = env_or env "SPILLOVER_OPENAI_BASE_URL" "https://api.openai.com";
    system_pct = system;
    working_memory_pct = working_memory;
    active_pct = active;
    ltm_pct = ltm;
    scratchpad_pct = scratchpad;
    ltm_budget_pct = ltm;
    retriever_topk = topk;
    retriever_vector_k = vector_k;
    retriever_graph_k = graph_k;
    retriever_bm25_k = bm25_k;
    profile_default = env_or env "SPILLOVER_PROFILE_DEFAULT" "auto";
    fallback_model_anthropic =
        env_or env "SPILLOVER_FALLBACK_MODEL_ANTHROPIC" (env_or env "SPILLOVER_FALLBACK_MODEL" "");
    fallback_model_openai = env_or env "SPILLOVER_FALLBACK_MODEL_OPENAI" "";
  })

-- `window_max`
abbrev pub window_max : {F : Type 0} → Config F → ℤ
window_max config = config.operational_ceiling_tokens
