-- ===== src/CounterCompact/EnvVars.antt =====
-- src/spillover/counter_compact/env_vars.py, and the environment that the commands of
-- src/spillover/wrappers give the program that they start.
use Prim.Native.String.{◌++◌ as append}
use spillover.Prelude.{String, Option, some, List, [], ◌∷◌, str_eq, if◌then◌else◌, ◌||◌, or_else, ℤ}
use spillover.Json.{int}
use spillover.Runtime.{Codec, Environ}
use spillover.Proxy.Middleware.{or_text}
use spillover.Proxy.RuntimeEnv.{set_env}

-- `CC_DISABLE_ENV`, `CODEX_DISABLE_ENV` and `DISABLE_ENV_BY_CLI`
abbrev pub cc_disable_env : List (String × String)
cc_disable_env =
    ("CLAUDE_CODE_AUTO_COMPACT", "0")
    ∷ ("CLAUDE_CODE_DISABLE_COMPACT", "1")
    ∷ ("CLAUDE_CODE_DISABLE_AUTO_COMPACT", "1")
    ∷ []

abbrev pub codex_disable_env : List (String × String)
codex_disable_env = ("CODEX_DISABLE_COMPACT", "1") ∷ []

unfoldable pub env_for : String → List (String × String)
env_for cli_name =
    if str_eq cli_name "cc" || str_eq cli_name "claude-code"
    then cc_disable_env
    else if str_eq cli_name "codex"
    then codex_disable_env
    else []

-- `env.update(...)`
unfoldable pub update_env : List (String × String) → Environ → Environ
update_env [] env = env
update_env (e ∷ es) env = update_env es (set_env e.0 e.1 env)

-- `project or sha1(cwd)` and `proxy or f"http://127.0.0.1:{port}/p/{project_id}"`
abbrev pub project_of : Codec → Option String → String → String
project_of c project cwd = or_else (or_text project (some (c.sha1 cwd))) ""

abbrev pub proxy_of : Codec → Option String → ℤ → String → String
proxy_of c proxy port project_id =
    or_else
      (or_text proxy (
        some (append "http://127.0.0.1:" (append (c.to_str (int port)) (append "/p/" project_id)))))
      ""

-- The environment of the started program; only the wrapper of Claude Code sets one address alone.
unfoldable pub wrapper_env :
    Codec → String → ℤ → String → Option String → Option String → Environ → Environ
wrapper_env c cli_name port cwd proxy project env =
    let project_id = project_of c project cwd in
    let proxy_url = proxy_of c proxy port project_id in
    let routed = set_env "ANTHROPIC_BASE_URL" proxy_url env in
    let addressed =
      if str_eq cli_name "cc" then routed else set_env "OPENAI_BASE_URL" proxy_url routed in
    set_env "SPILLOVER_PROJECT_ID" project_id (update_env (env_for cli_name) addressed)
