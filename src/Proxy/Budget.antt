-- ===== src/Proxy/Budget.antt =====
-- The sizes of a request in src/spillover/proxy/app.py: its tokens, the share that leaves and the
-- share for the long-term memory.
use spillover.Prelude.{
  ℕ, ◌+◌, String, none, some, List, if◌then◌else◌, or_else, sum_by, ℤ, pos, pos_part, ◌-ℤ◌, leb_ℤ,
  max_ℤ, min_ℤ,
}
use spillover.Json.{truthy, Message, Payload}
use spillover.Runtime.{Codec, Floats, max_f, min_f, Environ}
use spillover.Tokenizer.{count_tokens, message_tokens}

-- `count_tokens(system) if system else 0`
abbrev pub system_tokens : Codec → Payload → ℕ
system_tokens c payload = elim payload.system [
  | none ↦ 0
  | some v ↦ if truthy v then count_tokens c v else 0
]

abbrev pub messages_tokens : Codec → List Message → ℕ
messages_tokens c = sum_by (message_tokens c)

abbrev pub total_tokens : Codec → Payload → ℕ
total_tokens c payload = system_tokens c payload + messages_tokens c payload.messages

module _ (f : Floats) where
  -- `float(os.environ.get(name, default))`, and `default` where the text is no number
  abbrev pub env_float : Environ → String → String → f.Float
  env_float env name default = or_else (f.float_of (or_else (env name) default)) (f.literal default)

  -- `int(os.environ.get(name, str(default)))`, and `default` where the text is no number
  abbrev pub env_int : Environ → String → ℤ → ℤ
  env_int env name default = elim (env name) [
    | none ↦ default
    | some t ↦ or_else (f.int_of t) default
  ]

  -- `max(0.0, min(0.9, x))`
  abbrev pub clamp_pct : f.Float → f.Float
  clamp_pct x = max_f f (f.literal "0.0") (min_f f (f.literal "0.9") x)

  unfoldable pub archive_pct : Environ → f.Float
  archive_pct env = clamp_pct (env_float env "SPILLOVER_ARCHIVE_PCT" "0.2667")

  unfoldable pub retrieval_pct : Environ → f.Float
  retrieval_pct env = clamp_pct (env_float env "SPILLOVER_RETRIEVAL_PCT" "0.1538")

  -- `_ltm_budget_for`
  unfoldable pub ltm_budget_for : Codec → Environ → Payload → ℤ
  ltm_budget_for c env payload =
      let total = f.of_int (pos (total_tokens c payload)) in
      let remaining = f.trunc (f.mul_f total (f.sub_f (f.literal "1.0") (archive_pct env))) in
      let pct_budget = f.trunc (f.mul_f (f.of_int remaining) (retrieval_pct env)) in
      let absolute_cap = env_int env "SPILLOVER_LTM_MAX_TOKENS" (pos 20000) in
      let min_budget = env_int env "SPILLOVER_LTM_MIN_TOKENS" (pos 500) in
      max_ℤ min_budget (min_ℤ pct_budget absolute_cap)

  -- `target_to_evict` of `_evict_inbound_to_ceiling`
  unfoldable pub target_to_evict : Environ → ℤ → ℤ → ℕ → ℤ
  target_to_evict env operational_ceiling retrieval_reserve total =
      let live_ceiling = env_int env "SPILLOVER_OPERATIONAL_CEILING_TOKENS" operational_ceiling in
      let min_total = env_int env "SPILLOVER_PCT_MIN_TOTAL_TOKENS" (pos 5000) in
      let pct_target =
        if leb_ℤ min_total (pos total)
        then f.trunc (f.mul_f (f.of_int (pos total)) (archive_pct env))
        else pos 0 in
      let ceiling_target = max_ℤ (pos 0) (pos total -ℤ (live_ceiling -ℤ retrieval_reserve)) in
      max_ℤ pct_target ceiling_target

-- The size that the trimmed request aims at: `max(0, total - target_to_evict)`.
unfoldable pub effective_ceiling : ℕ → ℤ → ℕ
effective_ceiling total target = pos_part (max_ℤ (pos 0) (pos total -ℤ target))
