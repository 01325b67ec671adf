-- ===== src/Plan.antt =====
-- src/spillover/budget: the shares of a window (plan.py), and the profile that a request asks for
-- (profile.py).
use spillover.Prelude.{
  ℕ, ◌+◌, String, not, ◌&&◌, ◌||◌, leb, length, str_eq, sum_by, if◌then◌else◌, ℤ, ◌+ℤ◌,
}
use spillover.Json.{
  arr, obj, Items, nil, cons, get_or_null, truthy, has_type, Message, content_of, Payload,
}
use spillover.Runtime.{Floats}

pub record TokenPlan : Type 0 where
  pub ceiling : ℤ
  pub system_tokens : ℤ
  pub working_memory_tokens : ℤ
  pub active_tokens : ℤ
  pub ltm_tokens : ℤ
  pub scratchpad_tokens : ℤ

abbrev pub evictable_budget : TokenPlan → ℤ
evictable_budget plan = plan.active_tokens

abbrev pub total : TokenPlan → ℤ
total plan =
    plan.system_tokens +ℤ plan.working_memory_tokens +ℤ plan.active_tokens +ℤ plan.ltm_tokens
    +ℤ plan.scratchpad_tokens

-- The shares in `Config`, which a `BudgetProfile` names too; a share is a float or its literal.
pub record BudgetProfile (P : Type 0) : Type 0 where
  pub name : String
  pub system_pct : P
  pub working_memory_pct : P
  pub active_pct : P
  pub ltm_pct : P
  pub scratchpad_pct : P

unfoldable pub plan_from_config : (f : Floats) → ℤ → BudgetProfile f.Float → TokenPlan
plan_from_config f c config =
    let share : f.Float → ℤ = λ p. f.trunc (f.mul_f (f.of_int c) p) in
    record {
      ceiling = c;
      system_tokens = share config.system_pct;
      working_memory_tokens = share config.working_memory_pct;
      active_tokens = share config.active_pct;
      ltm_tokens = share config.ltm_pct;
      scratchpad_tokens = share config.scratchpad_pct;
    }

-- `BudgetProfile(name, ...)`, by the literals
abbrev pub profile_of : String → String → String → String → String → String → BudgetProfile String
profile_of n s w a l p = record {
  name = n;
  system_pct = s;
  working_memory_pct = w;
  active_pct = a;
  ltm_pct = l;
  scratchpad_pct = p;
}

abbrev pub coding : BudgetProfile String
coding = profile_of "coding" "0.05" "0.30" "0.40" "0.10" "0.15"

abbrev pub research : BudgetProfile String
research = profile_of "research" "0.05" "0.10" "0.50" "0.30" "0.05"

abbrev pub conversation : BudgetProfile String
conversation = profile_of "conversation" "0.05" "0.10" "0.70" "0.10" "0.05"

abbrev pub default : BudgetProfile String
default = profile_of "default" "0.04" "0.20" "0.50" "0.15" "0.11"

-- The blocks of tools in a content.
unfoldable pub tool_blocks : Items → ℕ
tool_blocks nil = 0
tool_blocks (cons (obj b) bs) =
    (if has_type "tool_use" b || has_type "tool_result" b then 1 else 0) + tool_blocks bs
tool_blocks (cons _ bs) = tool_blocks bs

abbrev pub tools_in : Message → ℕ
tools_in m = elim (content_of m) [ arr bs ↦ tool_blocks bs | _ ↦ 0 ]

unfoldable pub select_profile : Payload → String → BudgetProfile String
select_profile payload override =
    let tool_count = sum_by tools_in payload.messages in
    let detected =
      if leb 3 tool_count || truthy (get_or_null "tools" payload.rest)
      then coding
      else if leb 10 (length payload.messages)
      then conversation
      else default in
    if str_eq override "coding"
    then coding
    else if str_eq override "research"
    then research
    else if str_eq override "conversation"
    then conversation
    else if not (str_eq override "") && not (str_eq override "auto")
    then default
    else detected
