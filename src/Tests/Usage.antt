-- ===== src/Tests/Usage.antt =====
-- The rewritten usage (src/spillover/counter_compact/usage_rewrite.py) of a small response.
use spillover.Prelude.{String, ◌≡◌, refl, false, some, or_else, str_eq, ℤ, pos, ◌-ℤ◌, max_ℤ}
use spillover.Json.{Json, int, obj, Fields, end, field, get, put}
use spillover.CounterCompact.Usage.{int_of_json, new_input, rewrite_usage}
use spillover.CounterCompact.Usage.Bounds.{IsReported, rewrite_usage-IsReported}
use spillover.Tests.Fixtures.{floats, no_env}

abbrev usage : Fields
usage = field "input_tokens" (int (pos 90)) (field "output_tokens" (int (pos 5)) end)

abbrev told : Json
told = obj (
    field "input_tokens" (int (pos 70)) (
      field "output_tokens" (int (pos 5)) (field "spillover_real_input_tokens" (int (pos 90)) end)))

rewrite_usage-IsReported_example :
    (out : Fields) × (n : ℤ) × (real_input : ℤ) × (told ≡ obj out)
    × (int_of_json floats (or_else (get "input_tokens" usage) (int (pos 0))) ≡ some real_input)
    × (get "input_tokens" out ≡ some (int n))
    × (get "spillover_real_input_tokens" out ≡ some (int real_input))
    × IsReported floats no_env real_input n
    × ((k : String)
        → str_eq k "input_tokens" ≡ false
        → str_eq k "spillover_real_input_tokens" ≡ false
        → get k out ≡ get k usage)
unfolding rewrite_usage new_input get put ◌-ℤ◌ max_ℤ
rewrite_usage-IsReported_example =
    rewrite_usage-IsReported floats no_env (pos 20) usage told refl refl
