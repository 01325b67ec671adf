-- ===== src/CounterCompact/Usage.antt =====
-- src/spillover/counter_compact/usage_rewrite.py: the usage that the client is told.
pub mod Bounds
use spillover.Prelude.{
  String, Bool, true, false, Option, none, some, if◌then◌else◌, or_else, ℤ, pos, ◌-ℤ◌, leb_ℤ, max_ℤ,
  min_ℤ,
}
use spillover.Json.{Json, null, bool, int, real, str, arr, obj, Fields, get, put, truthy}
use spillover.Runtime.{Floats, Environ}
use spillover.Proxy.Budget.{env_int}

abbrev pub with_usage : ℤ → ℤ → Fields → Fields
with_usage input real_input usage =
    put "spillover_real_input_tokens" (int real_input) (put "input_tokens" (int input) usage)

module _ (f : Floats) where
  -- `int(v)`, where `none` is an exception
  abbrev pub int_of_json : Json → Option ℤ
  int_of_json (int n) = some n
  int_of_json (bool b) = some (if b then pos 1 else pos 0)
  int_of_json (real t) = some (f.trunc (f.literal t))
  int_of_json (str t) = f.int_of t
  int_of_json _ = none

  -- `new_input`
  unfoldable pub new_input : Environ → ℤ → ℤ → ℤ
  new_input env real_input tokens_archived =
      let floored = max_ℤ (pos 1) (real_input -ℤ max_ℤ (pos 0) tokens_archived) in
      let reported_cap = env_int f env "SPILLOVER_REPORTED_INPUT_CAP" (pos 0) in
      if leb_ℤ reported_cap (pos 0) then floored else min_ℤ floored reported_cap

  -- `none` is an exception: a usage that is no dict or a count that is no number.
  unfoldable pub rewrite_usage : Environ → ℤ → Json → Option Json
  rewrite_usage env tokens_archived (obj usage) =
      if truthy (obj usage)
      then elim (int_of_json (or_else (get "input_tokens" usage) (int (pos 0)))) [
        | none ↦ none
        | some n ↦ some (obj (with_usage (new_input env n tokens_archived) n usage))
      ]
      else some (obj usage)
  rewrite_usage env tokens_archived v = if truthy v then none else some v

  unfoldable pub rewrite_response_json : Environ → ℤ → Fields → Option Fields
  rewrite_response_json env tokens_archived resp = elim (get "usage" resp) [
    | none ↦ some resp
    | some usage ↦ elim (rewrite_usage env tokens_archived usage) [
      | none ↦ none
      | some v ↦ some (put "usage" v resp)
    ]
  ]
