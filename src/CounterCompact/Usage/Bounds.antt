-- ===== src/CounterCompact/Usage/Bounds.antt =====
-- What the client is told of its usage (src/spillover/counter_compact/usage_rewrite.py).
use spillover.Prelude.{
  String, ◌≡◌, refl, sym, ◌∙◌, true, false, none, some, arith, str_eq, or_else, ℤ, pos, leb_ℤ,
  if◌then◌else◌, max_ℤ, min_ℤ, ◌-ℤ◌, ◌≤ℤ◌, Option-cases, inl, inr,
}
use spillover.Json.{Json, int, obj, Fields, get, put, truthy}
use spillover.Json.Keys.{get-put, get-put_other}
use spillover.Runtime.{Floats, Environ}
use spillover.Proxy.Budget.{env_int}
use spillover.CounterCompact.Usage.{int_of_json, new_input, with_usage, rewrite_usage}

capped-bounds :
    (floored cap : ℤ)
    → pos 1 ≤ℤ floored
    → let n = if leb_ℤ cap (pos 0) then floored else min_ℤ floored cap in
      (pos 1 ≤ℤ n) × (n ≤ℤ floored) × (pos 1 ≤ℤ cap → n ≤ℤ cap)
unfolding min_ℤ
capped-bounds floored cap h = ground arith

floored-bounds :
    (real_input m : ℤ)
    → pos 0 ≤ℤ m
    → let n = max_ℤ (pos 1) (real_input -ℤ m) in (pos 1 ≤ℤ n) × (n ≤ℤ max_ℤ (pos 1) real_input)
unfolding max_ℤ ◌-ℤ◌
floored-bounds real_input m h = ground arith

at_least_zero : (m : ℤ) → pos 0 ≤ℤ max_ℤ (pos 0) m
unfolding max_ℤ
at_least_zero m = ground arith

-- The count that is reported in place of the real one: at least one, at most the real count where
-- that is positive, and at most the cap where one is set.
abbrev pub IsReported : (f : Floats) → Environ → ℤ → ℤ → Type 0
IsReported f env real_input n =
    (pos 1 ≤ℤ n)
    × (n ≤ℤ max_ℤ (pos 1) real_input)
    × (pos 1 ≤ℤ env_int f env "SPILLOVER_REPORTED_INPUT_CAP" (pos 0)
        → n ≤ℤ env_int f env "SPILLOVER_REPORTED_INPUT_CAP" (pos 0))

new_input-IsReported :
    (f : Floats) (env : Environ) (real_input tokens_archived : ℤ)
    → IsReported f env real_input (new_input f env real_input tokens_archived)
unfolding new_input
new_input-IsReported f env real_input tokens_archived =
    let m = max_ℤ (pos 0) tokens_archived in
    let (one, real) = floored-bounds real_input m (at_least_zero tokens_archived) in
    let (low, high, cap) =
      capped-bounds (max_ℤ (pos 1) (real_input -ℤ m))
        (env_int f env "SPILLOVER_REPORTED_INPUT_CAP" (pos 0)) one in
    (low, omega arith, cap)

-- A usage that is no empty dict and that can be rewritten keeps all its keys but two: the input
-- tokens become a count that may be reported, and the real count stands beside it.
pub rewrite_usage-IsReported :
    (f : Floats) (env : Environ) (tokens_archived : ℤ) (usage : Fields) (v : Json)
    → truthy (obj usage) ≡ true
    → rewrite_usage f env tokens_archived (obj usage) ≡ some v
    → (out : Fields) × (n : ℤ) × (real_input : ℤ) × (v ≡ obj out)
      × (int_of_json f (or_else (get "input_tokens" usage) (int (pos 0))) ≡ some real_input)
      × (get "input_tokens" out ≡ some (int n))
      × (get "spillover_real_input_tokens" out ≡ some (int real_input))
      × IsReported f env real_input n
      × ((k : String)
          → str_eq k "input_tokens" ≡ false
          → str_eq k "spillover_real_input_tokens" ≡ false
          → get k out ≡ get k usage)
unfolding rewrite_usage
rewrite_usage-IsReported f env tokens_archived usage v some_usage e =
    elim (Option-cases (int_of_json f (or_else (get "input_tokens" usage) (int (pos 0))))) [
      | inl bad ↦
          absurd (let k : none ≡ some v = rw (some_usage, bad, rewrite_usage) at e in ground arith)
      | inr (real_input, good) ↦
          let n = new_input f env real_input tokens_archived in
          let told = put "input_tokens" (int n) usage in
          let k : some (obj (with_usage n real_input usage)) ≡ some v =
            rw (some_usage, good, rewrite_usage) at e in
          let e' : obj (with_usage n real_input usage) ≡ v = ground arith in
          (
            with_usage n real_input usage,
            n,
            real_input,
            sym e',
            good,
            get-put_other "spillover_real_input_tokens" "input_tokens" (int real_input) told refl
                ∙ get-put "input_tokens" (int n) usage,
            get-put "spillover_real_input_tokens" (int real_input) told,
            new_input-IsReported f env real_input tokens_archived,
            λ k a b.
                get-put_other "spillover_real_input_tokens" k (int real_input) told b
                ∙ get-put_other "input_tokens" k (int n) usage a,
          )
    ]
