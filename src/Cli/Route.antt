-- ===== src/Cli/Route.antt =====
-- `route on` and `route off` of src/spillover/cli.py against each other.
use spillover.Prelude.{
  String, ◌≡◌, refl, sym, ap, ◌∙◌, Bool, true, false, Option, none, some, List, [], ◌∷◌, any, All,
  str_eq, Bool-cases, Option-cases, inl, inr, if◌then◌else◌, arith,
}
use spillover.Json.{
  Json, null, bool, int, real, arr, str, obj, Fields, end, field, get, put, pop_all,
}
use spillover.Json.Keys.{get-put, get-put_other, get-pop, get-pop_other, get-pop_all}
use spillover.Cli.{
  route_keys, legacy_keys, with_url, routed_env, env_of, route_on, with_env, route_off,
}

-- The variables that the settings give the client: the dict under `env`.
abbrev pub variables_in : Option Json → Fields
variables_in (some (obj env)) = env
variables_in _ = end

abbrev pub variables : Fields → Fields
variables settings = variables_in (get "env" settings)

any-false :
    (k : String) (ks : List String) → any (str_eq k) ks ≡ false → All (λ j. str_eq k j ≡ false) ks
any-false k [] h = tt
any-false k (j ∷ ks) h = (ground arith, any-false k ks (ground arith))

-- The other keys, before `SPILLOVER_PASSIVE` is set or removed.
url_other :
    (base_url : String) (env : Fields) (k : String)
    → All (λ j. str_eq k j ≡ false) route_keys
    → get k (with_url base_url env) ≡ get k env
unfolding with_url
url_other base_url env k (url, (auto, (pct, (a, (b, (d, (e, (g, rest)))))))) =
    let env' = put "ANTHROPIC_BASE_URL" (str base_url) env in
    let env'' = put "DISABLE_AUTO_COMPACT" (str "1") env' in
    let none_of_them : any (str_eq k) legacy_keys ≡ false = rw (a, b, d, e, g) refl in
    get-pop_all k legacy_keys _
    ∙ ap
        (λ found.
          if found then none else get k (put "CLAUDE_AUTOCOMPACT_PCT_OVERRIDE" (str "100") env''))
        none_of_them
    ∙ get-put_other "CLAUDE_AUTOCOMPACT_PCT_OVERRIDE" k (str "100") env'' pct
    ∙ get-put_other "DISABLE_AUTO_COMPACT" k (str "1") env' auto
    ∙ get-put_other "ANTHROPIC_BASE_URL" k (str base_url) env url

passive_apart :
    (k : String) → All (λ j. str_eq k j ≡ false) route_keys → str_eq k "SPILLOVER_PASSIVE" ≡ false
passive_apart k (url, (auto, (pct, (a, (b, (d, (e, (g, (mode, rest))))))))) = mode

-- The writer of the variables touches the routing keys only.
routed_env-other :
    (base_url : String) (passive : Bool) (env : Fields) (k : String)
    → any (str_eq k) route_keys ≡ false
    → get k (routed_env base_url passive env) ≡ get k env
unfolding routed_env
routed_env-other base_url true env k h =
    let all = any-false k route_keys h in
    get-put_other "SPILLOVER_PASSIVE" k (str "1") (with_url base_url env) (passive_apart k all)
    ∙ url_other base_url env k all
routed_env-other base_url false env k h =
    let all = any-false k route_keys h in
    get-pop_other "SPILLOVER_PASSIVE" k (with_url base_url env) (passive_apart k all)
    ∙ url_other base_url env k all

env_of-eq : (o : Option Json) (env : Fields) → env_of o ≡ some env → env ≡ variables_in o
env_of-eq none env e = ground arith
env_of-eq (some (obj env')) env e = ground arith
env_of-eq (some null) env e = ground arith
env_of-eq (some (bool b)) env e = ground arith
env_of-eq (some (int n)) env e = ground arith
env_of-eq (some (real t)) env e = ground arith
env_of-eq (some (str t)) env e = ground arith
env_of-eq (some (arr xs)) env e = ground arith

-- What `route on` writes.
route_on-eq :
    (base_url : String) (passive : Bool) (settings after : Fields)
    → route_on base_url passive settings ≡ some after
    → after ≡ put "env" (obj (routed_env base_url passive (variables settings))) settings
unfolding route_on
route_on-eq base_url passive settings after e = elim (Option-cases (env_of (get "env" settings))) [
  | inl bad ↦ absurd (ground arith)
  | inr (env, good) ↦
      let k : put "env" (obj (routed_env base_url passive env)) settings ≡ after = ground arith in
      sym k
      ∙ ap (λ v. put "env" (obj (routed_env base_url passive v)) settings)
          (env_of-eq (get "env" settings) env good)
]

-- What `route off` makes of a dict.
with_env-variables : (env settings : Fields) → variables (with_env env settings) ≡ env
with_env-variables end settings = ap variables_in (get-pop "env" settings)
with_env-variables (field k v env) settings =
    ap variables_in (get-put "env" (obj (field k v env)) settings)

with_env-other :
    (env settings : Fields) (k : String)
    → str_eq k "env" ≡ false
    → get k (with_env env settings) ≡ get k settings
with_env-other end settings k h = get-pop_other "env" k settings h
with_env-other (field j v env) settings k h = get-put_other "env" k (obj (field j v env)) settings h

-- Routing that is switched on and off again, whatever the address and the mode, leaves the client's
-- other variables and the other settings as they were, and none of the routing variables.
pub route_off-route_on :
    (base_url : String) (passive : Bool) (settings after : Fields)
    → route_on base_url passive settings ≡ some after
    → (final : Fields) × (route_off after ≡ some final)
      × ((k : String)
          → get k (variables final)
            ≡ (if any (str_eq k) route_keys then none else get k (variables settings)))
      × ((k : String) → str_eq k "env" ≡ false → get k final ≡ get k settings)
unfolding route_off
route_off-route_on base_url passive settings after e =
    let env = routed_env base_url passive (variables settings) in
    let on = route_on-eq base_url passive settings after e in
    let found : get "env" after ≡ some (obj env) =
      ap (get "env") on ∙ get-put "env" (obj env) settings in
    let left = pop_all route_keys env in
    let kept : (k : String)
        → get k left ≡ (if any (str_eq k) route_keys then none else get k (variables settings)) =
      λ k. get-pop_all k route_keys env ∙ elim (Bool-cases (any (str_eq k) route_keys)) [
        | inl key ↦ rw key refl
        | inr other ↦ rw other (routed_env-other base_url passive (variables settings) k other)
      ] in
    (
      with_env left after,
      rw (found, route_off) refl,
      λ k. ap (get k) (with_env-variables left after) ∙ kept k,
      λ k h.
          with_env-other left after k h
          ∙ ap (get k) on
          ∙ get-put_other "env" k (obj env) settings h,
    )
