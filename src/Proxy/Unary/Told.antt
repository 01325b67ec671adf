-- ===== src/Proxy/Unary/Told.antt =====
-- The usage that the client of an answer is told, in numbers (`_handle_request` of
-- src/spillover/proxy/app.py with src/spillover/counter_compact/usage_rewrite.py).
use spillover.Prelude.{
  ℕ, String, ◌≡◌, refl, ◌∙◌, subst, true, false, ◌||◌, Option, none, some, inl, inr, arith, str_eq,
  ltb, or_else, ℤ, pos, max_ℤ, min_ℤ, ◌-ℤ◌, ◌≤ℤ◌, Option-cases, Bool-cases, if◌then◌else◌,
}
use spillover.Json.{Json, null, bool, int, real, str, arr, obj, Fields, end, get, put, truthy}
use spillover.Json.Keys.{get-put, get-put_other}
use spillover.Runtime.{Codec, Floats, Environ}
use spillover.Proxy.Budget.{env_int}
use spillover.CounterCompact.Usage.{
  int_of_json, new_input, with_usage, rewrite_usage, rewrite_response_json,
}
use spillover.CounterCompact.Events.{is_cap_active}
use spillover.Proxy.Unary.{rewritten}

module _ (f : Floats) (env : Environ) (subtract : ℕ) where
  abbrev cap : ℤ
  cap = env_int f env "SPILLOVER_REPORTED_INPUT_CAP" (pos 0)

  -- The count less what is subtracted, at least one, and at most the cap where one is set.
  abbrev pub IsReduced : ℤ → ℤ → Type 0
  IsReduced real_input n =
      (cap ≤ℤ pos 0 → n ≡ max_ℤ (pos 1) (real_input -ℤ pos subtract))
      × (pos 1 ≤ℤ cap → n ≡ min_ℤ (max_ℤ (pos 1) (real_input -ℤ pos subtract)) cap)

  new_input-IsReduced :
      (real_input : ℤ) → IsReduced real_input (new_input f env real_input (pos subtract))
  unfolding new_input max_ℤ
  new_input-IsReduced real_input = (λ h. ground arith, λ h. ground arith)

  -- The usage in a body, before and after: none, one that counts as false and is kept, or one whose
  -- input tokens are reduced, with the real count beside them and its other keys kept.
  pub data IsUsageTold : Option Json → Option Json → Type 0 where
    missing : IsUsageTold none none
    blank : {v : Json} → truthy v ≡ false → IsUsageTold (some v) (some v)
    reduced :
        (u u' : Fields) (real_input n : ℤ)
        → int_of_json f (or_else (get "input_tokens" u) (int (pos 0))) ≡ some real_input
        → get "input_tokens" u' ≡ some (int n)
        → get "spillover_real_input_tokens" u' ≡ some (int real_input)
        → IsReduced real_input n
        → ((k : String)
            → str_eq k "input_tokens" ≡ false
            → str_eq k "spillover_real_input_tokens" ≡ false
            → get k u' ≡ get k u)
        → IsUsageTold (some (obj u)) (some (obj u'))

  other :
      (v v' : Json)
      → ◌≡◌ {A = Option Json} (if truthy v then none else some v) (some v')
      → IsUsageTold (some v) (some v')
  other v v' e = elim (Bool-cases (truthy v)) [
    | inl full ↦ absurd (ground arith)
    | inr empty ↦
        let k : some v ≡ some v' = rw empty at e in
        let k' : v ≡ v' = ground arith in
        subst (λ w. IsUsageTold (some v) (some w)) k' (blank empty)
  ]

  rewrite_usage-IsUsageTold :
      (v v' : Json)
      → rewrite_usage f env (pos subtract) v ≡ some v'
      → IsUsageTold (some v) (some v')
  unfolding rewrite_usage
  rewrite_usage-IsUsageTold (obj u) v' e = elim (Bool-cases (truthy (obj u))) [
    | inr empty ↦
        let k : some (obj u) ≡ some v' = rw (empty, rewrite_usage) at e in
        let k' : obj u ≡ v' = ground arith in
        subst (λ w. IsUsageTold (some (obj u)) (some w)) k' (blank empty)
    | inl full ↦
        elim (Option-cases (int_of_json f (or_else (get "input_tokens" u) (int (pos 0))))) [
          | inl bad ↦
              absurd (let k : none ≡ some v' = rw (full, bad, rewrite_usage) at e in ground arith)
          | inr (real_input, good) ↦
              let n = new_input f env real_input (pos subtract) in
              let told = put "input_tokens" (int n) u in
              let k : some (obj (with_usage n real_input u)) ≡ some v' =
                rw (full, good, rewrite_usage) at e in
              let k' : obj (with_usage n real_input u) ≡ v' = ground arith in
              subst (λ w. IsUsageTold (some (obj u)) (some w)) k'
                (reduced u (with_usage n real_input u) real_input n good
                  (get-put_other "spillover_real_input_tokens" "input_tokens" (int real_input) told
                      refl
                    ∙ get-put "input_tokens" (int n) u)
                  (get-put "spillover_real_input_tokens" (int real_input) told)
                  (new_input-IsReduced real_input)
                  (λ j a b.
                    get-put_other "spillover_real_input_tokens" j (int real_input) told b
                    ∙ get-put_other "input_tokens" j (int n) u a))
        ]
  ]
  rewrite_usage-IsUsageTold null v' e = other null v' e
  rewrite_usage-IsUsageTold (bool b) v' e = other (bool b) v' e
  rewrite_usage-IsUsageTold (int n) v' e = other (int n) v' e
  rewrite_usage-IsUsageTold (real s) v' e = other (real s) v' e
  rewrite_usage-IsUsageTold (str s) v' e = other (str s) v' e
  rewrite_usage-IsUsageTold (arr xs) v' e = other (arr xs) v' e

  -- A body as a dict, before and after: all its keys but the usage are the same.
  abbrev pub IsBodyTold : Fields → Fields → Type 0
  IsBodyTold d d' =
      IsUsageTold (get "usage" d) (get "usage" d')
      × ((k : String) → str_eq k "usage" ≡ false → get k d' ≡ get k d)

  rewrite_response_json-IsBodyTold :
      (d d' : Fields) → rewrite_response_json f env (pos subtract) d ≡ some d' → IsBodyTold d d'
  unfolding rewrite_response_json
  rewrite_response_json-IsBodyTold d d' e = elim (Option-cases (get "usage" d)) [
    | inl bare ↦
        let k : some d ≡ some d' = rw (bare, rewrite_response_json) at e in
        let k' : d ≡ d' = ground arith in subst (IsBodyTold d) k' (rw bare missing, λ j a. refl)
    | inr (v, given) ↦ elim (Option-cases (rewrite_usage f env (pos subtract) v)) [
      | inl bad ↦
          absurd
            (let k : none ≡ some d' = rw (given, bad, rewrite_response_json) at e in ground arith)
      | inr (v', good) ↦
          let k : some (put "usage" v' d) ≡ some d' =
            rw (given, good, rewrite_response_json) at e in
          let k' : put "usage" v' d ≡ d' = ground arith in
          subst (IsBodyTold d) k' (
            rw (given, get-put "usage" v' d) (rewrite_usage-IsUsageTold v v' good),
            λ j a. get-put_other "usage" j v' d a,
          )
    ]
  ]

  -- The body for the client: as it is, where nothing is subtracted and no cap is set, and else
  -- printed again with its usage reduced.
  pub data IsTold (c : Codec) (body body' : String) : Type 0 where
    as_it_is : subtract ≡ 0 → is_cap_active env ≡ false → body' ≡ body → IsTold c body body'
    printed :
        (d d' : Fields)
        → or_else (c.loads body) (obj end) ≡ obj d
        → IsBodyTold d d'
        → body' ≡ c.dumps_ascii (obj d')
        → IsTold c body body'

  pub rewritten-IsTold :
      (c : Codec) (body body' : String)
      → rewritten f c env subtract body ≡ some body'
      → IsTold c body body'
  unfolding rewritten
  rewritten-IsTold c body body' e = elim (Bool-cases (ltb 0 subtract || is_cap_active env)) [
    | inr idle ↦
        let k : some body ≡ some body' = rw (idle, rewritten) at e in
        as_it_is (ground arith) (ground arith) (ground arith)
    | inl busy ↦ go (or_else (c.loads body) (obj end)) refl busy
  ]
    where
      go :
          (v : Json)
          → or_else (c.loads body) (obj end) ≡ v
          → (ltb 0 subtract || is_cap_active env) ≡ true
          → IsTold c body body'
      go (obj d) eq busy = elim (Option-cases (rewrite_response_json f env (pos subtract) d)) [
        | inl bad ↦
            absurd (let k : none ≡ some body' = rw (busy, eq, bad, rewritten) at e in ground arith)
        | inr (d', good) ↦
            let k : some (c.dumps_ascii (obj d')) ≡ some body' =
              rw (busy, eq, good, rewritten) at e in
            printed d d' eq (rewrite_response_json-IsBodyTold d d' good) (ground arith)
      ]
      go null eq busy =
          absurd (let k : none ≡ some body' = rw (busy, eq, rewritten) at e in ground arith)
      go (bool b) eq busy =
          absurd (let k : none ≡ some body' = rw (busy, eq, rewritten) at e in ground arith)
      go (int n) eq busy =
          absurd (let k : none ≡ some body' = rw (busy, eq, rewritten) at e in ground arith)
      go (real s) eq busy =
          absurd (let k : none ≡ some body' = rw (busy, eq, rewritten) at e in ground arith)
      go (str s) eq busy =
          absurd (let k : none ≡ some body' = rw (busy, eq, rewritten) at e in ground arith)
      go (arr xs) eq busy =
          absurd (let k : none ≡ some body' = rw (busy, eq, rewritten) at e in ground arith)
