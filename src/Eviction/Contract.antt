-- ===== src/Eviction/Contract.antt =====
-- What `select_for_eviction` of eviction/selector.py promises to the proxy.
use mathlib.Core.List.{Perm}
use spillover.Prelude.{
  ℕ, ◌≤◌, ◌<◌, ◌≡◌, refl, ◌∙◌, ap, true, false, List, arith, tests, ltb, leb, Bool-cases, inl, inr,
  length, take, any, All,
}
use spillover.Eviction.{
  ActiveTurn, is_priority, ordered_candidates, sort_by_key, select_for_eviction,
}
use spillover.Eviction.Drain.{tokens_of, indexes_of, taken-prefix}
use spillover.Eviction.Order.{IsSorted, sort_by_key-perm, IsSorted-sort_by_key}
use spillover.Eviction.Passes.{CanMove, movable, plain, tokens_of-plain-le}
use spillover.Eviction.Chosen.{
  chosen, contract, drain-pass1, drain-pass2, chosen-CanMove, chosen-pass1, chosen-low,
  chosen-minimal, chosen-frees, chosen-short,
}

-- On every input the code returns what the contract names: the chosen turns, their tokens, the
-- pass, and pressure exactly when all the turns that may move hold less than the target.
pub select_for_eviction-eq-contract :
    (turns : List ActiveTurn) (target rb : ℕ)
    → select_for_eviction turns target rb ≡ contract turns target rb
unfolding select_for_eviction
select_for_eviction-eq-contract turns target rb = elim (Bool-cases (leb target 0)) [
  | inl idle ↦
      rw idle
        (let quiet : ltb (tokens_of (movable turns rb)) target ≡ false = ground arith in rw quiet)
  | inr work ↦
      let h : 0 < target = omega tests in
      let le = tokens_of-plain-le turns rb in
      rw (work, drain-pass1 turns target rb h, drain-pass2 turns target rb h) (ground arith)
]

-- The turns moved out are turns that may move: neither system nor pinned, with at least
-- `recent_buffer` turns behind them; their indexes and their tokens are the result's; when the
-- first pass settles the matter none of them is a priority memory; and nothing is moved out
-- needlessly: any shorter part of the selection holds less than the target.
pub select_for_eviction_protects :
    (turns : List ActiveTurn) (target rb : ℕ)
    → let r = select_for_eviction turns target rb in
      (evicted : List ActiveTurn) × (r.evicted_indexes ≡ indexes_of evicted)
      × (r.tokens_freed ≡ tokens_of evicted)
      × All (CanMove turns rb) evicted
      × (r.pass_used ≡ 1 → All (λ t. is_priority t ≡ false) evicted)
      × ((n : ℕ) → n < length evicted → tokens_of (take n evicted) < target)
select_for_eviction_protects turns target rb = rw select_for_eviction-eq-contract (
  chosen turns target rb,
  refl,
  refl,
  chosen-CanMove turns target rb,
  chosen-low turns target rb,
  chosen-minimal turns target rb,
)

-- With a positive target: if the turns that may move hold at least the target, at least the target
-- is freed and there is no pressure; if they hold less, all of it is freed and pressure is reported.
pub select_for_eviction_frees :
    (turns : List ActiveTurn) (target rb : ℕ)
    → 0 < target
    → let r = select_for_eviction turns target rb in
      (target ≤ tokens_of (movable turns rb)
        → (target ≤ r.tokens_freed) × (r.budget_pressure ≡ false))
      × (tokens_of (movable turns rb) < target
          → (r.tokens_freed ≡ tokens_of (movable turns rb)) × (r.budget_pressure ≡ true))
select_for_eviction_frees turns target rb h = rw select_for_eviction-eq-contract (
  λ k. (chosen-frees turns target rb h k, ground arith),
  λ k. (chosen-short turns target rb k, ground arith),
)

-- Where the first pass settles the matter and no turn that it may move carries density, it moves
-- out the oldest of them: a prefix in the order of the conversation.
select_for_eviction_fifo :
    (turns : List ActiveTurn) (target rb : ℕ)
    → any (λ t. ltb 0 t.density) (plain turns rb) ≡ false
    → (select_for_eviction turns target rb).pass_used ≡ 1
    → (n : ℕ) × ((select_for_eviction turns target rb).evicted_indexes
        ≡ indexes_of (take n (plain turns rb)))
select_for_eviction_fifo turns target rb flat = rw select_for_eviction-eq-contract λ h.
    let (n, e) = taken-prefix target 0 (plain turns rb) in
    (n, ap indexes_of (chosen-pass1 turns target rb h ∙ unfold ordered_candidates in rw flat e))

-- Where some turn that it may move carries density, the first pass goes through them heaviest
-- first: its candidates are those turns, reordered, and none has a smaller key than the one before.
select_for_eviction_weighted :
    (turns : List ActiveTurn) (target rb : ℕ)
    → any (λ t. ltb 0 t.density) (plain turns rb) ≡ true
    → (select_for_eviction turns target rb).pass_used ≡ 1
    → (n : ℕ) × (order : List ActiveTurn) × Perm order (plain turns rb)
      × IsSorted order
      × ((select_for_eviction turns target rb).evicted_indexes ≡ indexes_of (take n order))
select_for_eviction_weighted turns target rb dense = rw select_for_eviction-eq-contract λ h.
    let order = sort_by_key (plain turns rb) in
    let (n, e) = taken-prefix target 0 order in
    (
      n,
      order,
      sort_by_key-perm (plain turns rb),
      IsSorted-sort_by_key (plain turns rb),
      ap indexes_of (chosen-pass1 turns target rb h ∙ unfold ordered_candidates in rw dense e),
    )
