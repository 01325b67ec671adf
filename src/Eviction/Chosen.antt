-- ===== src/Eviction/Chosen.antt =====
-- The turns that the policy of src/spillover/eviction/selector.py chooses, and the two passes
-- of the code over them.
use spillover.Prelude.{
  ℕ, ◌≤◌, ◌<◌, ◌≡◌, false, List, [], arith, tests, ltb, leb, Bool-cases, inl, inr, if◌then◌else◌,
  length, take, All, All-imp, All-if, lt→leb-false,
}
use spillover.Eviction.{
  ActiveTurn, SelectionResult, is_priority, ordered_candidates, evictable_pass1, evictable_pass2,
  drain,
}
use spillover.Eviction.Drain.{
  taken, tokens_of, indexes_of, drain-eq-taken, taken-enough, taken-short, taken-minimal, All-taken,
}
use spillover.Eviction.Order.{All-ordered_candidates, tokens_of-ordered_candidates}
use spillover.Eviction.Passes.{
  CanMove, movable, plain, by_priority, pass1-eq-plain, pass2-eq-by_priority, tokens_of-pass1,
  tokens_of-pass2, All-movable, tokens_of-plain-le, All-plain, All-by_priority,
  tokens_of-by_priority,
}

-- The turns that the policy moves out, by what the turns that may move hold together.
abbrev pub chosen : List ActiveTurn → ℕ → ℕ → List ActiveTurn
chosen turns target rb =
    if leb target 0
    then []
    else if leb target (tokens_of (plain turns rb))
    then taken target 0 (ordered_candidates (plain turns rb))
    else taken target 0 (by_priority (movable turns rb))

-- The pass that settles the matter.
abbrev pub pass_needed : List ActiveTurn → ℕ → ℕ → ℕ
pass_needed turns target rb =
    if leb target 0
    then 0
    else if leb target (tokens_of (plain turns rb))
    then 1
    else if leb target (tokens_of (movable turns rb))
    then 2
    else 3

abbrev pub contract : List ActiveTurn → ℕ → ℕ → SelectionResult
contract turns target rb = record {
  evicted_indexes = indexes_of (chosen turns target rb);
  tokens_freed = tokens_of (chosen turns target rb);
  pass_used = pass_needed turns target rb;
  budget_pressure = ltb (tokens_of (movable turns rb)) target;
}

-- Both passes from their start, over the lists of turns that may move.
pub drain-pass1 :
    (turns : List ActiveTurn) (target rb : ℕ)
    → 0 < target
    → drain target [] 0 (evictable_pass1 turns rb) ≡ record {
      evicted = indexes_of (taken target 0 (ordered_candidates (plain turns rb)));
      freed = tokens_of (taken target 0 (ordered_candidates (plain turns rb)));
      enough = leb target (tokens_of (plain turns rb));
    }
drain-pass1 turns target rb h =
    rw (drain-eq-taken target (evictable_pass1 turns rb) h, tokens_of-pass1, pass1-eq-plain)

pub drain-pass2 :
    (turns : List ActiveTurn) (target rb : ℕ)
    → 0 < target
    → drain target [] 0 (evictable_pass2 turns rb) ≡ record {
      evicted = indexes_of (taken target 0 (by_priority (movable turns rb)));
      freed = tokens_of (taken target 0 (by_priority (movable turns rb)));
      enough = leb target (tokens_of (movable turns rb));
    }
drain-pass2 turns target rb h =
    rw (drain-eq-taken target (evictable_pass2 turns rb) h, tokens_of-pass2, pass2-eq-by_priority)

module _ (turns : List ActiveTurn) (target rb : ℕ) where
  pub chosen-CanMove : All (CanMove turns rb) (chosen turns target rb)
  chosen-CanMove =
      let may = All-movable turns rb in
      let may' = All-imp _ (CanMove turns rb) (plain turns rb) (λ t h. h.0) (All-plain turns rb) in
      All-if (CanMove turns rb) (leb target 0) [] _ tt (
        All-if (CanMove turns rb) (leb target (tokens_of (plain turns rb))) _ _
          (All-taken _ target 0 (ordered_candidates (plain turns rb))
            (All-ordered_candidates _ (plain turns rb) may'))
          (All-taken _ target 0 (by_priority (movable turns rb))
            (All-by_priority _ (movable turns rb) may)))

  pub chosen-pass1 :
      pass_needed turns target rb ≡ 1
      → chosen turns target rb ≡ taken target 0 (ordered_candidates (plain turns rb))
  chosen-pass1 h = ground arith

  pub chosen-low :
      pass_needed turns target rb ≡ 1 → All (λ t. is_priority t ≡ false) (chosen turns target rb)
  chosen-low h = rw (chosen-pass1 h) (
      All-taken _ target 0 (ordered_candidates (plain turns rb)) (
        All-ordered_candidates _ (plain turns rb) (
          All-imp _ (λ t. is_priority t ≡ false) (plain turns rb) (λ t h. h.1)
            (All-plain turns rb))))

  pub chosen-minimal :
      (n : ℕ)
      → n < length (chosen turns target rb)
      → tokens_of (take n (chosen turns target rb)) < target
  chosen-minimal n = elim (Bool-cases (leb target 0)) [
    | inl idle ↦ rw idle (λ h. absurd (omega arith))
    | inr work ↦ rw work (elim (Bool-cases (leb target (tokens_of (plain turns rb)))) [
      | inl low ↦ rw low (λ h.
          omega
            (arith, taken-minimal target 0 (ordered_candidates (plain turns rb)) n (omega tests) h))
      | inr high ↦ rw high (λ h.
          omega (arith, taken-minimal target 0 (by_priority (movable turns rb)) n (omega tests) h))
    ])
  ]

  pub chosen-frees :
      0 < target
      → target ≤ tokens_of (movable turns rb)
      → target ≤ tokens_of (chosen turns target rb)
  chosen-frees h k = elim (Bool-cases (leb target (tokens_of (plain turns rb)))) [
    | inl low ↦
        let e = tokens_of-ordered_candidates (plain turns rb) in
        rw (low, lt→leb-false h)
          (omega
            (arith, taken-enough target 0 (ordered_candidates (plain turns rb)) (omega tests) h))
    | inr high ↦
        let e = tokens_of-by_priority (movable turns rb) in
        rw (high, lt→leb-false h)
          (omega (arith, taken-enough target 0 (by_priority (movable turns rb)) (omega arith) h))
  ]

  pub chosen-short :
      tokens_of (movable turns rb) < target
      → tokens_of (chosen turns target rb) ≡ tokens_of (movable turns rb)
  chosen-short h =
      let le = tokens_of-plain-le turns rb in
      let a : leb target 0 ≡ false = ground arith in
      let b : leb target (tokens_of (plain turns rb)) ≡ false = ground arith in
      let e = tokens_of-by_priority (movable turns rb) in
      rw (a, b, taken-short target 0 (by_priority (movable turns rb)) (omega arith)) e
