-- ===== src/Tests/Eviction.antt =====
-- The eviction policy (src/spillover/eviction) on a short conversation.
use spillover.Prelude.{
  ℕ, ◌≤◌, ◌<◌, String, ◌≡◌, refl, Bool, true, false, Option, none, some, List, [], ◌∷◌, arith,
  length, take, All,
}
use spillover.Eviction.{
  ActiveTurn, is_priority, drain, before_cutoff, ordered_candidates, evictable_pass1,
  evictable_pass2, sort_by_key, insert_sorted, key_lt, select_for_eviction,
}
use spillover.Eviction.Drain.{tokens_of, indexes_of}
use spillover.Eviction.Passes.{CanMove, movable}
use spillover.Eviction.Chosen.{contract}
use spillover.Eviction.Contract.{
  select_for_eviction-eq-contract, select_for_eviction_protects, select_for_eviction_frees,
}

abbrev turn : ℕ → ℕ → Bool → Option String → ℕ → ActiveTurn
turn i n pin kind d = record {
  index = i;
  token_count = n;
  role = "user";
  pinned = pin;
  memory_type = kind;
  is_system = false;
  density = d;
}

-- The second is pinned, the third a priority memory; the last is protected by a buffer of one.
abbrev talk : List ActiveTurn
talk =
    turn 0 10 false none 0
    ∷ turn 1 90 true none 0
    ∷ turn 2 20 false (some "priority") 0
    ∷ turn 3 15 false none 0
    ∷ turn 4 50 false none 0
    ∷ []

abbrev dense_talk : List ActiveTurn
dense_talk =
    turn 0 10 false none 0
    ∷ turn 1 40 false none 5
    ∷ turn 2 9 false none 0
    ∷ turn 3 1 false none 0
    ∷ []

first_pass : select_for_eviction talk 12 1 ≡ record {
  evicted_indexes = 0 ∷ 3 ∷ [];
  tokens_freed = 25;
  pass_used = 1;
  budget_pressure = false;
}
unfolding select_for_eviction drain evictable_pass1 evictable_pass2 ordered_candidates before_cutoff
first_pass = refl

second_pass : select_for_eviction talk 30 1 ≡ record {
  evicted_indexes = 0 ∷ 3 ∷ 2 ∷ [];
  tokens_freed = 45;
  pass_used = 2;
  budget_pressure = false;
}
unfolding select_for_eviction drain evictable_pass1 evictable_pass2 ordered_candidates before_cutoff
second_pass = refl

under_pressure : select_for_eviction talk 100 1 ≡ record {
  evicted_indexes = 0 ∷ 3 ∷ 2 ∷ [];
  tokens_freed = 45;
  pass_used = 3;
  budget_pressure = true;
}
unfolding select_for_eviction drain evictable_pass1 evictable_pass2 ordered_candidates before_cutoff
under_pressure = refl

-- The turn of 40 tokens weighs 8, and goes after those of 10 and 9.
by_weight : (select_for_eviction dense_talk 20 1).evicted_indexes ≡ 0 ∷ 2 ∷ 1 ∷ []
unfolding select_for_eviction drain evictable_pass1 evictable_pass2 ordered_candidates before_cutoff
    sort_by_key insert_sorted key_lt
by_weight = refl

select_for_eviction-eq-contract_example : select_for_eviction talk 30 1 ≡ contract talk 30 1
select_for_eviction-eq-contract_example = select_for_eviction-eq-contract talk 30 1

select_for_eviction_protects_example :
    let r = select_for_eviction talk 12 1 in
    (evicted : List ActiveTurn) × (r.evicted_indexes ≡ indexes_of evicted)
    × (r.tokens_freed ≡ tokens_of evicted)
    × All (CanMove talk 1) evicted
    × (r.pass_used ≡ 1 → All (λ t. is_priority t ≡ false) evicted)
    × ((n : ℕ) → n < length evicted → tokens_of (take n evicted) < 12)
select_for_eviction_protects_example = select_for_eviction_protects talk 12 1

select_for_eviction_frees_example :
    let r = select_for_eviction talk 100 1 in
    (100 ≤ tokens_of (movable talk 1) → (100 ≤ r.tokens_freed) × (r.budget_pressure ≡ false))
    × (tokens_of (movable talk 1) < 100
        → (r.tokens_freed ≡ tokens_of (movable talk 1)) × (r.budget_pressure ≡ true))
select_for_eviction_frees_example = select_for_eviction_frees talk 100 1 (omega arith)
