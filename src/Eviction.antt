-- ===== src/Eviction.antt =====
-- src/spillover/eviction/selector.py, function by function: the turns that leave the active window. Weights are compared exactly, by cross
-- multiplication, where the source compares two floats; the two agree below 2^26 tokens.
pub mod Drain
pub mod Order
pub mod Passes
pub mod Chosen
pub mod Contract
use spillover.Prelude.{
  ℕ, suc, ◌+◌, ◌-◌, ◌*◌, max, String, Bool, true, false, not, ◌&&◌, ◌||◌, Option, none, some, List,
  [], ◌∷◌, ◌++◌, ltb, leb, str_eq, if◌then◌else◌, length, any, keep,
}

pub record ActiveTurn : Type 0 where
  pub index : ℕ
  pub token_count : ℕ
  pub role : String
  pub pinned : Bool
  pub memory_type : Option String
  pub is_system : Bool
  pub density : ℕ

pub record SelectionResult : Type 0 where
  pub evicted_indexes : List ℕ
  pub tokens_freed : ℕ
  pub pass_used : ℕ
  pub budget_pressure : Bool

-- `_weight(t) > _weight(u)`, both fractions multiplied out.
abbrev pub heavier : ActiveTurn → ActiveTurn → Bool
heavier t u = ltb (u.token_count * max 1 t.density) (t.token_count * max 1 u.density)

-- `(-_weight(t), t.index) < (-_weight(u), u.index)`
unfoldable pub key_lt : ActiveTurn → ActiveTurn → Bool
key_lt t u = heavier t u || not (heavier u t) && ltb t.index u.index

-- `sorted` by that key, as a stable insertion sort.
unfoldable pub insert_sorted : ActiveTurn → List ActiveTurn → List ActiveTurn
insert_sorted t [] = t ∷ []
insert_sorted t (u ∷ us) = if key_lt u t then u ∷ insert_sorted t us else t ∷ u ∷ us

unfoldable pub sort_by_key : List ActiveTurn → List ActiveTurn
sort_by_key [] = []
sort_by_key (t ∷ ts) = insert_sorted t (sort_by_key ts)

unfoldable pub ordered_candidates : List ActiveTurn → List ActiveTurn
ordered_candidates cands = if any (λ t. ltb 0 t.density) cands then sort_by_key cands else cands

abbrev pub is_priority : ActiveTurn → Bool
is_priority t = elim t.memory_type [ none ↦ false | some m ↦ str_eq m "priority" ]

-- The comprehension over `enumerate(turns)` with the test `i < cutoff`; `i` counts on.
unfoldable pub before_cutoff : (ActiveTurn → Bool) → ℕ → ℕ → List ActiveTurn → List ActiveTurn
before_cutoff p i cutoff [] = []
before_cutoff p i cutoff (t ∷ ts) =
    let rest = before_cutoff p (suc i) cutoff ts in if p t && ltb i cutoff then t ∷ rest else rest

abbrev pub is_movable : ActiveTurn → Bool
is_movable t = not t.is_system && not t.pinned

abbrev pub is_plain : ActiveTurn → Bool
is_plain t = is_movable t && not (is_priority t)

unfoldable pub evictable_pass1 : List ActiveTurn → ℕ → List ActiveTurn
evictable_pass1 [] recent_buffer = []
evictable_pass1 (t ∷ ts) recent_buffer =
    ordered_candidates (before_cutoff is_plain 0 (length (t ∷ ts) - recent_buffer) (t ∷ ts))

unfoldable pub evictable_pass2 : List ActiveTurn → ℕ → List ActiveTurn
evictable_pass2 [] recent_buffer = []
evictable_pass2 (t ∷ ts) recent_buffer =
    let candidates = before_cutoff is_movable 0 (length (t ∷ ts) - recent_buffer) (t ∷ ts) in
    ordered_candidates (keep (λ u. not (is_priority u)) candidates)
    ++ ordered_candidates (keep is_priority candidates)

-- What a pass has done when its loop ends: the indexes, the tokens, and whether it freed enough.
pub record Drained : Type 0 where
  pub evicted : List ℕ
  pub freed : ℕ
  pub enough : Bool

-- The loop of either pass, with its two accumulators.
unfoldable pub drain : ℕ → List ℕ → ℕ → List ActiveTurn → Drained
drain tokens_to_free evicted freed [] = record { evicted = evicted; freed = freed; enough = false }
drain tokens_to_free evicted freed (t ∷ ts) =
    let rest = drain tokens_to_free (evicted ++ t.index ∷ []) (freed + t.token_count) ts in
    if leb tokens_to_free (freed + t.token_count)
    then record { evicted = evicted ++ t.index ∷ []; freed = freed + t.token_count; enough = true }
    else rest

abbrev pub no_selection : SelectionResult
no_selection = record {
  evicted_indexes = [];
  tokens_freed = 0;
  pass_used = 0;
  budget_pressure = false;
}

abbrev pub result_of : Drained → ℕ → Bool → SelectionResult
result_of d pass pressure = record {
  evicted_indexes = d.evicted;
  tokens_freed = d.freed;
  pass_used = pass;
  budget_pressure = pressure;
}

unfoldable pub select_for_eviction : List ActiveTurn → ℕ → ℕ → SelectionResult
select_for_eviction turns tokens_to_free recent_buffer =
    let pass1 = drain tokens_to_free [] 0 (evictable_pass1 turns recent_buffer) in
    let pass2 = drain tokens_to_free [] 0 (evictable_pass2 turns recent_buffer) in
    if leb tokens_to_free 0
    then no_selection
    else if pass1.enough
    then result_of pass1 1 false
    else if pass2.enough
    then result_of pass2 2 false
    else result_of pass2 3 true
