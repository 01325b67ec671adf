-- ===== src/Retriever/Walks/Reached.antt =====
-- What `causality_chain` of src/spillover/retriever/causal.py returns.
use spillover.Prelude.{
  ℕ, zero, suc, ◌+◌, ◌≤◌, String, ◌≡◌, sym, subst, Bool, true, false, not, some, List, [], ◌∷◌,
  ◌++◌, ◌⊎◌, inl, inr, arith, All, All-append, All-if, All-imp, All-keep_strong, All-map, any, keep,
  map, take, length, length-take, ltb, str_eq, eq_iff, if◌then◌else◌, Bool-cases, Option-cases,
}
use spillover.Runtime.{Floats}
use spillover.Storage.{contains}
use spillover.Retriever.Walks.{
  GraphQueries, Scores, insert_score, sort_scores, set_if_larger, set_all, chain_round, chain_from,
  decay_of_hop, causal_hit, causality_chain,
}

All-of_contains :
    (P : String → Type 0) (xs : List String)
    → ((x : String) → contains x xs ≡ true → P x)
    → All P xs
All-of_contains P [] h = tt
All-of_contains P (x ∷ xs) h =
    (h x (ground (arith, eq_iff x x)), All-of_contains P xs (λ y k. h y (ground arith)))

contains-All :
    (P : String → Type 0) (x : String) (xs : List String) → All P xs → contains x xs ≡ true → P x
contains-All P x [] h k = absurd (ground arith)
contains-All P x (y ∷ ys) h k = elim (Bool-cases (str_eq x y)) [
  | inl same ↦ subst P (sym ((eq_iff x y).0 same)) h.0
  | inr other ↦ contains-All P x ys h.1 (rw other at k)
]

All-take : {A : Type 0} (P : A → Type 0) (n : ℕ) (xs : List A) → All P xs → All P (take n xs)
All-take P zero xs h = tt
All-take P (suc n) [] h = tt
All-take P (suc n) (x ∷ xs) h = (h.0, All-take P n xs h.1)

module _ (f : Floats) (queries : GraphQueries f.Float) (seeds : List String) (limit : ℕ) where
  -- One query at `a` answers with `b`.
  abbrev pub IsNext : String → String → Type 0
  IsNext a b =
      (bs : List String) × ((queries.followers a limit ≡ some bs)
        ⊎ (queries.predecessors a limit ≡ some bs))
      × (contains b bs ≡ true)

  -- A chain of so many edges, either way, from a seed.
  pub data Chain : ℕ → String → Type 0 where
    from_seed : {a : String} → contains a seeds ≡ true → Chain zero a
    along : {n : ℕ} {a b : String} → Chain n a → IsNext a b → Chain (suc n) b

  -- No seed, and at the end of a chain of at most `depth` edges.
  abbrev pub IsReached : ℕ → String → Type 0
  IsReached depth i = (contains i seeds ≡ false) × (n : ℕ) × (n ≤ depth) × Chain n i

  -- The scores on the way: seeds are still among them.
  abbrev InReach : ℕ → Scores f → Type 0
  InReach depth = All (λ s. (n : ℕ) × (n ≤ depth) × Chain n s.0)

  set_if_larger-InReach :
      (depth : ℕ) (decay : f.Float) (i : String) (ss : Scores f)
      → (n : ℕ) → n ≤ depth
      → Chain n i
      → InReach depth ss
      → InReach depth (set_if_larger f queries decay i ss)
  unfolding set_if_larger
  set_if_larger-InReach depth decay i [] n le k h = ((n, le, k), tt)
  set_if_larger-InReach depth decay i (s ∷ ss) n le k h =
      All-if (λ (t : String × f.Float). (m : ℕ) × (m ≤ depth) × Chain m t.0) (str_eq s.0 i) _ _
        (All-if (λ (t : String × f.Float). (m : ℕ) × (m ≤ depth) × Chain m t.0) (f.lt_f s.1 decay) _
          _ ((n, le, k), h.1) h)
        (h.0, set_if_larger-InReach depth decay i ss n le k h.1)

  set_all-InReach :
      (n : ℕ) (decay : f.Float) (is : List String) (ss : Scores f)
      → All (Chain n) is
      → InReach n ss
      → InReach n (set_all f queries decay is ss)
  unfolding set_all
  set_all-InReach n decay [] ss k h = h
  set_all-InReach n decay (i ∷ is) ss k h =
      set_all-InReach n decay is (set_if_larger f queries decay i ss) k.1
        (set_if_larger-InReach n decay i ss n (omega arith) k.0 h)

  answered-Chain :
      (n : ℕ) (a : String) (bs : List String)
      → Chain n a
      → ((queries.followers a limit ≡ some bs) ⊎ (queries.predecessors a limit ≡ some bs))
      → All (Chain (suc n)) bs
  answered-Chain n a bs k answer =
      All-of_contains (Chain (suc n)) bs (λ b listed. along k (bs, answer, listed))

  -- What a round of the loop leaves.
  abbrev AreInReach : ℕ → Scores f × List String → Type 0
  AreInReach n s = InReach n s.0 × All (Chain n) s.1

  chain_round-AreInReach :
      (n : ℕ) (decay : f.Float) (goes_on : Bool) (front : List String) (s : Scores f × List String)
      → All (Chain n) front
      → AreInReach (suc n) s
      → AreInReach (suc n) (chain_round f queries limit decay goes_on front s)
  unfolding chain_round
  chain_round-AreInReach n decay goes_on [] s k h = h
  chain_round-AreInReach n decay goes_on (a ∷ front) (scores, frontier) k h =
      elim (Option-cases (queries.followers a limit)) [
        | inl failed ↦
            rw (failed, chain_round)
              (chain_round-AreInReach n decay goes_on front (scores, frontier) k.1 h)
        | inr (after, found) ↦
            let on = answered-Chain n a after k.0 (inl found) in
            elim (Option-cases (queries.predecessors a limit)) [
              | inl failed ↦
                  rw (found, failed, chain_round)
                    (chain_round-AreInReach n decay goes_on front _ k.1
                      (set_all-InReach (suc n) decay after scores on h.0, fronts after on))
              | inr (before, found') ↦
                  let back = answered-Chain n a before k.0 (inr found') in
                  rw (found, found', chain_round)
                    (chain_round-AreInReach n decay goes_on front _ k.1 (
                      set_all-InReach (suc n) decay before _ back
                          (set_all-InReach (suc n) decay after scores on h.0),
                      fronts (after ++ before) (All-append (Chain (suc n)) after before on back),
                    ))
            ]
      ]
    where
      fronts :
          (is : List String)
          → All (Chain (suc n)) is
          → All (Chain (suc n)) (if goes_on then frontier ++ is else frontier)
      fronts is ks =
          All-if (Chain (suc n)) goes_on (frontier ++ is) frontier
            (All-append (Chain (suc n)) frontier is h.1 ks) h.1

  InReach-mono : (m n : ℕ) (ss : Scores f) → m ≤ n → InReach m ss → InReach n ss
  InReach-mono m n ss le h = All-imp _ _ ss (λ s (k, small, c). (k, omega arith, c)) h

  insert_score-All :
      (P : String × f.Float → Type 0) (s : String × f.Float) (ss : Scores f)
      → P s
      → All P ss
      → All P (insert_score f s ss)
  unfolding insert_score
  insert_score-All P s [] k h = (k, tt)
  insert_score-All P s (t ∷ ts) k h =
      All-if P (f.lt_f s.1 t.1) _ _ (h.0, insert_score-All P s ts k h.1) (k, h)

  sort_scores-All :
      (P : String × f.Float → Type 0) (ss : Scores f) → All P ss → All P (sort_scores f ss)
  unfolding sort_scores
  sort_scores-All P [] h = tt
  sort_scores-All P (s ∷ ss) h =
      insert_score-All P s (sort_scores f ss) h.0 (sort_scores-All P ss h.1)

  module _
      (listed_lists : (x : String) (xs : List String)
        → contains x (queries.listed xs) ≡ true
        → contains x xs ≡ true) where
    listed-All : (P : String → Type 0) (xs : List String) → All P xs → All P (queries.listed xs)
    listed-All P xs h =
        All-of_contains P (queries.listed xs) (λ x k. contains-All P x xs h (listed_lists x xs k))

    chain_from-InReach :
        (left n : ℕ) (front : List String) (scores : Scores f)
        → All (Chain n) front
        → InReach n scores
        → InReach (left + n) (chain_from f queries seeds limit left (suc n) front scores)
    unfolding chain_from
    chain_from-InReach zero n front scores k h = InReach-mono n (zero + n) scores (omega arith) h
    chain_from-InReach (suc left) n [] scores k h =
        InReach-mono n (suc left + n) scores (omega arith) h
    chain_from-InReach (suc left) n (a ∷ front) scores k h =
        let out =
          chain_round f queries limit (decay_of_hop f queries (suc n)) (ltb 0 left) (a ∷ front)
            (scores, []) in
        let (reached, ends) =
          chain_round-AreInReach n (decay_of_hop f queries (suc n)) (ltb 0 left) (a ∷ front)
            (scores, []) k (InReach-mono n (suc n) scores (omega arith) h, tt) in
        let rest =
          chain_from-InReach left (suc n) _ out.0
            (listed-All (Chain (suc n)) _ (All-keep_strong _ _ _ out.1 (λ x p c. c) ends))
            reached in
        InReach-mono (left + suc n) (suc left + n) _ (omega arith) rest

-- Where the listing of a set adds nothing, the causal walk returns at most `limit` episodes, no seed
-- among them, and each at the end of a chain of at most `depth` edges, followed either way, from one
-- of the seeds.
pub causality_chain-AreReached :
    (f : Floats) (queries : GraphQueries f.Float) (seeds : List String) (depth limit : ℕ)
    → ((x : String) (xs : List String)
        → contains x (queries.listed xs) ≡ true
        → contains x xs ≡ true)
    → (length (causality_chain f queries seeds depth limit) ≤ limit)
      × All
          (λ h. IsReached f queries seeds limit depth h.episode_id)
          (causality_chain f queries seeds depth limit)
unfolding causality_chain
causality_chain-AreReached f queries [] depth limit lists = (omega arith, tt)
causality_chain-AreReached f queries (i ∷ is) depth limit lists =
    let seeds = i ∷ is in
    let begin = All-of_contains (Chain f queries seeds limit zero) seeds (λ x k. from_seed k) in
    let scores = chain_from f queries seeds limit depth 1 seeds [] in
    let reached = chain_from-InReach f queries seeds limit lists depth zero seeds [] begin tt in
    let kept =
      All-keep_strong _ (λ s. IsReached f queries seeds limit depth s.0)
        (λ s. not (any (str_eq s.0) seeds)) scores
        (λ s p (n, le, chain). (ground arith, n, omega arith, chain)) reached in
    let sorted =
      sort_scores-All f queries seeds limit (λ s. IsReached f queries seeds limit depth s.0) _
        kept in
    (
      omega (
        arith,
        length-take limit (
            map (causal_hit f queries)
              (sort_scores f (keep (λ s. not (any (str_eq s.0) seeds)) scores))),
      ),
      All-take _ limit _ (All-map _ _ (causal_hit f queries) _ (λ s k. k) sorted),
    )
