-- ===== src/Retriever/Walks/Direct.antt =====
-- That `graph_walk` of src/spillover/retriever/graph.py returns what its first query finds.
use spillover.Prelude.{
  ℕ, zero, suc, ◌+◌, ◌≤◌, String, ◌≡◌, refl, ap, sym, ◌∙◌, Bool, true, ◌||◌, Option, none, some,
  List, [], ◌∷◌, inl, inr, arith, any, take, length, leb, str_eq, eq_iff, Bool-cases,
}
use spillover.Runtime.{Floats}
use spillover.Storage.{contains}
use spillover.Retriever.{Hit}
use spillover.Retriever.Walks.{
  Meta, GraphQueries, Scores, raise_score, raise_scores, insert_score, sort_scores, graph_hit,
  graph_hits_of, graph_walk,
}

pub take-all : {A : Type 0} (n : ℕ) (xs : List A) → length xs ≤ n → take n xs ≡ xs
take-all zero [] h = refl
take-all zero (x ∷ xs) h = absurd (omega arith)
take-all (suc n) [] h = refl
take-all (suc n) (x ∷ xs) h = ap (◌∷◌ x) (take-all n xs (omega arith))

module _ (f : Floats) where
  -- The episode has a score.
  abbrev is_scored : String → Scores f → Bool
  is_scored i = any (λ s. str_eq s.0 i)

  is_scored-raise_score_self :
      (x : f.Float) (i : String) (ss : Scores f) → is_scored i (raise_score f x i ss) ≡ true
  unfolding raise_score
  is_scored-raise_score_self x i [] = ground (arith, eq_iff i i)
  is_scored-raise_score_self x i (s ∷ ss) = elim (Bool-cases (str_eq s.0 i)) [
    | inl here ↦ rw here (ground (arith, eq_iff i i))
    | inr past ↦ rw past (rw past (is_scored-raise_score_self x i ss))
  ]

  is_scored-raise_score :
      (x : f.Float) (i j : String) (ss : Scores f)
      → is_scored i ss ≡ true
      → is_scored i (raise_score f x j ss) ≡ true
  unfolding raise_score
  is_scored-raise_score x i j [] h = absurd (ground arith)
  is_scored-raise_score x i j (s ∷ ss) h = elim (Bool-cases (str_eq s.0 j)) [
    | inl here ↦ rw here (ap (λ k. str_eq k i || is_scored i ss) (sym ((eq_iff s.0 j).0 here)) ∙ h)
    | inr past ↦ rw past (ground (arith, is_scored-raise_score x i j ss))
  ]

  is_scored-raise_scores :
      (x : f.Float) (i : String) (is : List String) (ss : Scores f)
      → is_scored i ss ≡ true
      → is_scored i (raise_scores f x is ss) ≡ true
  unfolding raise_scores
  is_scored-raise_scores x i [] ss h = h
  is_scored-raise_scores x i (j ∷ is) ss h =
      is_scored-raise_scores x i is (raise_score f x j ss) (is_scored-raise_score x i j ss h)

  is_scored-found :
      (x : f.Float) (i : String) (is : List String) (ss : Scores f)
      → contains i is ≡ true
      → is_scored i (raise_scores f x is ss) ≡ true
  unfolding raise_scores
  is_scored-found x i [] ss h = absurd (ground arith)
  is_scored-found x i (j ∷ is) ss h = elim (Bool-cases (str_eq i j)) [
    | inl here ↦ is_scored-raise_scores x i is (raise_score f x j ss) (
        ap (λ k. is_scored i (raise_score f x k ss)) (sym_eq here)
        ∙ is_scored-raise_score_self x i ss)
    | inr past ↦ is_scored-found x i is (raise_score f x j ss) (rw past at h)
  ]
    where
      sym_eq : str_eq i j ≡ true → j ≡ i
      sym_eq e = ground (arith, eq_iff i j)

  length-raise_score :
      (x : f.Float) (i : String) (ss : Scores f) → length (raise_score f x i ss) ≤ suc (length ss)
  unfolding raise_score
  length-raise_score x i [] = omega arith
  length-raise_score x i (s ∷ ss) = ground (arith, length-raise_score x i ss)

  length-raise_scores :
      (x : f.Float) (is : List String) (ss : Scores f)
      → length (raise_scores f x is ss) ≤ length is + length ss
  unfolding raise_scores
  length-raise_scores x [] ss = omega arith
  length-raise_scores x (i ∷ is) ss =
      omega (arith, length-raise_score x i ss, length-raise_scores x is (raise_score f x i ss))

  insert_score_effect :
      (i : String) (s : String × f.Float) (ss : Scores f)
      → (is_scored i (insert_score f s ss) ≡ is_scored i (s ∷ ss))
        × (length (insert_score f s ss) ≡ suc (length ss))
  unfolding insert_score
  insert_score_effect i s [] = (refl, refl)
  insert_score_effect i s (t ∷ ts) =
      let (same, longer) = insert_score_effect i s ts in
      elim (Bool-cases (f.lt_f s.1 t.1)) [
        | inl behind ↦ rw behind (ground arith, ap suc longer)
        | inr before ↦ rw before (refl, refl)
      ]

  sort_scores_effect :
      (i : String) (ss : Scores f)
      → (is_scored i (sort_scores f ss) ≡ is_scored i ss) × (length (sort_scores f ss) ≡ length ss)
  unfolding sort_scores
  sort_scores_effect i [] = (refl, refl)
  sort_scores_effect i (s ∷ ss) =
      let (same, long) = sort_scores_effect i ss in
      let (same', long') = insert_score_effect i s (sort_scores f ss) in
      (same' ∙ ap (λ b. str_eq s.0 i || b) same, long' ∙ ap suc long)

  graph_hit-id :
      (s : String × f.Float) (meta : Option (Meta f.Float)) → (graph_hit f s meta).episode_id ≡ s.0
  graph_hit-id s none = refl
  graph_hit-id s (some meta) = refl

  -- One of the hits is the episode.
  abbrev pub is_returned : String → List (Hit f.Float) → Bool
  is_returned i = any (λ h. str_eq h.episode_id i)

  module _ (queries : GraphQueries f.Float) where
    graph_hits_of-returned :
        (known : (i : String) → (meta : Option (Meta f.Float)) × (queries.meta_of i ≡ some meta))
        (i : String) (ss : Scores f)
        → (hits : List (Hit f.Float)) × (graph_hits_of f queries ss ≡ some hits)
          × (is_returned i hits ≡ is_scored i ss)
    unfolding graph_hits_of
    graph_hits_of-returned known i [] = ([], refl, refl)
    graph_hits_of-returned known i (s ∷ ss) =
        let (hits, found, same) = graph_hits_of-returned known i ss in
        let (meta, told) = known s.0 in
        (
          graph_hit f s meta ∷ hits,
          rw (told, found, graph_hits_of) refl,
          ap (λ k. str_eq k i || is_returned i hits) (graph_hit-id s meta)
              ∙ ap (λ b. str_eq s.0 i || b) same,
        )

    -- Where the queries raise nothing and the limit is no less than the rows of both, the walk returns
    -- each episode that mentions one of the entities.
    pub graph_walk-direct :
        (known : (i : String) → (meta : Option (Meta f.Float)) × (queries.meta_of i ≡ some meta))
        (names direct shared : List String) (name i : String) (k_hop limit : ℕ)
        → queries.mentioning (name ∷ names) limit ≡ some direct
        → queries.sharing (name ∷ names) limit ≡ some shared
        → contains i direct ≡ true
        → length direct + length shared ≤ limit
        → (hits : List (Hit f.Float)) × (graph_walk f queries (name ∷ names) k_hop limit
            ≡ some hits)
          × (is_returned i hits ≡ true)
    unfolding graph_walk
    graph_walk-direct known names direct shared name i k_hop limit one two listed fits =
        let first = raise_scores f (f.literal "1.0") direct [] in
        let both = raise_scores f (f.literal "0.5") shared first in
        let scored = is_scored-found (f.literal "1.0") i direct [] listed in
        elim (Bool-cases (leb 2 k_hop)) [
          | inl far ↦
              let (hits, found, same) = returned both (
                omega (
                  arith,
                  length-raise_scores (f.literal "1.0") direct [],
                  length-raise_scores (f.literal "0.5") shared first,
                )) in
              (
                hits,
                rw (one, two, far, graph_walk) found,
                same ∙ is_scored-raise_scores (f.literal "0.5") i shared first scored,
              )
          | inr near ↦
              let (hits, found, same) =
                returned first (omega (arith, length-raise_scores (f.literal "1.0") direct [])) in
              (hits, rw (one, near, graph_walk) found, same ∙ scored)
        ]
      where
        returned :
            (ss : Scores f)
            → length ss ≤ limit
            → (hits : List (Hit f.Float)) × (graph_hits_of f queries (take limit (sort_scores f ss))
                ≡ some hits)
              × (is_returned i hits ≡ is_scored i ss)
        returned ss few =
            let (same, long) = sort_scores_effect i ss in
            let all = take-all limit (sort_scores f ss) (omega (arith, long)) in
            let (hits, found, same') = graph_hits_of-returned known i (sort_scores f ss) in
            (hits, ap (graph_hits_of f queries) all ∙ found, same' ∙ same)
