-- ===== src/Retriever/Walks.antt =====
-- src/spillover/retriever/graph.py and src/spillover/retriever/causal.py: the walks over the graph,
-- with its queries as parameters.
pub mod Reached
pub mod Direct
use spillover.Prelude.{
  ℕ, zero, suc, String, Bool, not, Option, none, some, List, [], ◌∷◌, ◌++◌, map, keep, any, take,
  ltb, ◌==◌, leb, str_eq, if◌then◌else◌,
}
use spillover.Runtime.{Floats, max_f}
use spillover.Retriever.{Hit}

-- What a query for an episode tells of it: type, importance and time.
pub record Meta (F : Type 0) : Type 0 where
  pub memory_type : Option String
  pub importance : Option F
  pub ts : Option ℕ

-- The answers of the graph, where an outer `none` is an exception: the episodes that mention one of
-- the entities, those that share an entity with such an episode, what is known of an episode, and
-- the episodes that follow one and those that it follows. `listed` is the order in which Python
-- lists the set of some texts.
pub record GraphQueries (F : Type 0) : Type 0 where
  pub mentioning : List String → ℕ → Option (List String)
  pub sharing : List String → ℕ → Option (List String)
  pub meta_of : String → Option (Option (Meta F))
  pub followers : String → ℕ → Option (List String)
  pub predecessors : String → ℕ → Option (List String)
  pub listed : List String → List String

module _ (f : Floats) where
  -- A dict from episodes to scores.
  abbrev pub Scores : Type 0
  Scores = List (String × f.Float)

  -- `d[eid] = max(d.get(eid, 0.0), score)`
  unfoldable pub raise_score : f.Float → String → Scores → Scores
  raise_score score eid [] = (eid, max_f f (f.literal "0.0") score) ∷ []
  raise_score score eid (s ∷ ss) =
      if str_eq s.0 eid then (eid, max_f f s.1 score) ∷ ss else s ∷ raise_score score eid ss

  unfoldable pub raise_scores : f.Float → List String → Scores → Scores
  raise_scores score [] ss = ss
  raise_scores score (eid ∷ eids) ss = raise_scores score eids (raise_score score eid ss)

  -- `sorted` by the negated score, as a stable insertion sort.
  unfoldable pub insert_score : String × f.Float → Scores → Scores
  insert_score s [] = s ∷ []
  insert_score s (t ∷ ts) = if f.lt_f s.1 t.1 then t ∷ insert_score s ts else s ∷ t ∷ ts

  unfoldable pub sort_scores : Scores → Scores
  sort_scores [] = []
  sort_scores (s ∷ ss) = insert_score s (sort_scores ss)

  abbrev pub graph_hit : String × f.Float → Option (Meta f.Float) → Hit f.Float
  graph_hit s none = record {
    episode_id = s.0;
    score = s.1;
    memory_type = none;
    importance = none;
    ts = none;
    source = "graph";
  }
  graph_hit s (some meta) = record {
    episode_id = s.0;
    score = s.1;
    memory_type = meta.memory_type;
    importance = meta.importance;
    ts = meta.ts;
    source = "graph";
  }

  module _ (queries : GraphQueries f.Float) where
    unfoldable pub graph_hits_of : Scores → Option (List (Hit f.Float))
    graph_hits_of [] = some []
    graph_hits_of (s ∷ ss) = elim (queries.meta_of s.0) [
      | none ↦ none
      | some meta ↦ elim (graph_hits_of ss) [
        | none ↦ none
        | some hits ↦ some (graph_hit s meta ∷ hits)
      ]
    ]

    unfoldable pub graph_walk : List String → ℕ → ℕ → Option (List (Hit f.Float))
    graph_walk [] k_hop limit = some []
    graph_walk (n ∷ ns) k_hop limit = elim (queries.mentioning (n ∷ ns) limit) [
      | none ↦ none
      | some direct ↦
          let first = raise_scores (f.literal "1.0") direct [] in
          let two_hops : Option Scores = elim (queries.sharing (n ∷ ns) limit) [
            | none ↦ none
            | some shared ↦ some (raise_scores (f.literal "0.5") shared first)
          ] in
          elim (if leb 2 k_hop then two_hops else some first) [
            | none ↦ none
            | some scores ↦ graph_hits_of (take limit (sort_scores scores))
          ]
    ]

    -- `decay_by_hop.get(hop, 0.5)`
    abbrev pub decay_of_hop : ℕ → f.Float
    decay_of_hop hop =
        if hop == 1 then f.literal "1.0" else if hop == 2 then f.literal "0.7" else f.literal "0.5"

    -- One row of an answer: the score, where it is new or larger.
    unfoldable pub set_if_larger : f.Float → String → Scores → Scores
    set_if_larger decay eid [] = (eid, decay) ∷ []
    set_if_larger decay eid (s ∷ ss) =
        if str_eq s.0 eid
        then (if f.lt_f s.1 decay then (eid, decay) ∷ ss else s ∷ ss)
        else s ∷ set_if_larger decay eid ss

    unfoldable pub set_all : f.Float → List String → Scores → Scores
    set_all decay [] ss = ss
    set_all decay (eid ∷ eids) ss = set_all decay eids (set_if_larger decay eid ss)

    -- The loop over a frontier, with the scores and the next frontier; an exception of a query skips
    -- the rest of its seed.
    unfoldable pub chain_round :
        ℕ → f.Float → Bool → List String → Scores × List String → Scores × List String
    chain_round limit decay goes_on [] s = s
    chain_round limit decay goes_on (seed ∷ seeds) (scores, frontier) =
        let next : List String → List String =
          λ eids. if goes_on then frontier ++ eids else frontier in
        elim (queries.followers seed limit) [
          | none ↦ chain_round limit decay goes_on seeds (scores, frontier)
          | some after ↦ elim (queries.predecessors seed limit) [
            | none ↦ chain_round limit decay goes_on seeds (set_all decay after scores, next after)
            | some before ↦
                chain_round limit decay goes_on seeds
                  (set_all decay before (set_all decay after scores), next (after ++ before))
          ]
        ]

    -- The loop over the hops, from `hop` on, with the hops that are left.
    unfoldable pub chain_from : List String → ℕ → ℕ → ℕ → List String → Scores → Scores
    chain_from seeds limit zero hop frontier scores = scores
    chain_from seeds limit (suc left) hop frontier scores =
        let out = chain_round limit (decay_of_hop hop) (ltb 0 left) frontier (scores, []) in
        let remaining = queries.listed (keep (λ eid. not (any (str_eq eid) seeds)) out.1) in
        let rest = chain_from seeds limit left (suc hop) remaining out.0 in
        elim frontier [ [] ↦ scores | eid ∷ eids ↦ rest ]

    abbrev pub causal_hit : String × f.Float → Hit f.Float
    causal_hit s = record {
      episode_id = s.0;
      score = s.1;
      memory_type = none;
      importance = none;
      ts = none;
      source = "causal";
    }

    unfoldable pub causality_chain : List String → ℕ → ℕ → List (Hit f.Float)
    causality_chain [] depth limit = []
    causality_chain (i ∷ is) depth limit =
        let seeds = i ∷ is in
        let scores = chain_from seeds limit depth 1 seeds [] in
        take limit (map causal_hit (sort_scores (keep (λ s. not (any (str_eq s.0) seeds)) scores)))
