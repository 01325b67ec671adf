-- ===== src/Facet/Walked.antt =====
-- That `graph_walk` of src/spillover/retriever/graph.py returns what the worker of
-- src/spillover/facet/worker.py has filed.
use spillover.Prelude.{
  ℕ, ◌+◌, ◌≤◌, String, ◌≡◌, refl, true, Option, some, List, [], ◌∷◌, ◌++◌, arith, All, length,
  subst,
}
use spillover.Runtime.{Codec, Floats}
use spillover.Storage.{Episode, contains}
use spillover.Retriever.{Hit}
use spillover.Retriever.Budget.{row_of_id}
use spillover.Retriever.Walks.{graph_walk}
use spillover.Retriever.Walks.Direct.{is_returned, graph_walk-direct}
use spillover.Retriever.Answers.{mentioning, meta_of_node, node_with_id, graph_queries}
use spillover.Proxy.Rescue.{FacetEvent}
use spillover.Facet.{Engines, VecRow, Memory, facet_of, content_in, process_one}
use spillover.Facet.Extract.{Entity, extract_entities}
use spillover.Facet.Found.{length-mentioning, process_one-IsLinked}

All-middle :
    {A : Type 0} (P : A → Type 0) (before : List A) (x : A) (after : List A)
    → All P (before ++ x ∷ after)
    → P x
All-middle P [] x after h = h.0
All-middle P (y ∷ ys) x after h = All-middle P ys x after h.1

module _ (f : Floats) (c : Codec) {E : Type 0} (engines : Engines E) where
  -- Once the worker has filed an episode and could open the graph, a walk from an entity that the
  -- episode's content names returns the episode, for every number of hops, if the query for two
  -- hops raises nothing and the limit is no less than the edges to entities and the rows of that
  -- query.
  pub process_one-IsWalked :
      (event : FacetEvent) (m : Memory f.Float E) (row : Episode) (facet : VecRow f.Float E)
      (sharing : List String → ℕ → Option (List String)) (listed : List String → List String)
      (before after : List Entity) (e : Entity) (shared : List String) (k_hop limit : ℕ)
      → row_of_id event.episode_id m.db.episodes ≡ some row
      → facet_of f c engines event.episode_id row ≡ some facet
      → engines.opens_graph event ≡ true
      → extract_entities c engines.patterns (content_in c row) ≡ before ++ e ∷ after
      → sharing (e.name ∷ []) limit ≡ some shared
      → length (process_one f c engines event m).0.graph.mentions + length shared ≤ limit
      → (hits : List (Hit f.Float)) × (graph_walk f
            (graph_queries sharing listed (process_one f c engines event m).0.graph)
            (e.name ∷ [])
            k_hop
            limit
          ≡ some hits)
        × (is_returned f facet.episode_id hits ≡ true)
  process_one-IsWalked event m row facet sharing listed before after e shared k_hop limit held read
        opened named answered fits =
      let g = (process_one f c engines event m).0.graph in
      let linked =
        process_one-IsLinked f c engines event m row facet limit held read opened (omega arith) in
      let found =
        All-middle (λ d. contains facet.episode_id (mentioning g (d.name ∷ []) limit) ≡ true) before
          e after (subst (All _) named linked.1) in
      graph_walk-direct f (graph_queries sharing listed g)
        (λ i. (meta_of_node (node_with_id i g.episodes), refl)) []
        (mentioning g (e.name ∷ []) limit) shared e.name facet.episode_id k_hop limit refl answered
        found (omega (arith, length-mentioning g (e.name ∷ []) limit))
