-- ===== src/Retriever/Answers.antt =====
-- What the queries of src/spillover/retriever/graph.py and causal.py answer over the graph that the
-- facet worker writes. Rows come in the order in which their edges were written. The query for two
-- hops, and the order of a set, are parameters.
use spillover.Prelude.{
  ℕ, String, Option, none, some, List, [], ◌∷◌, map, keep, take, str_eq, if◌then◌else◌,
}
use spillover.Storage.{contains}
use spillover.Facet.Links.{Graph, EpisodeNode, Edges}
use spillover.Retriever.Walks.{Meta, GraphQueries}

-- `MATCH (e:Episode)-[:MENTIONS]->(n:Entity) WHERE n.name IN $names RETURN e.id LIMIT $limit`
unfoldable pub mentioning : {F : Type 0} → Graph F → List String → ℕ → List String
mentioning g names limit = take limit (map (λ e. e.0) (keep (λ e. contains e.1 names) g.mentions))

-- `MATCH (e:Episode {id: $id}) RETURN e.memory_type, e.importance, e.ts`
unfoldable pub node_with_id : {F : Type 0} → String → List (EpisodeNode F) → Option (EpisodeNode F)
node_with_id i [] = none
node_with_id i (n ∷ ns) = if str_eq n.id i then some n else node_with_id i ns

abbrev pub meta_of_node : {F : Type 0} → Option (EpisodeNode F) → Option (Meta F)
meta_of_node none = none
meta_of_node (some n) =
    some
      (record { memory_type = some n.memory_type; importance = some n.importance; ts = some n.ts })

-- `MATCH (s:Episode {id: $id})-[:AFTER]->(e:Episode) RETURN e.id LIMIT $limit`, and the other way
unfoldable pub followers : Edges → String → ℕ → List String
followers edges i limit = take limit (map (λ e. e.1) (keep (λ e. str_eq e.0 i) edges))

unfoldable pub predecessors : Edges → String → ℕ → List String
predecessors edges i limit = take limit (map (λ e. e.0) (keep (λ e. str_eq e.1 i) edges))

-- The answers; these queries raise no exception.
abbrev pub graph_queries :
    {F : Type 0}
    → (List String → ℕ → Option (List String))
    → (List String → List String)
    → Graph F
    → GraphQueries F
graph_queries sharing listed g = record {
  mentioning = λ names limit. some (mentioning g names limit);
  sharing = sharing;
  meta_of = λ i. some (meta_of_node (node_with_id i g.episodes));
  followers = λ i limit. some (followers g.after i limit);
  predecessors = λ i limit. some (predecessors g.after i limit);
  listed = listed;
}
