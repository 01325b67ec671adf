-- ===== src/Proxy/Retrieve/Engines.antt =====
-- The searches of `_retrieve_ltm_block` in src/spillover/proxy/app.py, with the walks over the graph
-- as they are called there.
use spillover.Prelude.{some}
use spillover.Runtime.{Floats}
use spillover.Retriever.Walks.{GraphQueries, graph_walk, causality_chain}
use spillover.Proxy.Retrieve.{Searches}

-- The limit of the causal walk is its default.
unfoldable pub with_graph :
    (f : Floats) → GraphQueries f.Float → Searches f.Float → Searches f.Float
with_graph f queries searches = record searches {
  graph_walk = λ seeds limit. graph_walk f queries seeds 2 limit;
  causality_chain = λ seeds. some (causality_chain f queries seeds 2 30);
}
