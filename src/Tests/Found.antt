-- ===== src/Tests/Found.antt =====
-- What the worker links and what the searches find of it, on the memory of Tests/Lifecycle.
use spillover.CounterCompact.Intercept.{content_to_text}
use spillover.Retriever.Budget.{row_of_id}
use spillover.Prelude.{
  ℕ, ◌≤◌, String, ◌≡◌, refl, true, some, List, [], ◌∷◌, map, length, All, not, ◌==◌, arith,
}
use spillover.Json.{str}
use spillover.Text.{join, strip, rstrip, lstrip, is_space}
use spillover.Archive.{insert_turn, archive_raw}
use spillover.Archive.{row_of}
use spillover.Storage.{insert_episode, id_of_hash}
use spillover.Proxy.Rescue.{FacetEvent}
use spillover.Facet.{
  base_importance, has_open_task, text_to_classify, classify, facet_of, VecRow, Memory, process_one,
  link, write_entities, write_refs, write_decisions,
}
use spillover.Facet.Extract.{extract_entities, add_found, entity_text, extract_code_refs}
use spillover.Facet.Walked.{process_one-IsWalked}
use spillover.Retriever.{Hit}
use spillover.Retriever.Walks.Direct.{is_returned}
use spillover.Facet.Links.{empty_graph, add_entity, add_episode, merge_edge}
use spillover.Facet.Found.{IsLinked, process_one-IsLinked}
use spillover.Retriever.Answers.{predecessors, followers, graph_queries}
use spillover.Retriever.Walks.{
  insert_score, set_if_larger, set_all, chain_round, chain_from, sort_scores, GraphQueries,
  causality_chain, graph_walk,
}
use spillover.Retriever.Walks.Reached.{IsReached, causality_chain-AreReached}
use spillover.Retriever.Lexical.{
  lstrip_marks, rstrip_marks, split_run, is_token_char, runs_from, find_tokens, cleaned, quoted,
  query_to_fts,
}
use spillover.Retriever.Lexical.Terms.{all_chars, IsTerm, query_to_fts-IsQuoted}
use Prim.Native.Char.{code}
use spillover.Lifecycle.{empty_memory}
use spillover.Tests.Fixtures.{codec, floats}
use spillover.Tests.Facets.{engines}
use spillover.Tests.Lifecycle.{turn, store}

abbrev queries : GraphQueries ℕ
queries =
    graph_queries (λ names limit. some []) (λ xs. xs)
      (record empty_graph { after = ("a", "b") ∷ ("b", "d") ∷ [] })

causality_chain-AreReached_example :
    (length (causality_chain floats queries ("a" ∷ []) 2 30) ≤ 30)
    × All
        (λ h. IsReached floats queries ("a" ∷ []) 30 2 h.episode_id)
        (causality_chain floats queries ("a" ∷ []) 2 30)
causality_chain-AreReached_example =
    causality_chain-AreReached floats queries ("a" ∷ []) 2 30 (λ x xs k. k)

-- The walk from "a" finds "b" and what is behind it.
chain_found :
    map (λ h. h.episode_id) (causality_chain floats queries ("a" ∷ []) 2 30) ≡ "b" ∷ "d" ∷ []
unfolding causality_chain sort_scores chain_from chain_round followers predecessors set_all
    set_if_larger insert_score
chain_found = refl

query_to_fts-IsQuoted_example :
    (ts : List String) × (query_to_fts "where is \"auth.py\"?" ≡ join " OR " (map quoted ts))
    × All
        (λ t. IsTerm "where is \"auth.py\"?" t × (all_chars (λ a. not (code a == b'"')) t ≡ true))
        ts
query_to_fts-IsQuoted_example = query_to_fts-IsQuoted "where is \"auth.py\"?"

query_is_quoted : query_to_fts "where is -- \"auth.py\"?" ≡ "\"where\" OR \"is\" OR \"auth.py\""
unfolding query_to_fts join cleaned find_tokens runs_from is_token_char split_run rstrip_marks
    lstrip_marks
query_is_quoted = refl

abbrev event : FacetEvent
event = record { project_id = "p"; episode_id = "a" }

abbrev stored : Memory ℕ String
stored = store "a" 1 empty_memory

abbrev facet : VecRow ℕ String
facet = record {
  episode_id = "a";
  embedding = "a";
  memory_type = "procedural";
  importance = 0;
  ts = 1;
}

process_one-IsLinked_example :
    IsLinked floats codec engines facet
      (extract_entities codec engines.patterns (str "a"))
      30
      (process_one floats codec engines event stored).0.graph
unfolding row_of_id archive_raw id_of_hash insert_turn insert_episode facet_of classify
    text_to_classify has_open_task content_to_text base_importance extract_entities entity_text
    add_found strip rstrip lstrip is_space process_one link write_entities write_refs
    write_decisions add_entity add_episode merge_edge extract_code_refs
process_one-IsLinked_example =
    process_one-IsLinked floats codec engines event stored (row_of codec "a" (turn "a" 1)) facet 30
      refl refl refl (omega arith)

process_one-IsWalked_example :
    (hits : List (Hit ℕ)) × (graph_walk floats
        (graph_queries
          (λ names limit. some [])
          (λ xs. xs)
          (process_one floats codec engines event stored).0.graph)
        ("a.py" ∷ [])
        1
        30
      ≡ some hits)
    × (is_returned floats "a" hits ≡ true)
unfolding row_of_id archive_raw id_of_hash insert_turn insert_episode facet_of classify
    text_to_classify has_open_task content_to_text base_importance extract_entities entity_text
    add_found strip rstrip lstrip is_space process_one link write_entities write_refs
    write_decisions add_entity add_episode merge_edge extract_code_refs
process_one-IsWalked_example =
    process_one-IsWalked floats codec engines event stored (row_of codec "a" (turn "a" 1)) facet
      (λ names limit. some []) (λ xs. xs) [] (record { name = "ls"; kind = "command" } ∷ [])
      (record { name = "a.py"; kind = "file" }) [] 1 30 refl refl refl refl refl (omega arith)
