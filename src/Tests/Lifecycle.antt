-- ===== src/Tests/Lifecycle.antt =====
-- A project's memory that two turns are archived in, filed, faded and purged.
use spillover.Prelude.{ℕ, ◌+◌, ◌<◌, String, ◌≡◌, refl, false, [], ◌∷◌, str_eq, if◌then◌else◌}
use spillover.Json.{str, nil}
use spillover.Archive.{Turn, archive_raw, insert_turn, hash_turn}
use spillover.Facet.{
  Memory, process_one, facet_of, classify, text_to_classify, has_open_task, link, write_entities,
  base_importance,
}
use spillover.Decay.{tick_project, apply_decay_for_project}
use spillover.Cli.{purge, stats}
use spillover.Retriever.Budget.{row_of_id}
use spillover.Storage.{id_of_hash, insert_episode}
use spillover.CounterCompact.Intercept.{content_to_text}
use spillover.Facet.Extract.{extract_code_refs, extract_entities, add_found, entity_text}
use spillover.Text.{is_space, lstrip, rstrip, strip}
use spillover.Facet.Links.{
  add_entity, add_episode, latest_before, merge_edge, merge_episode, merge_node,
}
use spillover.Lifecycle.{Reach, start, next, archived, worked, faded, purged, empty_memory}
use spillover.Lifecycle.Agree.{Agree}
use spillover.Lifecycle.Consistent.{Reach-Agree}
use spillover.Lifecycle.Counts.{Reach-stats}
use spillover.Lifecycle.Typed.{IsTyped, Reach-IsTyped}
use spillover.Lifecycle.Timed.{Walk, Reach-walks_forward}
use spillover.Tests.Fixtures.{codec, floats}
use spillover.Tests.Facets.{engines}

abbrev pub turn : String → ℕ → Turn
turn text ts = record {
  project_id = "p";
  role = "user";
  content = str text;
  tool_calls = nil;
  code_refs = nil;
  token_count = 3;
  ts = ts;
  compaction_rescued = false;
}

abbrev time : String → ℕ
time i = if str_eq i "a" then 1 else 2

abbrev pub store : String → ℕ → Memory ℕ String → Memory ℕ String
store i ts m = record m { db = (archive_raw codec (λ d. d) i (turn i ts) m.db).0 }

abbrev file : String → Memory ℕ String → Memory ℕ String
file i m = (process_one floats codec engines (record { project_id = "p"; episode_id = i }) m).0

abbrev fade : Memory ℕ String → Memory ℕ String
fade m = (tick_project floats (λ x. x) "p" 5 5 m).0

abbrev lived : Memory ℕ String
lived = purge false (fade (file "b" (file "a" (store "b" 2 (store "a" 1 empty_memory)))))

lived-Reach : Reach floats (λ x. x) codec engines "p" time lived
lived-Reach =
    next
      (next
        (next
          (next
            (next (next start (archived "a" (turn "a" 1) refl)) (archived "b" (turn "b" 2) refl))
            (worked (record { project_id = "p"; episode_id = "a" })))
          (worked (record { project_id = "p"; episode_id = "b" })))
        (faded 5 5))
      (purged false)

-- The edge that the walks follow.
lived-after : lived.graph.after ≡ ("a", "b") ∷ []
unfolding archive_raw process_one tick_project purge apply_decay_for_project row_of_id id_of_hash
    insert_episode insert_turn hash_turn facet_of classify text_to_classify has_open_task link
    write_entities base_importance content_to_text extract_code_refs extract_entities add_found
    entity_text strip add_entity add_episode latest_before merge_edge merge_episode merge_node
    rstrip lstrip is_space
lived-after = refl

Reach-Agree_example : Agree lived.db.episodes lived.vectors
Reach-Agree_example = Reach-Agree floats (λ x. x) codec engines "p" time lived lived-Reach

Reach-IsTyped_example :
    IsTyped floats (λ x. x) codec engines "p" time lived.db.episodes lived.vectors lived.graph
Reach-IsTyped_example = Reach-IsTyped floats (λ x. x) codec engines "p" time lived lived-Reach

Reach-walks_forward_example :
    ((a b : String) → Walk lived.graph.after a b → time a < time b)
    × ((a : String) → ¬ Walk lived.graph.after a a)
Reach-walks_forward_example =
    Reach-walks_forward floats (λ x. x) codec engines "p" time lived lived-Reach

Reach-stats_example : (stats lived).embedded + (stats lived).facet_pending ≡ (stats lived).episodes
Reach-stats_example = Reach-stats floats (λ x. x) codec engines "p" time lived lived-Reach
