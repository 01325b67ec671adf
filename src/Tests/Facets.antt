-- ===== src/Tests/Facets.antt =====
-- The facet worker (src/spillover/facet/worker.py) on a queue of two events, one without a row.
use spillover.Prelude.{String, ◌≡◌, true, false, some, [], ◌∷◌, All}
use spillover.Proxy.Rescue.{FacetQueue}
use spillover.Facet.Links.{empty_graph}
use spillover.Facet.Extract.{Patterns}
use spillover.Facet.{Engines, Memories, work}
use spillover.Facet.Filed.{IsReadable, IsFiled}
use spillover.Facet.Drain.{work_drains}
use spillover.Tests.Fixtures.{codec, floats}
use spillover.Tests.Retriever.{stored}

abbrev pub patterns : Patterns
patterns = record {
  file_paths = λ t. "a.py" ∷ "a.py" ∷ [];
  urls = λ t. [];
  identifiers = λ t. [];
  commands = λ t. " ls" ∷ [];
  decisions_pt = λ t. [];
  decisions_en = λ t. "we chose it" ∷ [];
  becauses = λ t. [];
}

abbrev pub engines : Engines String
engines = record {
  embed_text = λ t. some t;
  task_patterns = λ t. false;
  is_priority = λ t. false;
  is_procedural = λ t. false;
  is_semantic = λ t. true;
  patterns = patterns;
  opens_graph = λ event. true;
}

abbrev queue : FacetQueue
queue = record {
  maxsize = 2;
  events =
      record { project_id = "p"; episode_id = "a" }
      ∷ record { project_id = "p"; episode_id = "gone" }
      ∷ [];
  dropped = 0;
}

abbrev memories : Memories floats codec engines
memories p = record { db = stored; vectors = []; graph = empty_graph }

work_drains_example :
    let out = work floats codec engines 2 (queue, memories) in
    (out.0 ≡ record queue { events = [] })
    × All
        (λ e.
          IsReadable floats codec engines e.episode_id (memories e.project_id)
          → IsFiled floats codec engines e.episode_id (out.1 e.project_id))
        queue.events
work_drains_example = work_drains floats codec engines queue memories
