-- ===== src/Lifecycle.antt =====
-- The writes to the memory of one project, in any order: a request archives turns
-- (src/spillover/archive/writer.py), marks them and records what it saw (src/spillover/proxy/app.py),
-- the worker files facets (src/spillover/facet/worker.py), the scheduler lets memories fade
-- (src/spillover/decay/scheduler.py) and the user purges (src/spillover/cli.py). A step is one call.
pub mod Rules
pub mod Lookup
pub mod Agree
pub mod Filing
pub mod Consistent
pub mod Counts
pub mod Typed
pub mod Timed
pub mod Honest
use spillover.Prelude.{ℕ, String, ◌≡◌, Bool, List, [], ◌++◌}
use spillover.Json.{Message}
use spillover.Runtime.{Codec, Floats}
use spillover.Storage.{empty_db, mark_evicted}
use spillover.Archive.{Turn, archive_raw}
use spillover.CounterCompact.Detection.{record_seen_turns}
use spillover.Proxy.Rescue.{FacetEvent}
use spillover.Facet.Links.{empty_graph}
use spillover.Facet.{Engines, Memory, process_one}
use spillover.Decay.{tick_project}
use spillover.Cli.{purge}

abbrev pub empty_memory : {F E : Type 0} → Memory F E
empty_memory = record { db = empty_db; vectors = []; graph = empty_graph }

-- `time` gives the time of the turn that an id was drawn for: `uuid4` draws no id twice.
module _ (f : Floats) (exp : f.Float → f.Float) (c : Codec) {E : Type 0} (engines : Engines E)
    (p : String) (time : String → ℕ) where
  pub data Step (m : Memory f.Float E) : Memory f.Float E → Type 0 where
    archived :
        (eid : String) (turn : Turn)
        → turn.ts ≡ time eid
        → Step m (record m { db = (archive_raw c (λ d. d) eid turn m.db).0 })
    marked :
        (ids : List String) (rescued : Bool)
        → Step m (record m { db = mark_evicted ids rescued m.db })
    seen :
        (now : ℕ) (messages : List Message)
        → Step m (record m { db = record_seen_turns c p now messages m.db })
    worked : (event : FacetEvent) → Step m (process_one f c engines event m).0
    faded : (now later : ℕ) → Step m (tick_project f exp p now later m).0
    purged : (purge_all : Bool) → Step m (purge purge_all m)

  -- The memories that calls lead to from an empty one.
  pub data Reach : Memory f.Float E → Type 0 where
    start : Reach empty_memory
    next : {m n : Memory f.Float E} → Reach m → Step m n → Reach n
