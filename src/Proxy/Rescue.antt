-- ===== src/Proxy/Rescue.antt =====
-- `_detect_and_rescue` and `_enqueue_facets` of src/spillover/proxy/app.py: what a compaction of the
-- client's took away goes to the archive, and the archived turns to the queue of the facet worker.
pub mod Effect
pub mod Queue
use spillover.Prelude.{
  ℕ, suc, ◌+◌, String, Bool, true, false, ◌&&◌, Option, none, some, List, [], ◌∷◌, ◌++◌, map, ltb,
  leb, length, if◌then◌else◌,
}
use spillover.Json.{nil, Message}
use spillover.Runtime.{Codec}
use spillover.Storage.{Db}
use spillover.Archive.{Turn}
use spillover.Archive.Several.{archive_evicted}
use spillover.CounterCompact.Detection.{RescuedTurn, record_seen_turns, detect_compaction}

abbrev pub window_seconds : ℕ
window_seconds = 600

abbrev pub max_rescue : ℕ
max_rescue = 20

-- The turn that the loop archives for a rescued one.
abbrev pub archived_turn : String → ℕ → RescuedTurn → Turn
archived_turn p ts r = record {
  project_id = p;
  role = r.role;
  content = r.content;
  tool_calls = nil;
  code_refs = nil;
  token_count = r.token_count;
  ts = ts;
  compaction_rescued = true;
}

module _ (c : Codec) (ids : ℕ → String) (p : String) where
  -- From the point where the rescued turns are known.
  unfoldable pub rescue : ℕ → List RescuedTurn → Db → Db × Option (List RescuedTurn × List String)
  rescue ts [] db = (db, some ([], []))
  rescue ts (r ∷ rs) db =
      let archived = archive_evicted c ids true (map (archived_turn p ts) (r ∷ rs)) db in
      elim archived.1 [ none ↦ (archived.0, none) | some eids ↦ (archived.0, some (r ∷ rs, eids)) ]

  -- The clock is read three times. `none` beside the database is an exception: a stored content
  -- that cannot be read, or an insert that fails.
  unfoldable pub detect_and_rescue :
      ℕ → ℕ → ℕ → List Message → Db → Db × Option (List RescuedTurn × List String)
  detect_and_rescue detected_at seen_at ts messages db =
      elim (detect_compaction c p detected_at window_seconds max_rescue messages db) [
        | none ↦ (db, none)
        | some rescued ↦ rescue ts rescued (record_seen_turns c p seen_at messages db)
      ]

pub record FacetEvent : Type 0 where
  pub project_id : String
  pub episode_id : String

-- The `asyncio.Queue` of the application, and the count of `facet_dropped_total`.
pub record FacetQueue : Type 0 where
  pub maxsize : ℕ
  pub events : List FacetEvent
  pub dropped : ℕ

-- `queue.full()`; a queue of size 0 has no bound.
abbrev pub is_full : FacetQueue → Bool
is_full q = ltb 0 q.maxsize && leb q.maxsize (length q.events)

-- One round of the loop, the handler of QueueFull included.
abbrev pub offer : FacetEvent → FacetQueue → FacetQueue
offer event q =
    if is_full q
    then record q { dropped = suc q.dropped }
    else record q { events = q.events ++ event ∷ [] }

unfoldable pub enqueue_facets : String → List String → FacetQueue → FacetQueue
enqueue_facets p [] q = q
enqueue_facets p (eid ∷ eids) q =
    enqueue_facets p eids (offer (record { project_id = p; episode_id = eid }) q)
