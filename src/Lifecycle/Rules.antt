-- ===== src/Lifecycle/Rules.antt =====
-- What a step may do to the episodes, the vectors and the graph of a project, as the rules that a
-- property of the three has to satisfy.
use spillover.Prelude.{
  ℕ, String, ◌≡◌, Bool, true, false, not, some, List, [], ◌∷◌, ◌++◌, map, keep, str_eq, Bool-cases,
  Option-cases, inl, inr,
}
use spillover.Runtime.{Codec, Floats}
use spillover.Storage.{Episode, Db, has_id, evict_row, mark_evicted}
use spillover.Storage.Keys.{has_hash}
use spillover.Archive.{Turn, hash_turn, row_of, archive_raw}
use spillover.Archive.Laws.{archive_raw_effect}
use spillover.CounterCompact.Detection.{record_seen_turns, prune_old_seen_turns}
use spillover.Retriever.Budget.{row_of_id}
use spillover.Proxy.Rescue.{FacetEvent}
use spillover.Facet.Links.{Graph, empty_graph}
use spillover.Facet.{
  Engines, VecRow, Memory, facet_of, typed_row, content_in, tool_calls_in, link, process_one,
}
use spillover.Decay.{faded_row, apply_decay_for_project, tick_project}
use spillover.Cli.{is_rescued_id, purge}
use spillover.Lifecycle.{Step, archived, marked, seen, worked, faded, purged, Reach, start, next}

-- The vectors with that of one episode replaced.
abbrev pub refiled : {F E : Type 0} → VecRow F E → List (VecRow F E) → List (VecRow F E)
refiled v vs = keep (λ u. not (str_eq u.episode_id v.episode_id)) vs ++ v ∷ []

module _ (f : Floats) (exp : f.Float → f.Float) (c : Codec) {E : Type 0} (engines : Engines E)
    (p : String) (time : String → ℕ)
    (P : List Episode → List (VecRow f.Float E) → Graph f.Float → Type 0) where
  abbrev pub On : Memory f.Float E → Type 0
  On m = P m.db.episodes m.vectors m.graph

  pub record Rules : Type 0 where
    pub starts : P [] [] empty_graph
    pub appends :
        (es : List Episode) (vs : List (VecRow f.Float E)) (g : Graph f.Float) (eid : String)
        (turn : Turn)
        → turn.ts ≡ time eid
        → has_id eid es ≡ false
        → has_hash (hash_turn c turn) es ≡ false
        → P es vs g
        → P (es ++ row_of c eid turn ∷ []) vs g
    pub marks :
        (es : List Episode) (vs : List (VecRow f.Float E)) (g : Graph f.Float) (ids : List String)
        (rescued : Bool)
        → P es vs g
        → P (map (evict_row ids rescued) es) vs g
    -- The worker files a facet, and then links the episode or not.
    pub files :
        (es : List Episode) (vs : List (VecRow f.Float E)) (g : Graph f.Float) (i : String)
        (row : Episode) (facet : VecRow f.Float E)
        → row_of_id i es ≡ some row
        → facet_of f c engines i row ≡ some facet
        → P es vs g
        → P (map (typed_row facet.episode_id facet.memory_type) es) (refiled facet vs) g
    pub links :
        (es : List Episode) (vs : List (VecRow f.Float E)) (g : Graph f.Float) (i : String)
        (row : Episode) (facet : VecRow f.Float E)
        → row_of_id i es ≡ some row
        → facet_of f c engines i row ≡ some facet
        → P es vs g
        → P
            (map (typed_row facet.episode_id facet.memory_type) es)
            (refiled facet vs)
            (link f c engines facet (content_in c row) (tool_calls_in c row) g).0
    pub fades :
        (es : List Episode) (vs : List (VecRow f.Float E)) (g : Graph f.Float) (now : ℕ) (db : Db)
        → P es vs g
        → P es (map (faded_row f exp now db) vs) g
    pub clears :
        (es : List Episode) (vs : List (VecRow f.Float E)) (g : Graph f.Float)
        → P es vs g
        → P [] [] g
    pub purges :
        (es : List Episode) (vs : List (VecRow f.Float E)) (g : Graph f.Float)
        → P es vs g
        → P
            (keep (λ e. not e.compaction_rescued) es)
            (keep (λ v. not (is_rescued_id es v.episode_id)) vs)
            g

  module _ (rules : Rules) where
    archive_raw-keeps :
        (m : Memory f.Float E) (eid : String) (turn : Turn)
        → turn.ts ≡ time eid
        → On m
        → On (record m { db = (archive_raw c (λ d. d) eid turn m.db).0 })
    archive_raw-keeps m eid turn timed h = elim (archive_raw_effect c (λ d. d) eid turn m.db) [
      | inl (j, old, e) ↦ rw e h
      | inr (inl (held, e)) ↦ rw e h
      | inr (inr (inl (fresh, free, e))) ↦
          rw e (rules.appends m.db.episodes m.vectors m.graph eid turn timed free fresh h)
      | inr (inr (inr (fresh, taken, e))) ↦ rw e h
    ]

    process_one-keeps :
        (event : FacetEvent) (m : Memory f.Float E) → On m → On (process_one f c engines event m).0
    unfolding process_one
    process_one-keeps event m h =
        let i = event.episode_id in
        elim (Option-cases (row_of_id i m.db.episodes)) [
          | inl missing ↦ rw (missing, process_one) h
          | inr (row, held) ↦ elim (Option-cases (facet_of f c engines i row)) [
            | inl bad ↦ rw (held, bad, process_one) h
            | inr (facet, read) ↦ elim (Bool-cases (engines.opens_graph event)) [
              | inl opened ↦
                  rw (held, read, opened, process_one)
                    (rules.links m.db.episodes m.vectors m.graph i row facet held read h)
              | inr shut ↦
                  rw (held, read, shut, process_one)
                    (rules.files m.db.episodes m.vectors m.graph i row facet held read h)
            ]
          ]
        ]

    purge-keeps : (all : Bool) (m : Memory f.Float E) → On m → On (purge all m)
    unfolding purge
    purge-keeps true m h = rules.clears m.db.episodes m.vectors m.graph h
    purge-keeps false m h = rules.purges m.db.episodes m.vectors m.graph h

    tick_project-keeps :
        (now later : ℕ) (m : Memory f.Float E) → On m → On (tick_project f exp p now later m).0
    unfolding tick_project apply_decay_for_project prune_old_seen_turns
    tick_project-keeps now later m h = rules.fades m.db.episodes m.vectors m.graph now m.db h

    Step-keeps : {m n : Memory f.Float E} → Step f exp c engines p time m n → On m → On n
    unfolding mark_evicted record_seen_turns
    Step-keeps {m} (archived eid turn timed) h = archive_raw-keeps m eid turn timed h
    Step-keeps {m} (marked ids rescued) h =
        rules.marks m.db.episodes m.vectors m.graph ids rescued h
    Step-keeps (seen now messages) h = h
    Step-keeps {m} (worked event) h = process_one-keeps event m h
    Step-keeps {m} (faded now later) h = tick_project-keeps now later m h
    Step-keeps {m} (purged all) h = purge-keeps all m h

    -- A property that satisfies the rules holds after any calls.
    pub Reach-keeps : {m : Memory f.Float E} → Reach f exp c engines p time m → On m
    Reach-keeps start = rules.starts
    Reach-keeps (next r s) = Step-keeps s (Reach-keeps r)
