-- ===== src/Facet.antt =====
-- src/spillover/facet: the worker that gives archived turns their type and their vector (worker.py),
-- with the choice of the type (classifier.py) and the links in the project's graph.
pub mod Links
pub mod Extract
pub mod Rows
pub mod Linked
pub mod Found
pub mod Walked
pub mod Filed
pub mod Drain
use Prim.Native.Char.{code}
use Prim.Native.String.{[] as nothing, ◌∷◌ as prepend, count}
use spillover.Prelude.{
  ℕ, zero, suc, String, Bool, true, false, not, ◌||◌, Option, none, some, List, [], ◌∷◌, ◌++◌, map,
  keep, str_eq, ◌==◌, if◌then◌else◌, or_else, pos,
}
use spillover.Text.{join, occurs_in}
use spillover.Json.{Json, null, str, arr, obj, Items, nil, cons, Fields, end, field, truthy}
use spillover.Runtime.{Codec, Floats, min_f}
use spillover.Storage.{Episode, Db}
use spillover.CounterCompact.Intercept.{block_texts, content_to_text}
use spillover.Retriever.Budget.{row_of_id}
use spillover.Facet.Links.{Graph, EpisodeNode, add_episode, add_entity, add_file, add_decision}
use spillover.Facet.Extract.{
  Patterns, Entity, Decision, CodeRef, extract_entities, extract_decisions, extract_code_refs,
}
use spillover.Proxy.Respond.{count_items}
use spillover.Proxy.Rescue.{FacetEvent, FacetQueue}

-- What the worker asks of others: the embedding of a text, the patterns of tasks.py, of the classifier
-- and of the extractors, and whether the graph of an event's project can be opened.
pub record Engines (E : Type 0) : Type 0 where
  pub embed_text : String → Option E
  pub task_patterns : String → Bool
  pub is_priority : String → Bool
  pub is_procedural : String → Bool
  pub is_semantic : String → Bool
  pub patterns : Patterns
  pub opens_graph : FacetEvent → Bool

-- A row of `vec_episodes`.
pub record VecRow (F E : Type 0) : Type 0 where
  pub episode_id : String
  pub embedding : E
  pub memory_type : String
  pub importance : F
  pub ts : ℕ

-- A project's database with its vectors, and its graph.
pub record Memory (F E : Type 0) : Type 0 where
  pub db : Db
  pub vectors : List (VecRow F E)
  pub graph : Graph F

-- `len(v)`, where `none` is the TypeError of a value without one
abbrev pub count_fields : Fields → ℕ
count_fields end = 0
count_fields (field k v fs) = suc (count_fields fs)

abbrev pub len_of : Json → Option ℕ
len_of (arr xs) = some (count_items xs)
len_of (obj d) = some (count_fields d)
len_of (str t) = some (count t)
len_of _ = none

-- `_content_to_text` of classifier.py
unfoldable pub text_to_classify : Json → Option String
text_to_classify (str t) = some t
text_to_classify (arr bs) = elim (block_texts bs) [ none ↦ none | some ts ↦ some (join "\n" ts) ]
text_to_classify _ = some ""

-- `_content_to_text` of tasks.py, and `has_open_task`; `none` is the TypeError of joining what is no
-- text.
unfoldable pub has_open_task : (String → Bool) → Json → Option Bool
has_open_task task_patterns content = elim (content_to_text content) [
  | none ↦ none
  | some text ↦ some (task_patterns text)
]

abbrev pub type_base : String → String
type_base t =
    if str_eq t "task"
    then "0.95"
    else if str_eq t "priority"
    then "1.0"
    else if str_eq t "procedural"
    then "0.7"
    else if str_eq t "semantic"
    then "0.6"
    else "0.5"

-- `UPDATE episodes SET memory_type=?, facet_pending=0 WHERE id=?`
abbrev pub typed_row : String → String → Episode → Episode
typed_row i memory_type e =
    if str_eq e.id i then record e { memory_type = some memory_type; facet_pending = false } else e

-- `json.loads(row["content_json"])` and `json.loads(row["tool_calls_json"] or "[]")` of a row that
-- `facet_of` has read.
abbrev pub calls_json : Episode → String
calls_json row = if str_eq row.tool_calls_json "" then "[]" else row.tool_calls_json

abbrev pub content_in : Codec → Episode → Json
content_in c row = or_else (c.loads row.content_json) null

abbrev pub tool_calls_in : Codec → Episode → Json
tool_calls_in c row = or_else (c.loads (calls_json row)) null

-- `ref.path.rsplit(".", 1)[-1] if "." in ref.path else ""`
unfoldable pub ext_of : String → String
ext_of nothing = nothing
ext_of (prepend a t) =
    let rest = ext_of t in if code a == b'.' then (if occurs_in "." t then rest else t) else rest

module _ (f : Floats) (c : Codec) {E : Type 0} (engines : Engines E) where
  unfoldable pub classify : Json → Json → Option String
  classify content tool_calls = elim (text_to_classify content) [
    | none ↦ none
    | some text ↦ elim (has_open_task engines.task_patterns content) [
      | none ↦ none
      | some open_task ↦ some (
          if open_task
          then "task"
          else if engines.is_priority text
          then "priority"
          else if truthy tool_calls || engines.is_procedural text
          then "procedural"
          else if engines.is_semantic text
          then "semantic"
          else "episodic")
    ]
  ]

  unfoldable pub base_importance : String → ℕ → f.Float
  base_importance memory_type tool_call_count = min_f f (f.literal "1.0") (
      f.add_f (f.literal (type_base memory_type))
        (f.mul_f (f.literal "0.05") (f.of_int (pos tool_call_count))))

  abbrev pub text_to_embed : Json → String
  text_to_embed (str t) = t
  text_to_embed v = c.dumps v

  -- The row of `vec_episodes` for the row of `episodes` with this id; `none` is an exception.
  unfoldable pub facet_of : String → Episode → Option (VecRow f.Float E)
  facet_of i row = elim (c.loads row.content_json) [
    | none ↦ none
    | some content ↦ elim (c.loads (calls_json row)) [
      | none ↦ none
      | some tool_calls ↦ elim (engines.embed_text (text_to_embed content)) [
        | none ↦ none
        | some vec ↦ elim (classify content tool_calls) [
          | none ↦ none
          | some memory_type ↦ elim (len_of tool_calls) [
            | none ↦ none
            | some n ↦ some (record {
              episode_id = i;
              embedding = vec;
              memory_type = memory_type;
              importance = base_importance memory_type n;
              ts = row.ts;
            })
          ]
        ]
      ]
    ]
  ]

  -- The three statements on the database.
  abbrev pub file_facet : VecRow f.Float E → Memory f.Float E → Memory f.Float E
  file_facet row m = record m {
    db = record m.db { episodes = map (typed_row row.episode_id row.memory_type) m.db.episodes };
    vectors = keep (λ v. not (str_eq v.episode_id row.episode_id)) m.vectors ++ row ∷ [];
  }

  unfoldable pub write_entities : String → List Entity → Graph f.Float → Graph f.Float
  write_entities eid [] g = g
  write_entities eid (e ∷ es) g = write_entities eid es (add_entity eid e.name e.kind g)

  unfoldable pub write_decisions : String → List Decision → Graph f.Float → Graph f.Float
  write_decisions eid [] g = g
  write_decisions eid (d ∷ ds) g = write_decisions eid ds (add_decision eid d.hash d.summary g)

  -- Whether the loop ends without the TypeError of a path that is no text, and what it writes.
  unfoldable pub write_refs : String → List CodeRef → Graph f.Float → Graph f.Float × Bool
  write_refs eid [] g = (g, true)
  write_refs eid (r ∷ rs) g = elim r.path [
    | none ↦ (g, false)
    | some path ↦ write_refs eid rs (add_file eid path (ext_of path) g)
  ]

  abbrev pub then_decisions : String → Json → Graph f.Float × Bool → Graph f.Float × Bool
  then_decisions eid content (g, false) = (g, false)
  then_decisions eid content (g, true) =
      (write_decisions eid (extract_decisions c engines.patterns content) g, true)

  abbrev pub node_of : VecRow f.Float E → EpisodeNode f.Float
  node_of facet = record {
    id = facet.episode_id;
    ts = facet.ts;
    memory_type = facet.memory_type;
    importance = facet.importance;
  }

  -- The statements on the graph, with the content and the tool calls of the row.
  unfoldable pub link : VecRow f.Float E → Json → Json → Graph f.Float → Graph f.Float × Bool
  link facet content tool_calls g =
      let eid = facet.episode_id in
      let mentioned =
        write_entities eid (extract_entities c engines.patterns content)
          (add_episode (node_of facet) g) in
      elim (extract_code_refs tool_calls) [
        | none ↦ (mentioned, false)
        | some refs ↦ then_decisions eid content (write_refs eid refs mentioned)
      ]

  abbrev pub link_memory :
      FacetEvent → VecRow f.Float E → Episode → Memory f.Float E → Memory f.Float E × Bool
  link_memory event facet row m =
      let linked = link facet (content_in c row) (tool_calls_in c row) m.graph in
      if engines.opens_graph event then (record m { graph = linked.0 }, linked.1) else (m, false)

  -- Whether the call ends without an exception, and what it leaves.
  unfoldable pub process_one : FacetEvent → Memory f.Float E → Memory f.Float E × Bool
  process_one event m = elim (row_of_id event.episode_id m.db.episodes) [
    | none ↦ (m, true)
    | some row ↦ elim (facet_of event.episode_id row) [
      | none ↦ (m, false)
      | some facet ↦ link_memory event facet row (file_facet facet m)
    ]
  ]

  -- The databases of all projects.
  abbrev pub Memories : Type 0
  Memories = String → Memory f.Float E

  abbrev pub in_project : String → Memory f.Float E → Memories → Memories
  in_project p m memories q = if str_eq p q then m else memories q

  -- One round of `_run`: an exception of the call is caught. An empty queue lets it wait.
  unfoldable pub work_round : FacetQueue × Memories → FacetQueue × Memories
  work_round (q, memories) = elim q.events [
    | [] ↦ (q, memories)
    | event ∷ events ↦
        let done = process_one event (memories event.project_id) in
        (record q { events = events }, in_project event.project_id done.0 memories)
  ]

  unfoldable pub work : ℕ → FacetQueue × Memories → FacetQueue × Memories
  work zero s = s
  work (suc n) s = work n (work_round s)
