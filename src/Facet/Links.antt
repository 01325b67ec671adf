-- ===== src/Facet/Links.antt =====
-- The graph of a project, with the tables of src/spillover/storage/kuzu_schema.cypher and the
-- statements of src/spillover/facet/worker.py. A MATCH in front of the MERGE of an edge finds both
-- ends, since the worker has merged them before. The tables Command and RAN have no writer.
use spillover.Prelude.{
  ℕ, String, Option, none, some, List, [], ◌∷◌, ◌++◌, ◌&&◌, any, ltb, leb, str_eq, if◌then◌else◌,
}

pub record EpisodeNode (F : Type 0) : Type 0 where
  pub id : String
  pub ts : ℕ
  pub memory_type : String
  pub importance : F

-- The nodes of the other tables: a key, and the column beside it.
abbrev pub Nodes : Type 0
Nodes = List (String × String)

abbrev pub Edges : Type 0
Edges = List (String × String)

pub record Graph (F : Type 0) : Type 0 where
  pub episodes : List (EpisodeNode F)
  pub entities : Nodes
  pub files : Nodes
  pub decisions : Nodes
  pub after : Edges
  pub mentions : Edges
  pub touched : Edges
  pub implements : Edges

abbrev pub empty_graph : {F : Type 0} → Graph F
empty_graph = record {
  episodes = [];
  entities = [];
  files = [];
  decisions = [];
  after = [];
  mentions = [];
  touched = [];
  implements = [];
}

-- `MERGE (n:T {key: $key}) SET n.column = $value`
unfoldable pub merge_node : String → String → Nodes → Nodes
merge_node key value [] = (key, value) ∷ []
merge_node key value (n ∷ ns) =
    if str_eq n.0 key then (key, value) ∷ ns else n ∷ merge_node key value ns

-- `MERGE (a)-[:T]->(b)`
unfoldable pub merge_edge : String → String → Edges → Edges
merge_edge a b edges =
    if any (λ e. str_eq e.0 a && str_eq e.1 b) edges then edges else edges ++ (a, b) ∷ []

module _ {F : Type 0} where
  -- `MERGE (e:Episode {id: $id}) SET e.ts = $ts, ...`
  unfoldable pub merge_episode : EpisodeNode F → List (EpisodeNode F) → List (EpisodeNode F)
  merge_episode n [] = n ∷ []
  merge_episode n (m ∷ ms) = if str_eq m.id n.id then n ∷ ms else m ∷ merge_episode n ms

  -- The later of two nodes; of two from the same time the first.
  abbrev pub later_node : EpisodeNode F → Option (EpisodeNode F) → EpisodeNode F
  later_node n none = n
  later_node n (some m) = if leb m.ts n.ts then n else m

  -- `MATCH (e:Episode) WHERE e.ts < $ts RETURN e.id, e.ts ORDER BY e.ts DESC LIMIT 1`
  unfoldable pub latest_before : ℕ → List (EpisodeNode F) → Option (EpisodeNode F)
  latest_before ts [] = none
  latest_before ts (n ∷ ns) =
      let rest = latest_before ts ns in if ltb n.ts ts then some (later_node n rest) else rest

  abbrev pub after_edges : String → Option (EpisodeNode F) → Edges → Edges
  after_edges i none edges = edges
  after_edges i (some prev) edges = merge_edge prev.id i edges

  -- The node of the episode, and the edge from the one before it.
  unfoldable pub add_episode : EpisodeNode F → Graph F → Graph F
  add_episode n g =
      let nodes = merge_episode n g.episodes in
      record g { episodes = nodes; after = after_edges n.id (latest_before n.ts nodes) g.after }

  unfoldable pub add_entity : String → String → String → Graph F → Graph F
  add_entity eid name kind g = record g {
    entities = merge_node name kind g.entities;
    mentions = merge_edge eid name g.mentions;
  }

  unfoldable pub add_file : String → String → String → Graph F → Graph F
  add_file eid path ext g = record g {
    files = merge_node path ext g.files;
    touched = merge_edge eid path g.touched;
  }

  unfoldable pub add_decision : String → String → String → Graph F → Graph F
  add_decision eid hash summary g = record g {
    decisions = merge_node hash summary g.decisions;
    implements = merge_edge eid hash g.implements;
  }
