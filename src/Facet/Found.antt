-- ===== src/Facet/Found.antt =====
-- What the worker of src/spillover/facet/worker.py links is what the walks of
-- src/spillover/retriever/graph.py read.
use spillover.Prelude.{
  ℕ, ◌≤◌, String, ◌≡◌, refl, ap, ◌∙◌, Bool, true, false, ◌&&◌, some, List, [], ◌∷◌, inl, inr, arith,
  All, All-imp, any, any-append, keep, map, length, length-take, str_eq, eq_iff, Bool-cases,
  Option-cases,
}
use spillover.Json.{Json}
use spillover.Runtime.{Codec, Floats}
use spillover.Storage.{Episode, contains}
use spillover.Retriever.Budget.{row_of_id}
use spillover.Proxy.Rescue.{FacetEvent}
use spillover.Facet.Extract.{Entity, Decision, CodeRef, extract_entities, extract_code_refs}
use spillover.Facet.Links.{
  Graph, Edges, EpisodeNode, merge_edge, merge_episode, add_episode, add_entity, add_file,
  add_decision,
}
use spillover.Facet.{
  Engines, VecRow, Memory, facet_of, content_in, tool_calls_in, node_of, write_entities, write_refs,
  write_decisions, then_decisions, link, process_one,
}
use spillover.Facet.Linked.{link-timeline}
use spillover.Retriever.Answers.{mentioning, node_with_id}
use spillover.Retriever.Walks.Direct.{take-all}

-- The edge is there.
abbrev joins : String → String → Edges → Bool
joins a b = any (λ e. str_eq e.0 a && str_eq e.1 b)

joins-merge_edge_self : (a b : String) (edges : Edges) → joins a b (merge_edge a b edges) ≡ true
unfolding merge_edge
joins-merge_edge_self a b edges = elim (Bool-cases (joins a b edges)) [
  | inl old ↦ rw old old
  | inr new ↦ rw new (
      any-append (λ e. str_eq e.0 a && str_eq e.1 b) edges ((a, b) ∷ [])
      ∙ ground (arith, eq_iff a a, eq_iff b b))
]

joins-merge_edge :
    (a b a' b' : String) (edges : Edges)
    → joins a b edges ≡ true
    → joins a b (merge_edge a' b' edges) ≡ true
unfolding merge_edge
joins-merge_edge a b a' b' edges h = elim (Bool-cases (joins a' b' edges)) [
  | inl old ↦ rw old h
  | inr new ↦
      rw new (any-append (λ e. str_eq e.0 a && str_eq e.1 b) edges ((a', b') ∷ []) ∙ ground arith)
]

-- A row for each edge, where the limit leaves all.
rows_of : List String → Edges → List String
rows_of names edges = map (λ e. e.0) (keep (λ e. contains e.1 names) edges)

length-rows_of : (names : List String) (edges : Edges) → length (rows_of names edges) ≤ length edges
unfolding rows_of
length-rows_of names [] = omega arith
length-rows_of names (e ∷ es) = ground (arith, length-rows_of names es)

rows_of-listed :
    (a b : String) (edges : Edges)
    → joins a b edges ≡ true
    → contains a (rows_of (b ∷ []) edges) ≡ true
unfolding rows_of
rows_of-listed a b [] h = absurd (ground arith)
rows_of-listed a b (e ∷ es) h = ground (arith, eq_iff e.0 a, eq_iff a e.0, rows_of-listed a b es)

pub length-mentioning :
    {F : Type 0} (g : Graph F) (names : List String) (limit : ℕ)
    → length (mentioning g names limit) ≤ length g.mentions
unfolding mentioning rows_of
length-mentioning g names limit =
    omega (arith, length-take limit (rows_of names g.mentions), length-rows_of names g.mentions)

-- With a limit that cuts nothing off, the episode is among those that mention the entity.
joins-mentioning :
    {F : Type 0} (a b : String) (g : Graph F) (limit : ℕ)
    → joins a b g.mentions ≡ true
    → length g.mentions ≤ limit
    → contains a (mentioning g (b ∷ []) limit) ≡ true
unfolding mentioning rows_of
joins-mentioning a b g limit h fits =
    ap (contains a) (
      take-all limit (rows_of (b ∷ []) g.mentions)
        (omega (arith, length-rows_of (b ∷ []) g.mentions)))
    ∙ rows_of-listed a b g.mentions h

node_with_id-merge_episode :
    {F : Type 0} (n : EpisodeNode F) (ns : List (EpisodeNode F))
    → node_with_id n.id (merge_episode n ns) ≡ some n
unfolding node_with_id merge_episode
node_with_id-merge_episode n [] = ground (arith, eq_iff n.id n.id)
node_with_id-merge_episode n (m ∷ ms) = elim (Bool-cases (str_eq m.id n.id)) [
  | inl same ↦ let self = (eq_iff n.id n.id).1 refl in rw (same, self, node_with_id) refl
  | inr other ↦ rw (other, other, node_with_id) (node_with_id-merge_episode n ms)
]

module _ (f : Floats) (c : Codec) {E : Type 0} (engines : Engines E) where
  write_entities-keeps :
      (i a b : String) (es : List Entity) (g : Graph f.Float)
      → joins a b g.mentions ≡ true
      → joins a b (write_entities f c engines i es g).mentions ≡ true
  unfolding write_entities add_entity
  write_entities-keeps i a b [] g h = h
  write_entities-keeps i a b (e ∷ es) g h =
      write_entities-keeps i a b es (add_entity i e.name e.kind g)
        (joins-merge_edge a b i e.name g.mentions h)

  write_entities-joins :
      (i : String) (es : List Entity) (g : Graph f.Float)
      → All (λ e. joins i e.name (write_entities f c engines i es g).mentions ≡ true) es
  unfolding write_entities add_entity
  write_entities-joins i [] g = tt
  write_entities-joins i (e ∷ es) g = (
    write_entities-keeps i i e.name es (add_entity i e.name e.kind g)
        (joins-merge_edge_self i e.name g.mentions),
    write_entities-joins i es (add_entity i e.name e.kind g),
  )

  write_refs-mentions :
      (i : String) (rs : List CodeRef) (g : Graph f.Float)
      → (write_refs f c engines i rs g).0.mentions ≡ g.mentions
  unfolding write_refs add_file
  write_refs-mentions i [] g = refl
  write_refs-mentions i (r ∷ rs) g = elim (Option-cases r.path) [
    | inl bad ↦ rw (bad, write_refs) refl
    | inr (path, good) ↦ rw (good, write_refs) (write_refs-mentions i rs _)
  ]

  write_decisions-mentions :
      (i : String) (ds : List Decision) (g : Graph f.Float)
      → (write_decisions f c engines i ds g).mentions ≡ g.mentions
  unfolding write_decisions add_decision
  write_decisions-mentions i [] g = refl
  write_decisions-mentions i (d ∷ ds) g = write_decisions-mentions i ds _

  then_decisions-mentions :
      (i : String) (content : Json) (g : Graph f.Float × Bool)
      → (then_decisions f c engines i content g).0.mentions ≡ g.0.mentions
  then_decisions-mentions i content (g, false) = refl
  then_decisions-mentions i content (g, true) = write_decisions-mentions i _ g

  link-mentions :
      (facet : VecRow f.Float E) (content tool_calls : Json) (g : Graph f.Float)
      → (link f c engines facet content tool_calls g).0.mentions
        ≡ (write_entities f c engines facet.episode_id
            (extract_entities c engines.patterns content)
            (add_episode (node_of f c engines facet) g)).mentions
  unfolding link
  link-mentions facet content tool_calls g = elim (Option-cases (extract_code_refs tool_calls)) [
    | inl bad ↦ rw (bad, link) refl
    | inr (refs, good) ↦
        rw (good, link)
          (then_decisions-mentions facet.episode_id content (write_refs f c engines _ refs _)
            ∙ write_refs-mentions facet.episode_id refs _)
  ]

  -- The walks find the node of the episode with the facet's columns, and, up to a limit, the episode
  -- under the names of all its entities.
  abbrev pub IsLinked : VecRow f.Float E → List Entity → ℕ → Graph f.Float → Type 0
  IsLinked facet entities limit g =
      (node_with_id facet.episode_id g.episodes ≡ some (node_of f c engines facet))
      × All (λ e. contains facet.episode_id (mentioning g (e.name ∷ []) limit) ≡ true) entities

  -- Once the worker has filed an episode and could open the graph, also where the links to files fail,
  -- the graph's queries give the episode's type, importance and time, and find it under each entity
  -- that its content names, if their limit is no less than the edges to entities.
  pub process_one-IsLinked :
      (event : FacetEvent) (m : Memory f.Float E) (row : Episode) (facet : VecRow f.Float E)
      (limit : ℕ)
      → row_of_id event.episode_id m.db.episodes ≡ some row
      → facet_of f c engines event.episode_id row ≡ some facet
      → engines.opens_graph event ≡ true
      → length (process_one f c engines event m).0.graph.mentions ≤ limit
      → IsLinked facet
          (extract_entities c engines.patterns (content_in c row))
          limit
          (process_one f c engines event m).0.graph
  unfolding process_one
  process_one-IsLinked event m row facet limit held read opened =
      rw (held, read, opened, process_one) (linked (content_in c row) (tool_calls_in c row))
    where
      linked :
          (content tool_calls : Json)
          → length (link f c engines facet content tool_calls m.graph).0.mentions ≤ limit
          → IsLinked facet
              (extract_entities c engines.patterns content)
              limit
              (link f c engines facet content tool_calls m.graph).0
      linked content tool_calls fits =
          let es = extract_entities c engines.patterns content in
          let g = (link f c engines facet content tool_calls m.graph).0 in
          let same = link-mentions facet content tool_calls m.graph in
          (
            ap (λ t. node_with_id facet.episode_id t.0)
                  (link-timeline f c engines facet content tool_calls m.graph)
                ∙ (unfold add_episode in
                    node_with_id-merge_episode (node_of f c engines facet) m.graph.episodes),
            All-imp _ _ es
                (λ e joined.
                  joins-mentioning facet.episode_id e.name g limit
                    (ap (joins facet.episode_id e.name) same ∙ joined) fits)
                (write_entities-joins facet.episode_id es
                  (add_episode (node_of f c engines facet) m.graph)),
          )
