-- ===== src/Lifecycle/Timed.antt =====
-- The order of the episodes in the graph, through all writes to a project's memory.
use spillover.Prelude.{
  ℕ, ◌<◌, String, ◌≡◌, sym, ap, subst, ◌∙◌, Bool, true, false, not, ◌&&◌, Option, none, some, List,
  [], ◌∷◌, ◌++◌, inl, inr, arith, All, All-append, All-map, All-keep, All-if, any, leb, ltb, ltb→lt,
  str_eq, eq_iff, if◌then◌else◌, Bool-cases,
}
use spillover.Runtime.{Codec, Floats}
use spillover.Storage.{Episode, evict_row}
use spillover.Archive.{row_of}
use spillover.Retriever.Budget.{row_of_id}
use spillover.Facet.Links.{
  Graph, Edges, EpisodeNode, merge_edge, merge_episode, later_node, latest_before, after_edges,
  add_episode,
}
use spillover.Facet.{
  Engines, VecRow, Memory, facet_of, typed_row, content_in, tool_calls_in, node_of, link,
}
use spillover.Facet.Linked.{timeline, link-timeline, facet_of-fields}
use spillover.Facet.Rows.{row_of_id-id}
use spillover.Lifecycle.{Reach}
use spillover.Lifecycle.Rules.{Rules, Reach-keeps}

-- The edges from one episode to the next, and the walks along them.
abbrev pub HasEdge : Edges → String → String → Type 0
HasEdge edges a b = any (λ e. str_eq e.0 a && str_eq e.1 b) edges ≡ true

pub data Walk (edges : Edges) (a : String) : String → Type 0 where
  hop : {b : String} → HasEdge edges a b → Walk edges a b
  hops : {b d : String} → Walk edges a b → HasEdge edges b d → Walk edges a d

module _ (time : String → ℕ) where
  abbrev IsForward : Edges → Type 0
  IsForward = All (λ e. time e.0 < time e.1)

  HasEdge-lt :
      (a b : String) (edges : Edges) → IsForward edges → HasEdge edges a b → time a < time b
  HasEdge-lt a b [] h k = absurd (ground arith)
  HasEdge-lt a b (e ∷ es) h k = elim (Bool-cases (str_eq e.0 a && str_eq e.1 b)) [
    | inl here ↦
        let first : e.0 ≡ a = (eq_iff e.0 a).0 (ground arith) in
        let second : e.1 ≡ b = (eq_iff e.1 b).0 (ground arith) in
        subst (λ x. time x < time b) first (subst (λ y. time e.0 < time y) second h.0)
    | inr past ↦ HasEdge-lt a b es h.1 (rw past at k)
  ]

  Walk-lt : {edges : Edges} {a b : String} → IsForward edges → Walk edges a b → time a < time b
  Walk-lt {edges} {a} {b} h (hop e) = HasEdge-lt a b edges h e
  Walk-lt {edges} h (hops {b} {d} w e) = omega (arith, Walk-lt h w, HasEdge-lt b d edges h e)

  merge_edge-IsForward :
      (a b : String) (edges : Edges)
      → time a < time b
      → IsForward edges
      → IsForward (merge_edge a b edges)
  unfolding merge_edge
  merge_edge-IsForward a b edges lt h =
      All-if (λ e. time e.0 < time e.1) (any (λ e. str_eq e.0 a && str_eq e.1 b) edges) edges
        (edges ++ (a, b) ∷ []) h
        (All-append (λ e. time e.0 < time e.1) edges ((a, b) ∷ []) h (lt, tt))

  module _ {F : Type 0} where
    abbrev AreNodes : List (EpisodeNode F) → Type 0
    AreNodes = All (λ n. n.ts ≡ time n.id)

    merge_episode-AreNodes :
        (n : EpisodeNode F) (ns : List (EpisodeNode F))
        → n.ts ≡ time n.id
        → AreNodes ns
        → AreNodes (merge_episode n ns)
    unfolding merge_episode
    merge_episode-AreNodes n [] e h = (e, tt)
    merge_episode-AreNodes n (m ∷ ms) e h =
        All-if (λ (k : EpisodeNode F). k.ts ≡ time k.id) (str_eq m.id n.id) (n ∷ ms)
          (m ∷ merge_episode n ms) (e, h.1) (h.0, merge_episode-AreNodes n ms e h.1)

    -- The node that is found comes from an earlier time.
    abbrev IsBefore : ℕ → Option (EpisodeNode F) → Type 0
    IsBefore ts none = Unit
    IsBefore ts (some n) = (n.ts < ts) × (n.ts ≡ time n.id)

    later_node-IsBefore :
        (ts : ℕ) (n : EpisodeNode F) (o : Option (EpisodeNode F))
        → IsBefore ts (some n)
        → IsBefore ts o
        → IsBefore ts (some (later_node n o))
    later_node-IsBefore ts n none h k = h
    later_node-IsBefore ts n (some m) h k =
        elim (leb m.ts n.ts) as (λ b. IsBefore ts (some (if b then n else m))) [
          | true ↦ h
          | false ↦ k
        ]

    latest_before-IsBefore :
        (ts : ℕ) (ns : List (EpisodeNode F)) → AreNodes ns → IsBefore ts (latest_before ts ns)
    unfolding latest_before
    latest_before-IsBefore ts [] h = tt
    latest_before-IsBefore ts (n ∷ ns) h = elim (Bool-cases (ltb n.ts ts)) [
      | inl early ↦ rw early (
          later_node-IsBefore ts n (latest_before ts ns) (ltb→lt n.ts ts early, h.0)
            (latest_before-IsBefore ts ns h.1))
      | inr late ↦ rw late (latest_before-IsBefore ts ns h.1)
    ]

    after_edges-IsForward :
        (i : String) (o : Option (EpisodeNode F)) (edges : Edges)
        → IsBefore (time i) o
        → IsForward edges
        → IsForward (after_edges i o edges)
    after_edges-IsForward i none edges k h = h
    after_edges-IsForward i (some n) edges k h =
        merge_edge-IsForward n.id i edges (omega (arith, k.0, k.1)) h

    abbrev InOrder : List (EpisodeNode F) × Edges → Type 0
    InOrder g = AreNodes g.0 × IsForward g.1

    add_episode-InOrder :
        (n : EpisodeNode F) (g : Graph F)
        → n.ts ≡ time n.id
        → InOrder (timeline g)
        → InOrder (timeline (add_episode n g))
    unfolding add_episode
    add_episode-InOrder n g e (nodes, forward) =
        let nodes' = merge_episode-AreNodes n g.episodes e nodes in
        let found = latest_before n.ts (merge_episode n g.episodes) in
        (
          nodes',
          after_edges-IsForward n.id found g.after
              (subst (λ t. IsBefore t found) e (latest_before-IsBefore n.ts _ nodes')) forward,
        )

module _ (f : Floats) (exp : f.Float → f.Float) (c : Codec) {E : Type 0} (engines : Engines E)
    (p : String) (time : String → ℕ) where
  -- The rows have the times of their ids, and the graph is in order.
  abbrev IsTimed : List Episode → List (VecRow f.Float E) → Graph f.Float → Type 0
  IsTimed es vs g = All (λ e. e.ts ≡ time e.id) es × InOrder time (timeline g)

  found-timed :
      (i : String) (es : List Episode) (row : Episode)
      → All (λ e. e.ts ≡ time e.id) es
      → row_of_id i es ≡ some row
      → row.ts ≡ time row.id
  unfolding row_of_id
  found-timed i [] row h e = absurd (ground arith)
  found-timed i (x ∷ es) row h e = elim (Bool-cases (str_eq x.id i)) [
    | inl here ↦
        let same : x ≡ row = ground arith in subst (λ (r : Episode). r.ts ≡ time r.id) same h.0
    | inr past ↦ found-timed i es row h.1 (rw (past, row_of_id) at e)
  ]

  evict_row-timed :
      (ids : List String) (b : Bool) (e : Episode)
      → e.ts ≡ time e.id
      → (evict_row ids b e).ts ≡ time (evict_row ids b e).id
  evict_row-timed ids b e h = ground arith

  typed_row-timed :
      (i t : String) (e : Episode)
      → e.ts ≡ time e.id
      → (typed_row i t e).ts ≡ time (typed_row i t e).id
  typed_row-timed i t e h = ground arith

  IsTimed-rules : Rules f exp c engines p time IsTimed
  IsTimed-rules = record {
    starts = (tt, (tt, tt));
    appends = λ es vs g eid turn timed free fresh (rows, order).
        (All-append (λ e. e.ts ≡ time e.id) es (row_of c eid turn ∷ []) rows (timed, tt), order);
    marks = λ es vs g ids b (rows, order).
        (All-map _ _ (evict_row ids b) es (evict_row-timed ids b) rows, order);
    files = λ es vs g i row facet held read (rows, order). (
      All-map _ _ (typed_row facet.episode_id facet.memory_type) es (typed_row-timed _ _) rows,
      order,
    );
    links = λ es vs g i row facet held read (rows, order). (
      All-map _ _ (typed_row facet.episode_id facet.memory_type) es (typed_row-timed _ _) rows,
      linked es g i row facet held read rows order,
    );
    fades = λ es vs g now db h. h;
    clears = λ es vs g h. (tt, h.1);
    purges =
        λ es vs g h. (All-keep (λ e. e.ts ≡ time e.id) (λ e. not e.compaction_rescued) es h.0, h.1);
  }
    where
      linked :
          (es : List Episode) (g : Graph f.Float) (i : String) (row : Episode)
          (facet : VecRow f.Float E)
          → row_of_id i es ≡ some row
          → facet_of f c engines i row ≡ some facet
          → All (λ e. e.ts ≡ time e.id) es
          → InOrder time (timeline g)
          → InOrder time
              (timeline (link f c engines facet (content_in c row) (tool_calls_in c row) g).0)
      linked es g i row facet held read rows order =
          let (same_id, same_ts) = facet_of-fields f c engines i row facet read in
          let at = found-timed i es row rows held in
          let owner = row_of_id-id i es row held in
          subst (InOrder time) (sym (link-timeline f c engines facet _ _ g)) (
            add_episode-InOrder time (node_of f c engines facet) g
              (same_ts ∙ at ∙ ap time (owner ∙ sym same_id)) order)

  -- Along the edges of the graph that `causality_chain` follows time goes forward, in every memory
  -- that calls lead to, in any order: a walk along them leads to a turn from a later time, and none
  -- returns to where it began.
  pub Reach-walks_forward :
      (m : Memory f.Float E)
      → Reach f exp c engines p time m
      → ((a b : String) → Walk m.graph.after a b → time a < time b)
        × ((a : String) → ¬ Walk m.graph.after a a)
  Reach-walks_forward m r =
      let forward = (Reach-keeps f exp c engines p time IsTimed IsTimed-rules r).1.1 in
      (λ a b w. Walk-lt time forward w, λ a w. absurd (omega (arith, Walk-lt time forward w)))
