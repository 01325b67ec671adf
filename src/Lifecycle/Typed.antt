-- ===== src/Lifecycle/Typed.antt =====
-- The types of memories (`MemoryType` of src/spillover/facet/classifier.py), through all writes to a
-- project's memory.
use spillover.Prelude.{
  ℕ, String, ◌≡◌, refl, sym, subst, Bool, true, false, ◌||◌, none, some, List, [], ◌∷◌, inl, inr,
  arith, All, All-append, All-map, All-keep, All-if, any, keep, str_eq, if◌then◌else◌, Bool-cases,
  Option-cases,
}
use spillover.Json.{Json, truthy}
use spillover.Runtime.{Codec, Floats}
use spillover.Storage.{Episode, evict_row}
use spillover.Archive.{row_of}
use spillover.Facet.Links.{Graph, EpisodeNode, merge_episode, add_episode}
use spillover.Facet.{
  Engines, VecRow, Memory, text_to_classify, has_open_task, classify, calls_json, text_to_embed,
  facet_of, typed_row, node_of, link,
}
use spillover.Facet.Linked.{link-timeline}
use spillover.Decay.{faded_row, is_pinned}
use spillover.Lifecycle.{Reach}
use spillover.Lifecycle.Rules.{refiled, Rules, Reach-keeps}

-- `MemoryType`
abbrev pub memory_types : List String
memory_types = "procedural" ∷ "episodic" ∷ "semantic" ∷ "priority" ∷ "task" ∷ []

abbrev pub IsMemoryType : String → Type 0
IsMemoryType t = any (str_eq t) memory_types ≡ true

-- A row that was filed has a type of these.
abbrev pub IsTypedRow : Episode → Type 0
IsTypedRow e = elim e.memory_type [ none ↦ Unit {0} | some t ↦ IsMemoryType t ]

-- What the tests of `classify` choose.
abbrev chosen : Bool → Bool → Bool → Bool → String
chosen a b d e =
    if a
    then "task"
    else if b
    then "priority"
    else if d
    then "procedural"
    else if e
    then "semantic"
    else "episodic"

chosen-IsMemoryType : (a b d e : Bool) → IsMemoryType (chosen a b d e)
chosen-IsMemoryType true b d e = refl
chosen-IsMemoryType false true d e = refl
chosen-IsMemoryType false false true e = refl
chosen-IsMemoryType false false false true = refl
chosen-IsMemoryType false false false false = refl

typed_row-IsTypedRow :
    (i t : String) (e : Episode) → IsMemoryType t → IsTypedRow e → IsTypedRow (typed_row i t e)
typed_row-IsTypedRow i t e h k = elim (Bool-cases (str_eq e.id i)) [
  | inl same ↦ rw same h
  | inr other ↦ rw other k
]

evict_row-IsTypedRow :
    (ids : List String) (b : Bool) (e : Episode) → IsTypedRow e → IsTypedRow (evict_row ids b e)
evict_row-IsTypedRow ids b e h = elim (Bool-cases (any (λ j. str_eq e.id j) ids)) [
  | inl same ↦ rw same h
  | inr other ↦ rw other h
]

module _ (f : Floats) (c : Codec) {E : Type 0} (engines : Engines E) where
  classify-IsMemoryType :
      (content tool_calls : Json) (t : String)
      → classify f c engines content tool_calls ≡ some t
      → IsMemoryType t
  unfolding classify
  classify-IsMemoryType content tool_calls t e = elim (Option-cases (text_to_classify content)) [
    | inl bad ↦ absurd (ground arith)
    | inr (text, good) ↦ elim (Option-cases (has_open_task engines.task_patterns content)) [
      | inl bad ↦ absurd (ground arith)
      | inr (task, known) ↦
          let by_tools = truthy tool_calls || engines.is_procedural text in
          let flags = chosen task (engines.is_priority text) by_tools (engines.is_semantic text) in
          let same : flags ≡ t = ground arith in
          subst IsMemoryType same (chosen-IsMemoryType task _ by_tools _)
    ]
  ]

  facet_of-classified :
      (i : String) (row : Episode) (facet : VecRow f.Float E)
      → facet_of f c engines i row ≡ some facet
      → (content : Json) × (tool_calls : Json) × (classify f c engines content tool_calls
          ≡ some facet.memory_type)
  unfolding facet_of
  facet_of-classified i row facet e = elim (Option-cases (c.loads row.content_json)) [
    | inl bad ↦ absurd (ground arith)
    | inr (content, read) ↦ elim (Option-cases (c.loads (calls_json row))) [
      | inl bad ↦ absurd (ground arith)
      | inr (calls, read') ↦
          elim (Option-cases (engines.embed_text (text_to_embed f c engines content))) [
            | inl bad ↦ absurd (ground arith)
            | inr (vec, embedded) ↦ (content, calls, ground arith)
          ]
    ]
  ]

  facet_of-IsMemoryType :
      (i : String) (row : Episode) (facet : VecRow f.Float E)
      → facet_of f c engines i row ≡ some facet
      → IsMemoryType facet.memory_type
  unfolding facet_of
  facet_of-IsMemoryType i row facet e =
      let (content, calls, found) = facet_of-classified i row facet e in
      classify-IsMemoryType content calls facet.memory_type found

module _ (f : Floats) (exp : f.Float → f.Float) (c : Codec) {E : Type 0} (engines : Engines E)
    (p : String) (time : String → ℕ) where
  abbrev pub IsTyped : List Episode → List (VecRow f.Float E) → Graph f.Float → Type 0
  IsTyped es vs g =
      All IsTypedRow es
      × All (λ v. IsMemoryType v.memory_type) vs
      × All (λ n. IsMemoryType n.memory_type) g.episodes

  merge_episode-typed :
      (n : EpisodeNode f.Float) (ns : List (EpisodeNode f.Float))
      → IsMemoryType n.memory_type
      → All (λ n. IsMemoryType n.memory_type) ns
      → All (λ n. IsMemoryType n.memory_type) (merge_episode n ns)
  unfolding merge_episode
  merge_episode-typed n [] h k = (h, tt)
  merge_episode-typed n (m ∷ ms) h k =
      All-if (λ (x : EpisodeNode f.Float). IsMemoryType x.memory_type) (str_eq m.id n.id) (n ∷ ms)
        (m ∷ merge_episode n ms) (h, k.1) (k.0, merge_episode-typed n ms h k.1)

  faded_row-typed :
      (now : ℕ) (db : _) (v : VecRow f.Float E)
      → IsMemoryType v.memory_type
      → IsMemoryType (faded_row f exp now db v).memory_type
  faded_row-typed now db v h = elim (Bool-cases (is_pinned db v.episode_id)) [
    | inl pinned ↦ rw pinned h
    | inr free ↦ rw free h
  ]

  refiled-typed :
      (facet : VecRow f.Float E) (vs : List (VecRow f.Float E))
      → IsMemoryType facet.memory_type
      → All (λ v. IsMemoryType v.memory_type) vs
      → All (λ v. IsMemoryType v.memory_type) (refiled facet vs)
  refiled-typed facet vs h k =
      All-append (λ v. IsMemoryType v.memory_type) (keep _ vs) (facet ∷ [])
        (All-keep (λ v. IsMemoryType v.memory_type) _ vs k) (h, tt)

  link-typed :
      (facet : VecRow f.Float E) (content tool_calls : Json) (g : Graph f.Float)
      → IsMemoryType facet.memory_type
      → All (λ n. IsMemoryType n.memory_type) g.episodes
      → All
          (λ n. IsMemoryType n.memory_type)
          (link f c engines facet content tool_calls g).0.episodes
  unfolding add_episode
  link-typed facet content tool_calls g h k =
      subst (λ t. All (λ n. IsMemoryType n.memory_type) t.0)
        (sym (link-timeline f c engines facet content tool_calls g))
        (merge_episode-typed (node_of f c engines facet) g.episodes h k)

  IsTyped-rules : Rules f exp c engines p time IsTyped
  IsTyped-rules = record {
    starts = (tt, tt, tt);
    appends = λ es vs g eid turn timed free fresh h.
        (All-append IsTypedRow es (row_of c eid turn ∷ []) h.0 (tt, tt), h.1, h.2);
    marks = λ es vs g ids b h.
        (All-map _ _ (evict_row ids b) es (evict_row-IsTypedRow ids b) h.0, h.1, h.2);
    files = λ es vs g i row facet held read h.
        let typed = facet_of-IsMemoryType f c engines i row facet read in
        (
          All-map _ _ (typed_row facet.episode_id facet.memory_type) es
              (λ e. typed_row-IsTypedRow _ _ e typed) h.0,
          refiled-typed facet vs typed h.1,
          h.2,
        );
    links = λ es vs g i row facet held read h.
        let typed = facet_of-IsMemoryType f c engines i row facet read in
        (
          All-map _ _ (typed_row facet.episode_id facet.memory_type) es
              (λ e. typed_row-IsTypedRow _ _ e typed) h.0,
          refiled-typed facet vs typed h.1,
          link-typed facet _ _ g typed h.2,
        );
    fades = λ es vs g now db h.
        (h.0, All-map _ _ (faded_row f exp now db) vs (faded_row-typed now db) h.1, h.2);
    clears = λ es vs g h. (tt, tt, h.2);
    purges = λ es vs g h.
        (All-keep IsTypedRow _ es h.0, All-keep (λ v. IsMemoryType v.memory_type) _ vs h.1, h.2);
  }

  -- In every memory that calls lead to, in any order, the types of the filed rows, of the vectors and
  -- of the episodes in the graph are among the five of `MemoryType`.
  pub Reach-IsTyped :
      (m : Memory f.Float E)
      → Reach f exp c engines p time m
      → IsTyped m.db.episodes m.vectors m.graph
  Reach-IsTyped m r = Reach-keeps f exp c engines p time IsTyped IsTyped-rules r
