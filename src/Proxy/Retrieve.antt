-- ===== src/Proxy/Retrieve.antt =====
-- `_retrieve_ltm_block` of src/spillover/proxy/app.py: what is found for the recent turns, fused, cut
-- to the budget and rendered.
pub mod Block
pub mod Engines
use spillover.Prelude.{
  ℕ, suc, ◌-◌, String, Bool, Option, none, some, List, [], ◌∷◌, ◌++◌, map, ◌==◌, str_eq,
  if◌then◌else◌, or_else, take, drop, length, ℤ, pos,
}
use spillover.Text.{join, strip}
use spillover.Json.{Json, str, arr, Payload}
use spillover.Runtime.{Codec, Floats, Environ}
use spillover.Storage.{Db}
use spillover.Adapters.{ConversationTurn, Conversation}
use spillover.Retriever.{Hit}
use spillover.Retriever.Budget.{trim_to_budget}
use spillover.Retriever.Fusion.{default_weight, rrf_fuse}
use spillover.Retriever.Render.{dict_texts, render_ltm_block}
use spillover.Proxy.Budget.{ltm_budget_for}

-- What the engines answer: the rows of `vec_episodes`, the searches by vector and by words, the
-- entities of a text, and the two walks over the graph, where `none` is an exception.
pub record Searches (F : Type 0) : Type 0 where
  pub vec_count : ℕ
  pub vector_topk : String → ℕ → List (Hit F)
  pub bm25_topk : String → ℕ → List (Hit F)
  pub extract_entities : String → List String
  pub graph_walk : List String → ℕ → Option (List (Hit F))
  pub causality_chain : List String → Option (List (Hit F))

-- The settings of the retriever in `Config`.
pub record Limits (F : Type 0) : Type 0 where
  pub retriever_topk : ℕ
  pub retriever_vector_k : ℕ
  pub retriever_graph_k : ℕ
  pub retriever_bm25_k : ℕ
  pub window_max : ℤ
  pub ltm_budget_pct : F

-- The loop over the recent turns; `none` is the TypeError of joining what is no text.
unfoldable pub query_parts : List ConversationTurn → Option (List String)
query_parts [] = some []
query_parts (t ∷ ts) = elim t.content [
  | str s ↦ elim (query_parts ts) [ none ↦ none | some ps ↦ some (s ∷ ps) ]
  | arr bs ↦ elim (dict_texts bs) [
    | none ↦ none
    | some texts ↦ elim (query_parts ts) [ none ↦ none | some ps ↦ some (join " " texts ∷ ps) ]
  ]
  | _ ↦ query_parts ts
]

-- `turns[-3:]`
abbrev pub recent_turns : List ConversationTurn → List ConversationTurn
recent_turns turns = drop (length turns - 3) turns

module _ (f : Floats) (c : Codec) (limits : Limits f.Float) (searches : Searches f.Float) where
  -- The walk over the graph, where there is something to begin with; an exception finds nothing.
  abbrev pub graph_hits : String → List (Hit f.Float)
  graph_hits query = elim (take 20 (searches.extract_entities query)) [
    | [] ↦ []
    | s ∷ ss ↦ or_else (searches.graph_walk (s ∷ ss) limits.retriever_graph_k) []
  ]

  abbrev pub causal_hits : List (Hit f.Float) → List (Hit f.Float) → List (Hit f.Float)
  causal_hits v_hits b_hits = elim (map (λ h. h.episode_id) (take 3 v_hits ++ take 3 b_hits)) [
    | [] ↦ []
    | i ∷ is ↦ or_else (searches.causality_chain (i ∷ is)) []
  ]

  -- The fused ranking, cut to `retriever_topk`.
  unfoldable pub fused_hits : String → List (Hit f.Float)
  fused_hits query =
      let v_hits = searches.vector_topk query limits.retriever_vector_k in
      let b_hits = searches.bm25_topk query limits.retriever_bm25_k in
      take limits.retriever_topk (
        rrf_fuse f (λ t. f.literal (default_weight t))
          (v_hits ∷ graph_hits query ∷ b_hits ∷ causal_hits v_hits b_hits ∷ []))

  abbrev pub budget_of : Environ → Option Payload → ℤ
  budget_of env none = f.trunc (f.mul_f (f.of_int limits.window_max) limits.ltm_budget_pct)
  budget_of env (some payload) = ltm_budget_for f c env payload

  -- From the point where the query is known.
  unfoldable pub retrieve_for : Environ → Db → Option Payload → String → Option String
  retrieve_for env db inbound query =
      if str_eq (strip query) ""
      then some ""
      else if searches.vec_count == 0
      then some ""
      else render_ltm_block c db (trim_to_budget c db (fused_hits query) (budget_of env inbound))

  unfoldable pub retrieve_ltm_block : Environ → Db → Conversation → Option Payload → Option String
  retrieve_ltm_block env db conv inbound = elim conv.turns [
    | [] ↦ some ""
    | t ∷ ts ↦ elim (query_parts (recent_turns (t ∷ ts))) [
      | none ↦ none
      | some parts ↦ retrieve_for env db inbound (join "\n" parts)
    ]
  ]
