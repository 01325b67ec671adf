-- ===== src/Eval.antt =====
-- src/spillover/eval: how often the retriever finds what it should (dataset.py, recall_at_k.py). The
-- report is left out.
pub mod Recall
use Prim.Native.Char.{code}
use Prim.Native.String.{[] as nothing, ◌∷◌ as prepend}
use spillover.Prelude.{
  ℕ, suc, String, Bool, true, false, ◌||◌, Option, none, some, List, [], ◌∷◌, ◌>>=◌, map, take,
  keep, length, leb, ◌==◌, str_eq, if◌then◌else◌, or_else, pos,
}
use spillover.Text.{strip}
use spillover.Json.{Json, str, obj, Fields, get}
use spillover.Runtime.{Codec, Floats}
use spillover.Retriever.{Hit}
use spillover.Retriever.Fusion.{default_weight, rrf_fuse}
use spillover.Proxy.Retrieve.{Searches}

-- `notes` is a text or another value.
pub record EvalPair : Type 0 where
  pub query : String
  pub expected_episode_id : String
  pub notes : Json

-- A value of the dataset has to be a text; the code fails at another one when it is used.
abbrev pub text_in : Json → Option String
text_in (str t) = some t
text_in _ = none

-- The pair of a line, where `none` is an exception.
unfoldable pub pair_of : Json → Option EvalPair
pair_of (obj d) = do
  query ← get "query" d
  query_text ← text_in query
  expected ← get "expected_episode_id" d
  expected_id ← text_in expected
  some (record {
    query = query_text;
    expected_episode_id = expected_id;
    notes = or_else (get "notes" d) (str "");
  })
pair_of _ = none

-- `not line or line.startswith("#")`
abbrev pub is_skipped : String → Bool
is_skipped nothing = true
is_skipped (prepend a t) = code a == b'#'

unfoldable pub load_pairs : Codec → List String → Option (List EvalPair)
load_pairs c [] = some []
load_pairs c (line ∷ lines) =
    let rest = load_pairs c lines in
    let with_pair : Option (List EvalPair) = do
      value ← c.loads (strip line)
      pair ← pair_of value
      pairs ← rest
      some (pair ∷ pairs)
    in if is_skipped (strip line) then rest else with_pair

pub record RecallResult : Type 0 where
  pub pair : EvalPair
  pub rank : Option ℕ
  pub top_ids : List String

abbrev pub next_rank : Option ℕ → Option ℕ
next_rank none = none
next_rank (some n) = some (suc n)

-- `top_ids.index(i) + 1`, if `i` is among them
unfoldable pub rank_of : String → List String → Option ℕ
rank_of i [] = none
rank_of i (j ∷ js) = if str_eq i j then some 1 else next_rank (rank_of i js)

module _ (f : Floats) (searches : Searches f.Float) (vector_k graph_k final_k : ℕ) where
  -- `g_hits`
  abbrev pub graph_hits_for : String → List (Hit f.Float)
  graph_hits_for query = elim (take 20 (searches.extract_entities query)) [
    | [] ↦ []
    | s ∷ ss ↦ or_else (searches.graph_walk (s ∷ ss) graph_k) []
  ]

  unfoldable pub evaluate_pair : EvalPair → RecallResult
  evaluate_pair pair =
      let v_hits = searches.vector_topk pair.query vector_k in
      let fused = take final_k (
        rrf_fuse f (λ t. f.literal (default_weight t)) (v_hits ∷ graph_hits_for pair.query ∷ [])) in
      let ids = map (λ h. h.episode_id) fused in
      record { pair = pair; rank = rank_of pair.expected_episode_id ids; top_ids = ids }

  unfoldable pub evaluate_recall : List EvalPair → List RecallResult
  evaluate_recall pairs = map evaluate_pair pairs

-- `r.rank is not None and r.rank <= k`
abbrev pub is_within : ℕ → Option ℕ → Bool
is_within k none = false
is_within k (some n) = leb n k

abbrev pub is_hit : ℕ → RecallResult → Bool
is_hit k r = is_within k r.rank

unfoldable pub recall_hits : ℕ → List RecallResult → ℕ
recall_hits k results = length (keep (is_hit k) results)

unfoldable pub recall_at_k : (f : Floats) → List RecallResult → ℕ → f.Float
recall_at_k f [] k = f.literal "0.0"
recall_at_k f (r ∷ rs) k =
    f.div_f (f.of_int (pos (recall_hits k (r ∷ rs)))) (f.of_int (pos (length (r ∷ rs))))
