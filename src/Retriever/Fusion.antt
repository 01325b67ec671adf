-- ===== src/Retriever/Fusion.antt =====
-- src/spillover/retriever/fusion.py: the rankings of several searches made into one.
pub mod Members
use spillover.Prelude.{
  ℕ, suc, ◌+◌, String, Bool, Option, none, some, List, [], ◌∷◌, ◌++◌, map, str_eq, if◌then◌else◌,
  pos,
}
use spillover.Runtime.{Floats}
use spillover.Retriever.{Hit}

abbrev pub rrf_k : ℕ
rrf_k = 60

-- `DEFAULT_TYPE_WEIGHTS.get(t, 1.0)`, by the literal
unfoldable pub default_weight : String → String
default_weight t =
    if str_eq t "task"
    then "1.4"
    else if str_eq t "priority"
    then "1.5"
    else if str_eq t "procedural"
    then "1.2"
    else "1.0"

-- `hit.memory_type or "episodic"`
abbrev pub type_or_episodic : Option String → String
type_or_episodic none = "episodic"
type_or_episodic (some t) = if str_eq t "" then "episodic" else t

module _ (f : Floats) where
  -- One key of the dicts `scores` and `meta`, which have the same keys in the same order.
  pub record Scored : Type 0 where
    pub total : f.Float
    pub meta : Hit f.Float

  unfoldable pub contribution : (String → f.Float) → ℕ → Hit f.Float → f.Float
  contribution weights rank hit =
      f.div_f (weights (type_or_episodic hit.memory_type)) (f.of_int (pos (rrf_k + rank)))

  -- The body of the inner loop, on the dicts.
  unfoldable pub add_hit : f.Float → Hit f.Float → List Scored → List Scored
  add_hit contrib hit [] = record { total = f.add_f (f.literal "0.0") contrib; meta = hit } ∷ []
  add_hit contrib hit (s ∷ ss) =
      if str_eq s.meta.episode_id hit.episode_id
      then (record s { total = f.add_f s.total contrib }) ∷ ss
      else s ∷ add_hit contrib hit ss

  unfoldable pub add_ranking :
      (String → f.Float) → ℕ → List (Hit f.Float) → List Scored → List Scored
  add_ranking weights rank [] ss = ss
  add_ranking weights rank (h ∷ hs) ss =
      add_ranking weights (suc rank) hs (add_hit (contribution weights rank h) h ss)

  unfoldable pub add_rankings :
      (String → f.Float) → List (List (Hit f.Float)) → List Scored → List Scored
  add_rankings weights [] ss = ss
  add_rankings weights (r ∷ rs) ss = add_rankings weights rs (add_ranking weights 1 r ss)

  -- `-scores[t] < -scores[u]`
  abbrev pub key_lt : Scored → Scored → Bool
  key_lt t u = f.lt_f u.total t.total

  -- `sorted` by that key, as a stable insertion sort.
  unfoldable pub insert_scored : Scored → List Scored → List Scored
  insert_scored t [] = t ∷ []
  insert_scored t (u ∷ us) = if key_lt u t then u ∷ insert_scored t us else t ∷ u ∷ us

  unfoldable pub sort_scored : List Scored → List Scored
  sort_scored [] = []
  sort_scored (t ∷ ts) = insert_scored t (sort_scored ts)

  abbrev pub fused_hit : Scored → Hit f.Float
  fused_hit s = record s.meta { score = s.total; source = "fusion" }

  unfoldable pub rrf_fuse : (String → f.Float) → List (List (Hit f.Float)) → List (Hit f.Float)
  rrf_fuse weights rankings = map fused_hit (sort_scored (add_rankings weights rankings []))
