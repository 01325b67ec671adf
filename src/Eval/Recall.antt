-- ===== src/Eval/Recall.antt =====
-- What the recall of src/spillover/eval/recall_at_k.py counts.
use spillover.Prelude.{
  ℕ, zero, suc, ◌≤◌, String, ◌≡◌, refl, ◌∙◌, Bool, true, false, Option, none, some, List, [], ◌∷◌,
  inl, inr, arith, map, take, keep, length, str_eq, Bool-cases,
}
use spillover.Runtime.{Floats}
use spillover.Storage.{contains}
use spillover.Proxy.Retrieve.{Searches}
use spillover.Eval.{
  EvalPair, RecallResult, rank_of, evaluate_pair, evaluate_recall, next_rank, is_within, is_hit,
  recall_hits,
}

next_rank-zero : (o : Option ℕ) → is_within 0 (next_rank o) ≡ false
next_rank-zero none = refl
next_rank-zero (some n) = ground arith

next_rank-suc : (k : ℕ) (o : Option ℕ) → is_within (suc k) (next_rank o) ≡ is_within k o
next_rank-suc k none = refl
next_rank-suc k (some n) = ground arith

rank_of-within :
    (k : ℕ) (i : String) (ids : List String) → is_within k (rank_of i ids) ≡ contains i (take k ids)
unfolding rank_of
rank_of-within zero i [] = refl
rank_of-within (suc k) i [] = refl
rank_of-within zero i (j ∷ js) = elim (Bool-cases (str_eq i j)) [
  | inl here ↦ rw here refl
  | inr past ↦ rw past (next_rank-zero (rank_of i js))
]
rank_of-within (suc k) i (j ∷ js) = elim (Bool-cases (str_eq i j)) [
  | inl here ↦ rw here (ground arith)
  | inr past ↦ rw past (next_rank-suc k (rank_of i js) ∙ rank_of-within k i js)
]

-- Whether the expected episode is among the first `k` ids that were found for a pair.
abbrev pub is_recalled : ℕ → RecallResult → Bool
is_recalled k r = contains r.pair.expected_episode_id (take k r.top_ids)

length-keep_same :
    (p q : RecallResult → Bool) (f : EvalPair → RecallResult)
    → ((x : EvalPair) → p (f x) ≡ q (f x))
    → (xs : List EvalPair) → length (keep p (map f xs)) ≡ length (keep q (map f xs))
length-keep_same p q f same [] = refl
length-keep_same p q f same (x ∷ xs) = ground (arith, same x, length-keep_same p q f same xs)

length-keep_mono :
    (p q : RecallResult → Bool)
    → ((x : RecallResult) → p x ≡ true → q x ≡ true)
    → (xs : List RecallResult) → length (keep p xs) ≤ length (keep q xs)
length-keep_mono p q imp [] = omega arith
length-keep_mono p q imp (x ∷ xs) = ground (arith, imp x, length-keep_mono p q imp xs)

is_within_mono : (k l : ℕ) (o : Option ℕ) → k ≤ l → is_within k o ≡ true → is_within l o ≡ true
is_within_mono k l none le h = h
is_within_mono k l (some n) le h = ground arith

-- The count behind the recall at `k` is that of the pairs whose episode is among the first `k` ids
-- found for them, and a larger `k` counts no fewer.
pub recall_hits-evaluate_recall :
    (f : Floats) (searches : Searches f.Float) (vector_k graph_k final_k : ℕ)
    (pairs : List EvalPair)
    → let results = evaluate_recall f searches vector_k graph_k final_k pairs in
      ((k : ℕ) → recall_hits k results ≡ length (keep (is_recalled k) results))
      × ((k l : ℕ) → k ≤ l → recall_hits k results ≤ recall_hits l results)
unfolding recall_hits evaluate_recall evaluate_pair
recall_hits-evaluate_recall f searches vector_k graph_k final_k pairs = (
  λ k.
      length-keep_same (is_hit k) (is_recalled k)
        (evaluate_pair f searches vector_k graph_k final_k)
        (λ x. rank_of-within k x.expected_episode_id _) pairs,
  λ k l le.
      length-keep_mono (is_hit k) (is_hit l) (λ r. is_within_mono k l r.rank le)
        (evaluate_recall f searches vector_k graph_k final_k pairs),
)
