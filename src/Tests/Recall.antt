-- ===== src/Tests/Recall.antt =====
-- The recall (src/spillover/eval/recall_at_k.py) and the placements of the block
-- (src/spillover/proxy/app.py) at concrete inputs.
use spillover.Prelude.{
  ℕ, ◌≤◌, String, ◌≡◌, refl, some, none, List, [], ◌∷◌, ◌++◌, All, keep, length, str_eq,
  if◌then◌else◌,
}
use spillover.Json.{str, Message}
use spillover.Runtime.{Environ}
use spillover.Retriever.{Hit}
use spillover.Eval.{EvalPair, evaluate_recall, recall_hits}
use spillover.Eval.Recall.{is_recalled, recall_hits-evaluate_recall}
use spillover.Proxy.Retrieve.{Searches}
use spillover.Proxy.Placement.{pair_of_turns, ask_between, ask_turns, place_ltm}
use spillover.Proxy.Placement.Order.{IsOther, place_ltm-IsPlaced}
use spillover.Tests.Fixtures.{floats, says, request}

abbrev hit : String → Hit ℕ
hit i = record {
  episode_id = i;
  score = 1;
  memory_type = none;
  importance = none;
  ts = none;
  source = "vector";
}

abbrev searches : Searches ℕ
searches = record {
  vec_count = 2;
  vector_topk = λ q k. hit "a" ∷ hit "b" ∷ [];
  bm25_topk = λ q k. [];
  extract_entities = λ q. [];
  graph_walk = λ ns limit. none;
  causality_chain = λ is. none;
}

abbrev pairs : List EvalPair
pairs =
    record { query = "q"; expected_episode_id = "b"; notes = str "" }
    ∷ record { query = "q"; expected_episode_id = "gone"; notes = str "" }
    ∷ []

recall_hits-evaluate_recall_example :
    let results = evaluate_recall floats searches 50 50 20 pairs in
    ((k : ℕ) → recall_hits k results ≡ length (keep (is_recalled k) results))
    × ((k l : ℕ) → k ≤ l → recall_hits k results ≤ recall_hits l results)
recall_hits-evaluate_recall_example = recall_hits-evaluate_recall floats searches 50 50 20 pairs

abbrev between : Environ
between k = if str_eq k "SPILLOVER_LTM_PLACEMENT" then some "between" else none

abbrev behind : List Message
behind = says "assistant" "b" ∷ []

abbrev before : List Message
before = says "user" "c" ∷ says "assistant" "d" ∷ []

abbrev asked : List Message
asked = before ++ says "user" "a" ∷ behind

place_ltm-IsPlaced_example :
    (between "SPILLOVER_LTM_PLACEMENT" ≡ some "between"
      → All IsOther behind
      → place_ltm between (request asked) "x" ≡ record (request asked) {
        messages = before ++ (pair_of_turns ask_between "x" ++ says "user" "a" ∷ behind);
      })
    × (between "SPILLOVER_LTM_PLACEMENT" ≡ none
        → All IsOther before
        → place_ltm between (request asked) "x" ≡ record (request asked) {
          messages = before ++ (pair_of_turns ask_turns "x" ++ says "user" "a" ∷ behind);
        })
place_ltm-IsPlaced_example =
    place_ltm-IsPlaced between (request asked) "x" before behind (says "user" "a") refl refl
      (λ e. cc)
