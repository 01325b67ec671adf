-- ===== src/Tests/Retriever.antt =====
-- The cut of the hits to a budget (src/spillover/retriever/budget.py) on two rows.
use spillover.Prelude.{ℕ, String, ◌≡◌, refl, none, false, List, [], ◌∷◌, pos}
use spillover.Json.{str, nil}
use spillover.Storage.{Db, empty_db}
use spillover.Archive.{Turn, row_of}
use spillover.Retriever.{Hit}
use spillover.Retriever.Budget.{row_of_id, trim_from, trim_to_budget}
use spillover.Tests.Fixtures.{codec}

abbrev turn : Turn
turn = record {
  project_id = "p";
  role = "user";
  content = str "hello";
  tool_calls = nil;
  code_refs = nil;
  token_count = 3;
  ts = 1;
  compaction_rescued = false;
}

abbrev pub stored : Db
stored = record empty_db { episodes = row_of codec "a" turn ∷ row_of codec "b" turn ∷ [] }

abbrev hit : String → Hit ℕ
hit i = record {
  episode_id = i;
  score = 1;
  memory_type = none;
  importance = none;
  ts = none;
  source = "vector";
}

abbrev hits : List (Hit ℕ)
hits = hit "a" ∷ hit "gone" ∷ hit "b" ∷ []

-- Of three hits, one without a row, a budget of five leaves the first.
hits_cut : trim_to_budget codec stored hits (pos 5) ≡ hit "a" ∷ []
unfolding trim_to_budget trim_from row_of_id
hits_cut = refl
