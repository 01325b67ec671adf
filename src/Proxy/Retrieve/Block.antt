-- ===== src/Proxy/Retrieve/Block.antt =====
-- The size of the block that `_retrieve_ltm_block` of src/spillover/proxy/app.py returns.
use spillover.Prelude.{ℕ, ◌≤◌, String, ◌≡◌, Option, some, List, ◌⊎◌, length, take, keep, pos_part}
use spillover.Json.{Payload}
use spillover.Runtime.{Codec, Floats, Environ}
use spillover.Storage.{Db}
use spillover.Retriever.{Hit}
use spillover.Retriever.Budget.{is_found, hits_tokens}
use spillover.Retriever.Render.{render_ltm_block}
use spillover.Proxy.Retrieve.{Searches, Limits, fused_hits, budget_of}

module _ (f : Floats) (c : Codec) (limits : Limits f.Float) (searches : Searches f.Float)
    (env : Environ) (db : Db) (inbound : Option Payload) where
  -- The hits that the block shows, of those that the searches found for the query.
  abbrev pub IsWithin : String → List (Hit f.Float) → Type 0
  IsWithin query hits =
      ((n : ℕ) × (hits ≡ take n (keep (is_found c db) (fused_hits f c limits searches query))))
      × (length hits ≤ limits.retriever_topk)
      × (hits_tokens c db hits ≤ pos_part (budget_of f c limits searches env inbound))

  abbrev pub IsShown : String → Type 0
  IsShown block =
      (block ≡ "")
      ⊎ ((query : String) × (hits : List (Hit f.Float)) × IsWithin query hits
          × (render_ltm_block c db hits ≡ some block))
