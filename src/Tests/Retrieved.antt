-- ===== src/Tests/Retrieved.antt =====
-- The ranking and the block of the retriever (src/spillover/retriever/fusion.py and
-- src/spillover/proxy/app.py), and the project of a request (src/spillover/proxy/middleware.py).
use spillover.Prelude.{
  ℕ, String, ◌≡◌, true, false, none, some, List, [], ◌∷◌, map, any, ltb, if◌then◌else◌, arith,
  or_else,
}
use spillover.Json.{null, str, nil, end}
use spillover.Runtime.{Codec}
use spillover.Adapters.{Conversation}
use spillover.Retriever.{Hit}
use spillover.Retriever.Fusion.{rrf_fuse}
use spillover.Tests.Retriever.{stored}
use spillover.Retriever.Fusion.Members.{has_id, count_id, IsDescending, rrf_fuse-IsFused}
use spillover.Proxy.Retrieve.{retrieve_ltm_block}
use spillover.Tests.Fixtures.{codec, floats, no_env}
use spillover.Tests.Upstream.{api_codec, limits, searches, hit}

abbrev rankings : List (List (Hit ℕ))
rankings = (hit "a" ∷ hit "b" ∷ []) ∷ (hit "b" ∷ []) ∷ []

abbrev weights : String → ℕ
weights t = 10000

ltb-asym : (x y : ℕ) → ltb x y ≡ true → ltb y x ≡ false
ltb-asym x y e = ground arith

rrf_fuse-IsFused_example :
    ((i : String)
      → count_id i (rrf_fuse floats weights rankings)
        ≡ (if any (any (has_id i)) rankings then 1 else 0))
    × IsDescending floats (map (λ h. h.score) (rrf_fuse floats weights rankings))
rrf_fuse-IsFused_example = rrf_fuse-IsFused floats ltb-asym weights rankings

abbrev conv : Conversation
conv = record {
  system = none;
  system_tokens = 0;
  turns =
      record {
        role = "user";
        content = str "where?";
        tool_calls = nil;
        token_count = 2;
        source_index = some 0;
      }
      ∷ [];
  model = none;
  max_tokens = null;
  extra = end;
}

abbrev block : String
block = or_else (retrieve_ltm_block floats api_codec limits searches no_env stored conv none) ""

abbrev hex_codec : Codec
hex_codec = record codec { sha1 = λ t. "0123456789abcdef" }
