-- ===== src/Tokenizer.antt =====
-- src/spillover/eviction/tokenizer.py: about one token for four characters.
use Prim.Native.String.{count}
use spillover.Prelude.{ℕ, ◌+◌, ◌*◌, ◌/◌, ◌≤◌, ◌<◌, max, String, ◌≡◌, arith, ◌==◌, if◌then◌else◌}
use spillover.Json.{Json, null, bool, int, real, str, arr, obj, Message, content_of}
use spillover.Runtime.{Codec}

-- `_normalize`; the lists and dicts of JSON are printed with sorted keys
unfoldable pub normalize : Codec → Json → String
normalize c null = ""
normalize c (str t) = t
normalize c (arr xs) = c.dumps_sorted (arr xs)
normalize c (obj fs) = c.dumps_sorted (obj fs)
normalize c (bool b) = c.to_str (bool b)
normalize c (int n) = c.to_str (int n)
normalize c (real t) = c.to_str (real t)

-- `_count_for_text`; the cache in front of it changes no result
unfoldable pub count_for_text : String → ℕ
count_for_text t = if count t == 0 then 0 else max 1 (count t / 4)

unfoldable pub count_tokens : Codec → Json → ℕ
count_tokens c v = count_for_text (normalize c v)

-- `count_tokens(m.get("content"))`
abbrev pub message_tokens : Codec → Message → ℕ
message_tokens c m = count_tokens c (content_of m)

-- A text has no tokens exactly when it is empty, and otherwise at least one, at most a token for
-- each of its characters, and within four characters of a quarter of its length.
count_for_text_bounds :
    (t : String)
    → (count t ≡ 0 → count_for_text t ≡ 0)
      × (0 < count t
          → (1 ≤ count_for_text t)
            × (count_for_text t ≤ count t)
            × (4 * count_for_text t ≤ count t + 3)
            × (count t < 4 * count_for_text t + 4))
unfolding count_for_text
count_for_text_bounds t =
    (λ h. ground arith, λ h. (ground arith, ground arith, ground arith, ground arith))
