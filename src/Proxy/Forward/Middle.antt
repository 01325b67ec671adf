-- ===== src/Proxy/Forward/Middle.antt =====
-- Which messages `_evict_inbound_to_ceiling` of src/spillover/proxy/app.py may take out, described
-- without its tests.
use spillover.Prelude.{
  ℕ, ◌+◌, ◌≤◌, ◌<◌, String, ◌≡◌, refl, ◌∙◌, sym, ap, Bool, true, false, Option, none, some, not,
  inl, inr, arith, eq_iff, Bool-cases, or_else,
}
use spillover.Json.{
  Json, null, bool, int, real, str, arr, obj, Items, nil, cons, Fields, get, is_text, has_type,
  Message, content_of,
}
use spillover.Proxy.Forward.{is_tool_block, has_tool_block, is_safely_evictable, is_candidate}

-- A dict of type "tool_use" or "tool_result".
pub data IsToolBlock : Json → Type 0 where
  call : {b : Fields} → get "type" b ≡ some (str "tool_use") → IsToolBlock (obj b)
  answer : {b : Fields} → get "type" b ≡ some (str "tool_result") → IsToolBlock (obj b)

-- One of the blocks is of a tool.
pub data HoldsTool : Items → Type 0 where
  here : {b : Json} {bs : Items} → IsToolBlock b → HoldsTool (cons b bs)
  there : {b : Json} {bs : Items} → HoldsTool bs → HoldsTool (cons b bs)

-- A text, or a list without a block of a tool.
pub data IsPlain : Json → Type 0 where
  text : {t : String} → IsPlain (str t)
  blocks : {bs : Items} → ¬ HoldsTool bs → IsPlain (arr bs)

-- The message at `i` of `n` is none of the first two and none of the last four, and plain.
abbrev pub MayLeave : ℕ → ℕ → Message → Type 0
MayLeave n i m = (2 ≤ i) × (i + 4 < n) × IsPlain (content_of m)

is_text-some : (t : String) (v : Option Json) → is_text t (or_else v null) ≡ true → v ≡ some (str t)
is_text-some t none h = absurd (ground arith)
is_text-some t (some null) h = absurd (ground arith)
is_text-some t (some (bool b)) h = absurd (ground arith)
is_text-some t (some (int n)) h = absurd (ground arith)
is_text-some t (some (real s)) h = absurd (ground arith)
is_text-some t (some (str s)) h = ap (λ u. some (str u)) ((eq_iff s t).0 h)
is_text-some t (some (arr xs)) h = absurd (ground arith)
is_text-some t (some (obj d)) h = absurd (ground arith)

is_tool_block-IsToolBlock : (b : Json) → is_tool_block b ≡ true → IsToolBlock b
is_tool_block-IsToolBlock (obj b) h = elim (Bool-cases (has_type "tool_use" b)) [
  | inl used ↦ call (is_text-some "tool_use" (get "type" b) used)
  | inr other ↦ answer (is_text-some "tool_result" (get "type" b) (rw other at h))
]
is_tool_block-IsToolBlock null h = absurd (ground arith)
is_tool_block-IsToolBlock (bool b) h = absurd (ground arith)
is_tool_block-IsToolBlock (int n) h = absurd (ground arith)
is_tool_block-IsToolBlock (real s) h = absurd (ground arith)
is_tool_block-IsToolBlock (str s) h = absurd (ground arith)
is_tool_block-IsToolBlock (arr xs) h = absurd (ground arith)

IsToolBlock-is_tool_block : {b : Json} → IsToolBlock b → is_tool_block b ≡ true
IsToolBlock-is_tool_block (call e) = rw e refl
IsToolBlock-is_tool_block (answer e) = rw e refl

has_tool_block-HoldsTool : (bs : Items) → has_tool_block bs ≡ true → HoldsTool bs
unfolding has_tool_block
has_tool_block-HoldsTool nil h = absurd (ground arith)
has_tool_block-HoldsTool (cons b bs) h = elim (Bool-cases (is_tool_block b)) [
  | inl tool ↦ here (is_tool_block-IsToolBlock b tool)
  | inr other ↦ there (has_tool_block-HoldsTool bs (rw other at h))
]

HoldsTool-has_tool_block : {bs : Items} → HoldsTool bs → has_tool_block bs ≡ true
unfolding has_tool_block
HoldsTool-has_tool_block (here t) = rw (IsToolBlock-is_tool_block t) refl
HoldsTool-has_tool_block (there {b = b} h) = ground (arith, HoldsTool-has_tool_block h)

-- The test by the content alone.
abbrev safe : Json → Bool
safe v = elim v [ str t ↦ true | arr bs ↦ not (has_tool_block bs) | _ ↦ false ]

is_safely_evictable-safe : (m : Message) → is_safely_evictable m ≡ safe (content_of m)
unfolding is_safely_evictable
is_safely_evictable-safe m = refl

safe-IsPlain : (v : Json) → safe v ≡ true → IsPlain v
safe-IsPlain (str t) h = text
safe-IsPlain (arr bs) h = blocks (λ k. absurd (let e = HoldsTool-has_tool_block k in ground arith))
safe-IsPlain null h = absurd (ground arith)
safe-IsPlain (bool b) h = absurd (ground arith)
safe-IsPlain (int n) h = absurd (ground arith)
safe-IsPlain (real s) h = absurd (ground arith)
safe-IsPlain (obj d) h = absurd (ground arith)

IsPlain-safe : {v : Json} → IsPlain v → safe v ≡ true
IsPlain-safe text = refl
IsPlain-safe (blocks {bs = bs} h) = elim (Bool-cases (has_tool_block bs)) [
  | inl some_tool ↦ absurd (h (has_tool_block-HoldsTool bs some_tool))
  | inr no_tool ↦ rw no_tool refl
]

pub is_candidate-MayLeave : (n i : ℕ) (m : Message) → is_candidate n i m ≡ true → MayLeave n i m
is_candidate-MayLeave n i m h = (
  ground arith,
  ground arith,
  safe-IsPlain (content_of m) (sym (is_safely_evictable-safe m) ∙ ground arith),
)

pub MayLeave-is_candidate : (n i : ℕ) (m : Message) → MayLeave n i m → is_candidate n i m ≡ true
MayLeave-is_candidate n i m (late, early, plain) =
    let movable = is_safely_evictable-safe m ∙ IsPlain-safe plain in ground arith
