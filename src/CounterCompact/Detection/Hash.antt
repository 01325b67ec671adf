-- ===== src/CounterCompact/Detection/Hash.antt =====
-- The hash of detection.py does not see what changes from one request to the next.
use mathlib.Core.Path.{ap₂}
use spillover.Prelude.{
  String, ◌≡◌, refl, ◌∙◌, sym, ap, true, false, some, arith, str_eq, eq_iff, or_else,
}
use spillover.Json.{
  Json, null, bool, int, real, str, arr, obj, Items, nil, cons, Fields, end, field, get, put,
  get_or_null, has_type, is_text, Message,
}
use spillover.Runtime.{Codec}
use spillover.CounterCompact.Detection.{
  normalise_block, normalise_items, normalise_content_for_hash, hash_assistant_message,
}

get-put_ne :
    (j k : String) (v : Json) (fs : Fields) → str_eq j k ≡ false → get j (put k v fs) ≡ get j fs
unfolding get put
get-put_ne j k v end h = ground arith
get-put_ne j k v (field i w fs) h =
    ground (arith, eq_iff k i, eq_iff j i, eq_iff j k, get-put_ne j k v fs h)

is_text-eq : (t : String) (v : Json) → is_text t v ≡ true → v ≡ str t
is_text-eq t (str s) h = ap str ((eq_iff s t).0 h)
is_text-eq t null h = cc
is_text-eq t (bool b) h = cc
is_text-eq t (int n) h = cc
is_text-eq t (real r) h = cc
is_text-eq t (arr xs) h = cc
is_text-eq t (obj fs) h = cc

type_of : (t : String) (b : Fields) → has_type t b ≡ true → get_or_null "type" b ≡ str t
type_of t b h = is_text-eq t (get_or_null "type" b) h

abbrev tool_use_form : Fields → Json
tool_use_form b = obj (
    field "type" (str "tool_use")
      (field "name" (get_or_null "name" b) (field "input" (get_or_null "input" b) end)))

abbrev tool_result_form : Fields → Json
tool_result_form b =
    obj (field "type" (str "tool_result") (field "content" (get_or_null "content" b) end))

normalise_tool_use :
    (b : Fields) (out : Items)
    → get_or_null "type" b ≡ str "tool_use"
    → normalise_block (obj b) out ≡ cons (tool_use_form b) out
unfolding normalise_block
normalise_tool_use b out h = rw h

normalise_tool_result :
    (b : Fields) (out : Items)
    → get_or_null "type" b ≡ str "tool_result"
    → normalise_block (obj b) out ≡ cons (tool_result_form b) out
unfolding normalise_block
normalise_tool_result b out h = rw h

normalise_thinking :
    (b : Fields) (out : Items)
    → get_or_null "type" b ≡ str "thinking"
    → normalise_block (obj b) out ≡ out
unfolding normalise_block
normalise_thinking b out h = rw h

-- A key that is written leaves the others as they were.
get_or_null-put :
    (j k : String) (v : Json) (b : Fields)
    → str_eq j k ≡ false
    → get_or_null j (put k v b) ≡ get_or_null j b
get_or_null-put j k v b h = ap (λ o. or_else o null) (get-put_ne j k v b h)

tool_use_form-put : (v : Json) (b : Fields) → tool_use_form (put "id" v b) ≡ tool_use_form b
tool_use_form-put v b =
    rw (get_or_null-put "name" "id" v b refl, get_or_null-put "input" "id" v b refl)

tool_result_form-put :
    (v : Json) (b : Fields) → tool_result_form (put "tool_use_id" v b) ≡ tool_result_form b
tool_result_form-put v b = rw (get_or_null-put "content" "tool_use_id" v b refl)

-- Lists of blocks that differ only in the ids of tool calls, in the `tool_use_id` of tool results
-- and in thinking blocks.
pub data Alike : Items → Items → Type 0 where
  done : Alike nil nil
  same : {xs ys : Items} (b : Json) → Alike xs ys → Alike (cons b xs) (cons b ys)
  tool_id :
      {xs ys : Items} (b : Fields) (v : Json)
      → has_type "tool_use" b ≡ true
      → Alike xs ys
      → Alike (cons (obj b) xs) (cons (obj (put "id" v b)) ys)
  result_id :
      {xs ys : Items} (b : Fields) (v : Json)
      → has_type "tool_result" b ≡ true
      → Alike xs ys
      → Alike (cons (obj b) xs) (cons (obj (put "tool_use_id" v b)) ys)
  thinking :
      {xs ys : Items} (b : Fields)
      → has_type "thinking" b ≡ true
      → Alike xs ys
      → Alike (cons (obj b) xs) ys

Alike-normalise_items : {xs ys : Items} → Alike xs ys → normalise_items xs ≡ normalise_items ys
unfolding normalise_items
Alike-normalise_items done = refl
Alike-normalise_items (same b h) = ap (normalise_block b) (Alike-normalise_items h)
Alike-normalise_items (tool_id {xs = xs} {ys = ys} b v t h) =
    let e = type_of "tool_use" b t in
    let e' = get_or_null-put "type" "id" v b refl ∙ e in
    normalise_tool_use b (normalise_items xs) e
    ∙ ap₂ cons (sym (tool_use_form-put v b)) (Alike-normalise_items h)
    ∙ sym (normalise_tool_use (put "id" v b) (normalise_items ys) e')
Alike-normalise_items (result_id {xs = xs} {ys = ys} b v t h) =
    let e = type_of "tool_result" b t in
    let e' = get_or_null-put "type" "tool_use_id" v b refl ∙ e in
    normalise_tool_result b (normalise_items xs) e
    ∙ ap₂ cons (sym (tool_result_form-put v b)) (Alike-normalise_items h)
    ∙ sym (normalise_tool_result (put "tool_use_id" v b) (normalise_items ys) e')
Alike-normalise_items (thinking {xs = xs} b t h) =
    normalise_thinking b (normalise_items xs) (type_of "thinking" b t) ∙ Alike-normalise_items h

-- Messages whose blocks are alike in that sense have one hash: an assistant turn that comes back
-- with other tool ids, or without its thinking, counts as the turn that was seen.
pub Alike-hash_assistant_message :
    (c : Codec) (m : Message) (xs ys : Items)
    → Alike xs ys
    → hash_assistant_message c (record m { content = some (arr xs) })
      ≡ hash_assistant_message c (record m { content = some (arr ys) })
unfolding hash_assistant_message normalise_content_for_hash
Alike-hash_assistant_message c m xs ys h =
    rw (Alike-normalise_items h, hash_assistant_message, normalise_content_for_hash)
