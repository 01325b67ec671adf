-- ===== src/Json.antt =====
-- The values that `json.loads` returns, with the operations on them that the proxy uses, and the
-- messages of a request. JSON has no other kinds of value, so `isinstance` is a match.
pub mod Keys
use spillover.Prelude.{
  zero, String, Bool, true, false, not, Option, none, some, List, [], ◌∷◌, str_eq, if◌then◌else◌,
  or_else, ℤ, pos,
}

mutual
  -- `real` is a number with a fraction or an exponent, by its text.
  pub data Json : Type 0 where
    null : Json
    bool : Bool → Json
    int : ℤ → Json
    real : String → Json
    str : String → Json
    arr : Items → Json
    obj : Fields → Json

  pub data Items : Type 0 where
    nil : Items
    cons : Json → Items → Items

  pub data Fields : Type 0 where
    end : Fields
    field : String → Json → Fields → Fields

-- `d.get(k)`, where `none` is a missing key
unfoldable pub get : String → Fields → Option Json
get k end = none
get k (field j v fs) = if str_eq k j then some v else get k fs

-- `d.get(k)`, where a missing key gives None
abbrev pub get_or_null : String → Fields → Json
get_or_null k fs = or_else (get k fs) null

-- `d[k] = v`
unfoldable pub put : String → Json → Fields → Fields
put k v end = field k v end
put k v (field j w fs) = if str_eq k j then field j v fs else field j w (put k v fs)

-- `d.pop(k, None)`, and that for each of several keys
unfoldable pub pop : String → Fields → Fields
pop k end = end
pop k (field j v fs) = let rest = pop k fs in if str_eq k j then rest else field j v rest

unfoldable pub pop_all : List String → Fields → Fields
pop_all [] fs = fs
pop_all (k ∷ ks) fs = pop k (pop_all ks fs)

-- `bool(v)`. The text of a `real` is zero in ways that the requests do not use, and counts as true.
abbrev pub truthy : Json → Bool
truthy null = false
truthy (bool b) = b
truthy (int (pos zero)) = false
truthy (int n) = true
truthy (real t) = true
truthy (str t) = not (str_eq t "")
truthy (arr nil) = false
truthy (arr (cons x xs)) = true
truthy (obj end) = false
truthy (obj (field k v fs)) = true

abbrev pub is_text : String → Json → Bool
is_text t (str s) = str_eq s t
is_text t _ = false

-- `b.get("type") == t` for a block that is a dict
abbrev pub has_type : String → Fields → Bool
has_type t fs = is_text t (get_or_null "type" fs)

abbrev pub items : Items → List Json
items nil = []
items (cons x xs) = x ∷ items xs

abbrev pub of_list : List Json → Items
of_list [] = nil
of_list (x ∷ xs) = cons x (of_list xs)

-- A message of a request: its two keys that the proxy reads, and the others.
pub record Message : Type 0 where
  pub role : Option String
  pub content : Option Json
  pub rest : Fields

-- `msg.get("role") == r`
abbrev pub has_role : String → Message → Bool
has_role r m = elim m.role [ none ↦ false | some s ↦ str_eq s r ]

-- `msg.get("content")`
abbrev pub content_of : Message → Json
content_of m = or_else m.content null

-- A request's body, after it was parsed: the keys that the proxy reads, and the others. `messages`
-- is the list that `payload.get("messages") or []` gives.
pub record Payload : Type 0 where
  pub model : Option String
  pub system : Option Json
  pub messages : List Message
  pub rest : Fields
