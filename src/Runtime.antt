-- ===== src/Runtime.antt =====
-- What the program takes from Python's standard library and from its environment, as parameters:
-- the JSON printer and reader, the digests, the readers of numbers, and floating point.
use spillover.Prelude.{String, ◌≡◌, Bool, Option, some, ℤ, if◌then◌else◌}
use spillover.Json.{Json}

pub record Codec : Type 0 where
  -- `json.dumps(v, ensure_ascii=False)`, and the same with `sort_keys=True`
  pub dumps : Json → String
  pub dumps_sorted : Json → String
  -- `json.dumps(v)`, which escapes what is not ASCII
  pub dumps_ascii : Json → String
  -- `json.loads`, where `none` is a JSONDecodeError
  pub loads : String → Option Json
  -- `str(v)`
  pub to_str : Json → String
  -- `hashlib.sha256(t.encode("utf-8")).hexdigest()` and its `sha1`
  pub sha256 : String → String
  pub sha1 : String → String
  -- `t.lower()`
  pub lower : String → String

-- `loads` reads back what `dumps` wrote.
abbrev pub ReadsBack : Codec → Type 0
ReadsBack c = (v : Json) → c.loads (c.dumps v) ≡ some v

-- Python's floats, and the readers of numbers from text. `trunc` is `int(x)` of a finite float.
pub record Floats : Type 1 where
  pub Float : Type 0
  pub float_of : String → Option Float
  pub int_of : String → Option ℤ
  pub of_int : ℤ → Float
  pub add_f : Float → Float → Float
  pub sub_f : Float → Float → Float
  pub mul_f : Float → Float → Float
  pub div_f : Float → Float → Float
  pub lt_f : Float → Float → Bool
  pub trunc : Float → ℤ
  -- the float that a literal of the source stands for
  pub literal : String → Float

-- Python's `max(a, b)` and `min(a, b)` on floats.
abbrev pub max_f : (f : Floats) → f.Float → f.Float → f.Float
max_f f a b = if f.lt_f a b then b else a

abbrev pub min_f : (f : Floats) → f.Float → f.Float → f.Float
min_f f a b = if f.lt_f b a then b else a

-- `os.environ.get`
abbrev pub Environ : Type 0
Environ = String → Option String
