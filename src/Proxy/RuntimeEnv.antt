-- ===== src/Proxy/RuntimeEnv.antt =====
-- The file `runtime.env`, as src/spillover/proxy/app.py reads it on each request. The file is the
-- list of its lines.
use Prim.Native.Char.{code}
use Prim.Native.String.{[] as nothing, ◌∷◌ as prepend}
use spillover.Prelude.{
  String, Bool, false, Option, none, some, List, [], ◌∷◌, ◌==◌, str_eq, if◌then◌else◌,
}
use spillover.Text.{strip}
use spillover.Runtime.{Environ}

-- `line.split("=", 1)`, or `none` if `"=" in line` fails
unfoldable pub split_equals : String → Option (String × String)
split_equals nothing = none
split_equals (prepend c s) =
    let rest = split_equals s in
    if code c == b'='
    then some (nothing, s)
    else elim rest [ none ↦ none | some (k, v) ↦ some (prepend c k, v) ]

-- `line.startswith("#")`
unfoldable pub is_comment : String → Bool
is_comment nothing = false
is_comment (prepend c s) = code c == b'#'

-- The pair that a line sets, if any.
unfoldable pub setting_of : String → Option (String × String)
setting_of line = elim (split_equals line) [
  | none ↦ none
  | some (k, v) ↦ if is_comment line then none else some (strip k, strip v)
]

-- `os.environ[k] = v`
abbrev pub set_env : String → String → Environ → Environ
set_env k v env j = if str_eq k j then some v else env j

-- An exception, which an empty key raises, ends the loop.
unfoldable pub load_runtime : List String → Environ → Environ
load_runtime [] env = env
load_runtime (line ∷ lines) env = elim (setting_of line) [
  | none ↦ load_runtime lines env
  | some (k, v) ↦ if str_eq k "" then env else load_runtime lines (set_env k v env)
]
