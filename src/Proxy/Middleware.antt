-- ===== src/Proxy/Middleware.antt =====
-- src/spillover/proxy/middleware.py: the project that a request belongs to.
pub mod Project
use Prim.Native.Char.{Char, code}
use Prim.Native.String.{[] as nothing, ◌∷◌ as prepend, count}
use spillover.Prelude.{
  ℕ, String, Bool, true, false, ◌&&◌, ◌||◌, Option, none, some, leb, ◌==◌, str_eq, if◌then◌else◌,
  or_else,
}
use spillover.Text.{starts_with, drop_chars}
use spillover.Runtime.{Codec, Environ}

abbrev pub is_between : Char → Char → Char → Bool
is_between a b c = leb (code a) (code c) && leb (code c) (code b)

-- `[0-9a-f]` and `[0-9a-zA-Z_\-]`
abbrev pub is_hex : Char → Bool
is_hex c = is_between "0" "9" c || is_between "a" "f" c

abbrev pub is_id_char : Char → Bool
is_id_char c =
    is_between "0" "9" c
    || is_between "a" "z" c
    || is_between "A" "Z" c
    || code c == b'_'
    || code c == b'-'

unfoldable pub all_hex : String → Bool
all_hex nothing = true
all_hex (prepend c t) = is_hex c && all_hex t

-- `_HEX_ID.match`; a header and a variable have no line feed at their end
unfoldable pub is_hex_id : String → Bool
is_hex_id t = leb 6 (count t) && leb (count t) 64 && all_hex t

unfoldable pub resolve_project_id : Codec → String → String
resolve_project_id c raw = if is_hex_id raw then raw else c.sha1 raw

-- The longest beginning of id characters, and what follows.
unfoldable pub id_prefix : String → String × String
id_prefix nothing = (nothing, nothing)
id_prefix (prepend c t) =
    let rest = id_prefix t in
    if is_id_char c then (prepend c rest.0, rest.1) else (nothing, prepend c t)

-- `_PATH_PROJECT.match`: the project and the path behind it, where the path is `/p/<id>` with
-- nothing or a slash behind.
unfoldable pub path_project : String → Option (String × String)
path_project path =
    let (i, rest) = id_prefix (drop_chars 3 path) in
    if starts_with "/p/" path
      && leb 1 (count i)
      && leb (count i) 64
      && (str_eq rest "" || starts_with "/" rest)
    then some (i, rest)
    else none

abbrev pub is_exempt : String → Bool
is_exempt path = str_eq path "/metrics" || str_eq path "/health" || str_eq path "/"

-- `a or b` on texts that may be missing
abbrev pub or_text : Option String → Option String → Option String
or_text none b = b
or_text (some t) b = if str_eq t "" then b else some t

-- The project and the path that the application sees; no project for an exempt path.
pub record Routed : Type 0 where
  pub project_id : Option String
  pub path : String

abbrev pub default_project : Environ → String
default_project env = or_else (env "SPILLOVER_DEFAULT_PROJECT_ID") "default"

abbrev pub project_or_default : Environ → Option String → String
project_or_default env none = default_project env
project_or_default env (some t) = if str_eq t "" then default_project env else t

-- `x_project` is the header.
unfoldable pub dispatch : Codec → Environ → Option String → String → Routed
dispatch c env x_project path =
    let found : Routed = elim (path_project path) [
      | some (i, rest) ↦ record {
        project_id = some (resolve_project_id c (project_or_default env (some i)));
        path = if str_eq rest "" then "/" else rest;
      }
      | none ↦ record {
        project_id = some (
            resolve_project_id c
              (project_or_default env (or_text x_project (env "SPILLOVER_PROJECT_ID"))));
        path = path;
      }
    ] in
    if is_exempt path then record { project_id = none; path = path } else found
