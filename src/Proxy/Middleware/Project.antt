-- ===== src/Proxy/Middleware/Project.antt =====
-- Which project a request belongs to (src/spillover/proxy/middleware.py).
use spillover.Prelude.{String, ◌≡◌, true, Option, none, some, ◌⊎◌, str_eq, if◌then◌else◌}
use spillover.Runtime.{Codec, Environ}
use spillover.Proxy.Middleware.{is_hex_id, path_project, Routed, dispatch}

-- The digest is a text of 6 to 64 hexadecimal digits.
abbrev pub HasHexDigest : Codec → Type 0
HasHexDigest c = (t : String) → is_hex_id (c.sha1 t) ≡ true

-- The project and the path that the application sees for a path that is not exempt.
abbrev pub IsRouted : Codec → Environ → Option String → String → Routed → Type 0
IsRouted c env x_project path r =
    ((i : String) × (r.project_id ≡ some i) × (is_hex_id i ≡ true))
    × (((path_project path ≡ none) × (r.path ≡ path))
        ⊎ ((name : String) × (rest : String) × (path_project path ≡ some (name, rest))
            × (r.path ≡ (if str_eq rest "" then "/" else rest))
            × ((other : Option String) → r ≡ dispatch c env other path)))
