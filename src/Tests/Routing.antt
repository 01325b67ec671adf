-- ===== src/Tests/Routing.antt =====
-- `route on` and `route off` (src/spillover/cli.py) on settings with a variable of the user's.
use spillover.Prelude.{String, ◌≡◌, refl, true, false, none, some, any, str_eq, if◌then◌else◌}
use spillover.Json.{str, obj, Fields, end, field, get, put}
use spillover.Cli.{route_keys, routed_env, route_on, route_off}
use spillover.Cli.Route.{variables, route_off-route_on}

abbrev before : Fields
before = field "env" (obj (field "EDITOR" (str "vi") end)) (field "theme" (str "dark") end)

abbrev routed : Fields
routed =
    put "env" (obj (routed_env "http://127.0.0.1:8787" true (field "EDITOR" (str "vi") end))) before

route_off-route_on_example :
    (final : Fields) × (route_off routed ≡ some final)
    × ((k : String)
        → get k (variables final)
          ≡ (if any (str_eq k) route_keys then none else get k (variables before)))
    × ((k : String) → str_eq k "env" ≡ false → get k final ≡ get k before)
unfolding route_on get
route_off-route_on_example = route_off-route_on "http://127.0.0.1:8787" true before routed refl
