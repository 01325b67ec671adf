-- ===== src/Tests/Graphs.antt =====
-- The cache of open connections (src/spillover/storage/kuzu.py) with one of two projects open.
use spillover.Prelude.{String, refl, Bool, true, Option, some, [], ◌∷◌, arith}
use spillover.Storage.Graphs.{Graphs, open_project_kuzu}
use spillover.Storage.Graphs.Recent.{IsRecent, open_project_kuzu-IsRecent}

abbrev connect : String → Option String
connect path = some path

abbrev run_schema : String → Bool
run_schema conn = true

abbrev graphs : Graphs String
graphs = record {
  cache = ("root:a", "A") ∷ ("root:b", "B") ∷ [];
  initialized = "root:a" ∷ "root:b" ∷ [];
}

open_project_kuzu-IsRecent_example :
    IsRecent connect run_schema "root" "a" graphs
      (open_project_kuzu connect run_schema "root" "a" graphs)
open_project_kuzu-IsRecent_example =
    open_project_kuzu-IsRecent connect run_schema "root" "a" graphs
      (((refl, tt), (tt, tt)), omega arith)
