-- ===== src/Storage/Graphs.antt =====
-- src/spillover/storage/kuzu.py: the open connections to the graph databases of the projects. The
-- lock lets one call run at a time.
pub mod Entries
pub mod Recent
use Prim.Native.String.{◌++◌ as append}
use spillover.Prelude.{
  ℕ, String, Bool, true, false, ◌||◌, Option, none, some, List, [], ◌∷◌, ◌++◌, any, length, ltb,
  str_eq, if◌then◌else◌,
}

-- `_CACHE`, an OrderedDict, oldest entry first, and `_INITIALIZED`.
pub record Graphs (C : Type 0) : Type 0 where
  pub cache : List (String × C)
  pub initialized : List String

-- `_MAX_CACHE`
abbrev pub max_cache : ℕ
max_cache = 32

abbrev pub project_kuzu_dir : String → String → String
project_kuzu_dir db_root p = append db_root (append "/projects/" (append p "/kuzu"))

abbrev pub cache_key : String → String → String
cache_key db_root p = append db_root (append ":" p)

module _ {C : Type 0} where
  -- `_CACHE.get(key)`
  unfoldable pub find_open : String → List (String × C) → Option C
  find_open key [] = none
  find_open key (e ∷ es) = if str_eq e.0 key then some e.1 else find_open key es

  -- `_CACHE.move_to_end(key)`
  unfoldable pub move_to_end : String → List (String × C) → List (String × C)
  move_to_end key [] = []
  move_to_end key (e ∷ es) = if str_eq e.0 key then es ++ e ∷ [] else e ∷ move_to_end key es

  -- The loop with `popitem(last=False)`.
  unfoldable pub pop_oldest : List (String × C) → List (String × C)
  pop_oldest [] = []
  pop_oldest (e ∷ es) =
      let rest = pop_oldest es in if ltb max_cache (length (e ∷ es)) then rest else e ∷ es

  -- `connect` opens a database at a path and `run_schema` says whether all its statements run; an
  -- exception of either leaves the cache as it is.
  module _ (connect : String → Option C) (run_schema : C → Bool) where
    unfoldable pub init_schema : C → String → List String → Option (List String)
    init_schema conn key initialized =
        if any (str_eq key) initialized
        then some initialized
        else if run_schema conn
        then some (key ∷ initialized)
        else none

    unfoldable pub open_project_kuzu : String → String → Graphs C → Graphs C × Option C
    open_project_kuzu db_root p g =
        let key = cache_key db_root p in
        elim (find_open key g.cache) [
          | some existing ↦ (record g { cache = move_to_end key g.cache }, some existing)
          | none ↦ elim (connect (project_kuzu_dir db_root p)) [
            | none ↦ (g, none)
            | some conn ↦ elim (init_schema conn key g.initialized) [
              | none ↦ (g, none)
              | some initialized ↦ (
                record {
                  cache = pop_oldest (g.cache ++ (key, conn) ∷ []);
                  initialized = initialized;
                },
                some conn,
              )
            ]
          ]
        ]
