-- ===== src/Storage/Graphs/Recent.antt =====
-- The cache of src/spillover/storage/kuzu.py keeps the connections that were asked for last.
use spillover.Prelude.{
  String, ◌≡◌, refl, sym, subst, Bool, Option, none, some, [], ◌∷◌, ◌++◌, ◌⊎◌, inl, inr, arith,
  Option-cases,
}
use spillover.Storage.Graphs.{
  Graphs, cache_key, project_kuzu_dir, find_open, move_to_end, pop_oldest, init_schema,
  open_project_kuzu,
}
use spillover.Storage.Graphs.Entries.{IsCache, used, used-IsCache, used-found, used-added}

module _ {C : Type 0} (connect : String → Option C) (run_schema : C → Bool) (db_root p : String)
    (g : Graphs C) where
  abbrev result : Graphs C × Option C
  result = open_project_kuzu connect run_schema db_root p g

  -- What a call leaves: the connection last, which is the open one where there was one.
  abbrev pub IsRecent : Graphs C × Option C → Type 0
  IsRecent out =
      (out ≡ (g, none))
      ⊎ ((conn : C) × (out.1 ≡ some conn)
          × (out.0.cache ≡ used (cache_key db_root p) conn g.cache)
          × IsCache out.0.cache
          × ((old : C) → find_open (cache_key db_root p) g.cache ≡ some old → conn ≡ old))

  recent :
      (conn : C) (after : Graphs C)
      → IsCache g.cache
      → after.cache ≡ used (cache_key db_root p) conn g.cache
      → ((old : C) → find_open (cache_key db_root p) g.cache ≡ some old → conn ≡ old)
      → IsRecent (after, some conn)
  recent conn after ok e same = inr (
    conn,
    refl,
    e,
    subst IsCache (sym e) (used-IsCache (cache_key db_root p) conn g.cache ok.0),
    same,
  )

  -- A call on a cache of at most 32 entries with a key each either fails and leaves everything as
  -- it was, or returns a connection; the cache is then such a one again, and holds that connection
  -- last and before it the other entries in their order, the oldest gone where there would be more
  -- than 32. An open connection is returned as it is.
  pub open_project_kuzu-IsRecent : IsCache g.cache → IsRecent result
  unfolding open_project_kuzu
  open_project_kuzu-IsRecent ok =
      let key = cache_key db_root p in
      elim (Option-cases (find_open key g.cache)) as (λ x. IsRecent result) [
        | inr (conn, found) ↦
            let step : result ≡ (record g { cache = move_to_end key g.cache }, some conn) =
              rw (found, open_project_kuzu) refl in
            subst IsRecent (sym step) (
              recent conn (record g { cache = move_to_end key g.cache }) ok
                (used-found key conn g.cache ok found) (λ old h. ground arith))
        | inl missing ↦
            elim (Option-cases (connect (project_kuzu_dir db_root p))) as (λ x. IsRecent result) [
              | inl bad ↦ inl (rw (missing, bad, open_project_kuzu) refl)
              | inr (conn, made) ↦
                  elim (Option-cases (init_schema connect run_schema conn key g.initialized))
                    as (λ x. IsRecent result) [
                      | inl bad ↦ inl (rw (missing, made, bad, open_project_kuzu) refl)
                      | inr (initialized, good) ↦
                          let after : Graphs C = record {
                            cache = pop_oldest (g.cache ++ (key, conn) ∷ []);
                            initialized = initialized;
                          } in
                          let step : result ≡ (after, some conn) =
                            rw (missing, made, good, open_project_kuzu) refl in
                          subst IsRecent (sym step) (
                            recent conn after ok (used-added key conn g.cache missing)
                              (λ old h. absurd (ground arith)))
                    ]
            ]
      ]
