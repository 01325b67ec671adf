-- ===== src/Lifecycle/Consistent.antt =====
-- The table of vectors and the table of episodes agree, through all writes to a project's memory.
use spillover.Prelude.{
  ℕ, String, ◌≡◌, refl, Bool, some, List, [], ◌≢◌, inl, inr, arith, any, map, str_eq, Bool-cases,
}
use spillover.Runtime.{Codec, Floats}
use spillover.Storage.{Episode, Db, evict_row}
use spillover.Archive.{row_of}
use spillover.Retriever.Budget.{row_of_id}
use spillover.Facet.{Engines, VecRow, Memory, facet_of, typed_row}
use spillover.Facet.Linked.{facet_of-fields}
use spillover.Decay.{faded_row, is_pinned}
use spillover.Lifecycle.{Reach}
use spillover.Lifecycle.Rules.{refiled, Rules, Reach-keeps}
use spillover.Lifecycle.Agree.{Agree, filing, append-Agree, map-Agree, remap-Agree, purge-Agree}
use spillover.Lifecycle.Filing.{file-Agree}

evict_row-filing :
    (ids : List String) (b : Bool) (e : Episode) → filing (evict_row ids b e) ≡ filing e
evict_row-filing ids b e = elim (Bool-cases (any (λ j. str_eq e.id j) ids)) [
  | inl same ↦ rw same refl
  | inr other ↦ rw other refl
]

module _ (f : Floats) (exp : f.Float → f.Float) (c : Codec) {E : Type 0} (engines : Engines E)
    (p : String) (time : String → ℕ) where
  faded_row-same :
      (now : ℕ) (db : Db) (v : VecRow f.Float E)
      → ((faded_row f exp now db v).episode_id ≡ v.episode_id)
        × ((faded_row f exp now db v).memory_type ≡ v.memory_type)
        × ((faded_row f exp now db v).ts ≡ v.ts)
  faded_row-same now db v = elim (Bool-cases (is_pinned db v.episode_id)) [
    | inl pinned ↦ rw pinned (refl, refl, refl)
    | inr free ↦ rw free (refl, refl, refl)
  ]

  Agree-rules : Rules f exp c engines p time (λ es vs g. Agree es vs)
  Agree-rules = record {
    starts = (tt, tt, tt, λ i e held done. absurd (nothing i e held));
    appends = λ es vs g eid turn timed free fresh h.
        append-Agree es vs (row_of c eid turn) free fresh refl h;
    marks = λ es vs g ids b h. map-Agree (evict_row ids b) es vs (evict_row-filing ids b) h;
    files = λ es vs g i row facet held read h. filed es vs i row facet held read h;
    links = λ es vs g i row facet held read h. filed es vs i row facet held read h;
    fades =
        λ es vs g now db h. remap-Agree (faded_row f exp now db) (faded_row-same now db) es vs h;
    clears = λ es vs g h. (tt, tt, tt, λ i e held done. absurd (nothing i e held));
    purges = λ es vs g h. purge-Agree es vs h;
  }
    where
      nothing : (i : String) (e : Episode) → row_of_id i [] ≢ some e
      nothing i e h = unfold row_of_id in ground arith

      filed :
          (es : List Episode) (vs : List (VecRow f.Float E)) (i : String) (row : Episode)
          (facet : VecRow f.Float E)
          → row_of_id i es ≡ some row
          → facet_of f c engines i row ≡ some facet
          → Agree es vs
          → Agree (map (typed_row facet.episode_id facet.memory_type) es) (refiled facet vs)
      filed es vs i row facet held read h =
          let (same_id, same_ts) = facet_of-fields f c engines i row facet read in
          file-Agree es vs i row facet held same_id same_ts h

  -- The tables of episodes and of vectors agree in every memory that calls lead to, in any order: ids
  -- and hashes of episodes are unique, no two vectors are of one episode, a vector's episode is there,
  -- was filed, and has the vector's type and time, and every episode that was filed has a vector.
  pub Reach-Agree :
      (m : Memory f.Float E) → Reach f exp c engines p time m → Agree m.db.episodes m.vectors
  Reach-Agree m r = Reach-keeps f exp c engines p time (λ es vs g. Agree es vs) Agree-rules r
