-- ===== src/Lifecycle/Agree.antt =====
-- When the tables of episodes and of vectors agree, and the statements that keep it so.
use spillover.Prelude.{
  ℕ, String, ◌≡◌, refl, sym, ap, ◌∙◌, Bool, true, false, not, Option, some, List, [], ◌∷◌, ◌++◌,
  inl, inr, arith, All, All-map, All-imp, All-keep_strong, any, any-append, keep, map, str_eq,
  eq_iff, Bool-cases,
}
use spillover.Storage.{Episode, has_id}
use spillover.Storage.Keys.{IsKeyed, has_hash, append-IsKeyed, map-IsKeyed}
use spillover.Retriever.Budget.{row_of_id}
use spillover.Facet.{VecRow}
use spillover.Cli.{is_rescued_id}
use spillover.Lifecycle.Lookup.{
  row_of_id-append, row_of_id-append_inv, row_of_id-map, row_of_id-map_inv, row_of_id-keep,
  keep-IsKeyed, row_of_id-keep_inv, is_rescued_id-row,
}
use spillover.Lifecycle.Rules.{refiled}

-- The columns of a row that the vectors depend on.
abbrev pub filing : Episode → String × (String × (Bool × (Option String × ℕ)))
filing e = (e.id, (e.hash, (e.facet_pending, (e.memory_type, e.ts))))

module _ {F E : Type 0} where
  abbrev pub has_vector : String → List (VecRow F E) → Bool
  has_vector i = any (λ v. str_eq v.episode_id i)

  -- No two vectors are of one episode.
  abbrev pub IsSingle : List (VecRow F E) → Type 0
  IsSingle [] = Unit
  IsSingle (v ∷ vs) = (has_vector v.episode_id vs ≡ false) × IsSingle vs

  -- The vector's episode is there, was filed, and has the vector's type and time.
  abbrev pub IsBacked : List Episode → VecRow F E → Type 0
  IsBacked es v =
      (e : Episode) × (row_of_id v.episode_id es ≡ some e)
      × (e.facet_pending ≡ false)
      × (e.memory_type ≡ some v.memory_type)
      × (e.ts ≡ v.ts)

  -- Each episode that was filed has a vector.
  abbrev pub AreVectored : List Episode → List (VecRow F E) → Type 0
  AreVectored es vs =
      (i : String) (e : Episode)
      → row_of_id i es ≡ some e
      → e.facet_pending ≡ false
      → has_vector i vs ≡ true

  abbrev pub Agree : List Episode → List (VecRow F E) → Type 0
  Agree es vs = IsKeyed es × IsSingle vs × All (IsBacked es) vs × AreVectored es vs

  has_vector-keep :
      (i : String) (p : VecRow F E → Bool) (vs : List (VecRow F E))
      → has_vector i vs ≡ false
      → has_vector i (keep p vs) ≡ false
  has_vector-keep i p [] h = refl
  has_vector-keep i p (v ∷ vs) h = ground (arith, has_vector-keep i p vs)

  keep-IsSingle :
      (p : VecRow F E → Bool) (vs : List (VecRow F E)) → IsSingle vs → IsSingle (keep p vs)
  keep-IsSingle p [] h = tt
  keep-IsSingle p (v ∷ vs) h = elim (Bool-cases (p v)) [
    | inl stays ↦ rw stays (has_vector-keep v.episode_id p vs h.0, keep-IsSingle p vs h.1)
    | inr goes ↦ rw goes (keep-IsSingle p vs h.1)
  ]

  -- A vector that the keeping lets pass is still found.
  has_vector-keep_stays :
      (i : String) (q : String → Bool) (vs : List (VecRow F E))
      → q i ≡ true
      → has_vector i vs ≡ true
      → has_vector i (keep (λ v. q v.episode_id) vs) ≡ true
  has_vector-keep_stays i q [] k h = absurd (ground arith)
  has_vector-keep_stays i q (v ∷ vs) k h = elim (Bool-cases (str_eq v.episode_id i)) [
    | inl here ↦
        let stays : q v.episode_id ≡ true = ap q ((eq_iff v.episode_id i).0 here) ∙ k in
        rw (stays, here) refl
    | inr past ↦
        let rest = has_vector-keep_stays i q vs k (rw past at h) in
        elim (Bool-cases (q v.episode_id)) [
          | inl stays ↦ rw (stays, past) rest
          | inr goes ↦ rw goes rest
        ]
  ]

  pub refiled-IsSingle :
      (facet : VecRow F E) (vs : List (VecRow F E)) → IsSingle vs → IsSingle (refiled facet vs)
  refiled-IsSingle facet [] h = (refl, tt)
  refiled-IsSingle facet (v ∷ vs) h = elim (Bool-cases (str_eq v.episode_id facet.episode_id)) [
    | inl same ↦ rw same (refiled-IsSingle facet vs h.1)
    | inr other ↦ rw other (
      any-append (λ (u : VecRow F E). str_eq u.episode_id v.episode_id) (keep _ vs) (facet ∷ [])
          ∙ ground (
            arith,
            has_vector-keep v.episode_id (λ u. not (str_eq u.episode_id facet.episode_id)) vs h.0,
            eq_iff facet.episode_id v.episode_id,
            eq_iff v.episode_id facet.episode_id,
          ),
      refiled-IsSingle facet vs h.1,
    )
  ]

  -- The statements that leave the vectors alone.
  pub append-Agree :
      (es : List Episode) (vs : List (VecRow F E)) (r : Episode)
      → has_id r.id es ≡ false
      → has_hash r.hash es ≡ false
      → r.facet_pending ≡ true
      → Agree es vs
      → Agree (es ++ r ∷ []) vs
  append-Agree es vs r free fresh waits (keyed, single, backed, vectored) = (
    append-IsKeyed r es keyed free fresh,
    single,
    All-imp _ _ vs
        (λ v (e, held, done, typed, timed).
          (e, row_of_id-append v.episode_id es r e held, done, typed, timed))
        backed,
    λ i e held done. elim (row_of_id-append_inv i es r e held) [
      | inl old ↦ vectored i e old done
      | inr new ↦ absurd (ground arith)
    ],
  )

  pub map-Agree :
      (f : Episode → Episode) (es : List Episode) (vs : List (VecRow F E))
      → ((e : Episode) → filing (f e) ≡ filing e)
      → Agree es vs
      → Agree (map f es) vs
  map-Agree f es vs same (keyed, single, backed, vectored) =
      let ids : (e : Episode) → (f e).id ≡ e.id = λ e. ap (λ t. t.0) (same e) in
      (
        map-IsKeyed f ids (λ e. ap (λ t. t.1.0) (same e)) es keyed,
        single,
        All-imp _ _ vs
            (λ v (e, held, done, typed, timed). (
              f e,
              row_of_id-map f ids v.episode_id es e held,
              ap (λ t. t.1.1.0) (same e) ∙ done,
              ap (λ t. t.1.1.1.0) (same e) ∙ typed,
              ap (λ t. t.1.1.1.1) (same e) ∙ timed,
            ))
            backed,
        λ i e' held done.
            let (e, held', eq) = row_of_id-map_inv f ids i es e' held in
            vectored i e held'
              (sym (ap (λ t. t.1.1.0) (same e)) ∙ ap (λ (r : Episode). r.facet_pending) eq ∙ done),
      )

  -- An update of the vectors that keeps their ids, types and times.
  module _ (g : VecRow F E → VecRow F E)
      (same : (v : VecRow F E)
        → ((g v).episode_id ≡ v.episode_id)
          × ((g v).memory_type ≡ v.memory_type)
          × ((g v).ts ≡ v.ts)) where
    has_vector-map :
        (i : String) (vs : List (VecRow F E)) → has_vector i (map g vs) ≡ has_vector i vs
    has_vector-map i [] = refl
    has_vector-map i (v ∷ vs) = ground (arith, same v, has_vector-map i vs)

    map-IsSingle : (vs : List (VecRow F E)) → IsSingle vs → IsSingle (map g vs)
    map-IsSingle [] h = tt
    map-IsSingle (v ∷ vs) h = (
      ap (λ i. has_vector i (map g vs)) (same v).0 ∙ has_vector-map v.episode_id vs ∙ h.0,
      map-IsSingle vs h.1,
    )

    pub remap-Agree :
        (es : List Episode) (vs : List (VecRow F E)) → Agree es vs → Agree es (map g vs)
    remap-Agree es vs (keyed, single, backed, vectored) = (
      keyed,
      map-IsSingle vs single,
      All-map _ _ g vs
          (λ v (e, held, done, typed, timed). (
            e,
            ap (λ i. row_of_id i es) (same v).0 ∙ held,
            done,
            typed ∙ ap some (sym (same v).1),
            timed ∙ sym (same v).2,
          ))
          backed,
      λ i e held done. has_vector-map i vs ∙ vectored i e held done,
    )

  -- The purge of the rescued episodes.
  pub purge-Agree :
      (es : List Episode) (vs : List (VecRow F E))
      → Agree es vs
      → Agree
          (keep (λ e. not e.compaction_rescued) es)
          (keep (λ v. not (is_rescued_id es v.episode_id)) vs)
  purge-Agree es vs (keyed, single, backed, vectored) =
      let p : Episode → Bool = λ e. not e.compaction_rescued in
      (
        keep-IsKeyed p es keyed,
        keep-IsSingle _ vs single,
        All-keep_strong _ _ (λ v. not (is_rescued_id es v.episode_id)) vs
            (λ v stays (e, held, done, typed, timed). (
              e,
              row_of_id-keep p v.episode_id es e held
                  (ap not (sym (is_rescued_id-row v.episode_id es e keyed held)) ∙ stays),
              done,
              typed,
              timed,
            ))
            backed,
        λ i e held done.
            let (held', stays) = row_of_id-keep_inv p i es e keyed held in
            has_vector-keep_stays i (λ j. not (is_rescued_id es j)) vs
              (ap not (is_rescued_id-row i es e keyed held') ∙ stays) (vectored i e held' done),
      )
