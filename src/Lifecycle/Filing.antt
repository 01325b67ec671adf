-- ===== src/Lifecycle/Filing.antt =====
-- The worker's statements on the database keep the tables of episodes and of vectors in agreement.
use spillover.Prelude.{
  String, ◌≡◌, refl, sym, ap, subst, ◌∙◌, true, false, not, some, List, [], ◌∷◌, inl, inr, arith,
  All-append, All-keep_strong, keep, map, str_eq, eq_iff, Bool-cases,
}
use spillover.Storage.{Episode}
use spillover.Storage.Keys.{map-IsKeyed}
use spillover.Retriever.Budget.{row_of_id}
use spillover.Facet.{VecRow, typed_row}
use spillover.Facet.Rows.{row_of_id-id, added-listed, replaced-listed}
use spillover.Lifecycle.Lookup.{row_of_id-map, row_of_id-map_inv}
use spillover.Lifecycle.Rules.{refiled}
use spillover.Lifecycle.Agree.{has_vector, IsBacked, Agree, refiled-IsSingle}

module _ {F E : Type 0} (es : List Episode) (vs : List (VecRow F E)) (i : String) (row : Episode)
    (facet : VecRow F E) (held : row_of_id i es ≡ some row) (same_id : facet.episode_id ≡ i)
    (same_ts : facet.ts ≡ row.ts) where
  abbrev filed : Episode → Episode
  filed = typed_row facet.episode_id facet.memory_type

  filed_ids : (e : Episode) → (filed e).id ≡ e.id
  filed_ids e = ground arith

  filed_hashes : (e : Episode) → (filed e).hash ≡ e.hash
  filed_hashes e = ground arith

  filed_other : (e : Episode) → str_eq e.id facet.episode_id ≡ false → filed e ≡ e
  filed_other e h = rw h refl

  filed_self :
      (filed row).facet_pending ≡ false
      × ((filed row).memory_type ≡ some facet.memory_type)
      × ((filed row).ts ≡ facet.ts)
  filed_self =
      let here : str_eq row.id facet.episode_id ≡ true =
        (eq_iff row.id facet.episode_id).1 (row_of_id-id i es row held ∙ sym same_id) in
      rw here (refl, refl, sym same_ts)

  old-IsBacked :
      (v : VecRow F E)
      → not (str_eq v.episode_id facet.episode_id) ≡ true
      → IsBacked es v
      → IsBacked (map filed es) v
  old-IsBacked v other (e, found, done, typed, timed) =
      let apart : str_eq e.id facet.episode_id ≡ false =
        subst (λ j. str_eq j facet.episode_id ≡ false) (sym (row_of_id-id v.episode_id es e found))
          (ground arith) in
      (
        e,
        row_of_id-map filed filed_ids v.episode_id es e found ∙ ap some (filed_other e apart),
        done,
        typed,
        timed,
      )

  pub file-Agree : Agree es vs → Agree (map filed es) (refiled facet vs)
  file-Agree (keyed, single, backed, vectored) = (
    map-IsKeyed filed filed_ids filed_hashes es keyed,
    refiled-IsSingle facet vs single,
    All-append (IsBacked (map filed es)) (keep _ vs) (facet ∷ [])
        (All-keep_strong (IsBacked es) (IsBacked (map filed es)) _ vs old-IsBacked backed)
        (
          (
            filed row,
            subst (λ j. row_of_id j (map filed es) ≡ some (filed row)) (sym same_id)
                (row_of_id-map filed filed_ids i es row held),
            filed_self.0,
            filed_self.1,
            filed_self.2,
          ),
          tt,
        ),
    λ j e' found done.
        let (e, found', eq) = row_of_id-map_inv filed filed_ids j es e' found in
        elim (Bool-cases (str_eq e.id facet.episode_id)) [
          | inl here ↦
              subst (λ k. has_vector k (refiled facet vs) ≡ true)
                (sym ((eq_iff e.id facet.episode_id).0 here) ∙ row_of_id-id j es e found')
                (added-listed facet vs)
          | inr other ↦ replaced-listed j facet vs (
              vectored j e found'
                (ap (λ (r : Episode). r.facet_pending) (sym (filed_other e other) ∙ eq) ∙ done))
        ],
  )
