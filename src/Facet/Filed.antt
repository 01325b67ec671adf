-- ===== src/Facet/Filed.antt =====
-- What one call of `_process_one` in src/spillover/facet/worker.py leaves of the episodes.
use spillover.Prelude.{
  String, ◌≡◌, refl, sym, subst, ◌∙◌, true, false, not, some, [], ◌∷◌, ◌++◌, inl, inr, arith, any,
  keep, str_eq, Bool-cases, Option-cases,
}
use spillover.Runtime.{Codec, Floats}
use spillover.Storage.{Episode}
use spillover.Retriever.Budget.{row_of_id}
use spillover.Proxy.Rescue.{FacetEvent}
use spillover.Facet.Links.{Graph}
use spillover.Facet.{Engines, VecRow, Memory, facet_of, typed_row, file_facet, process_one}
use spillover.Facet.Rows.{
  typed_row-done, typed_row_self, row_of_id-id, row_of_id-typed, added-listed, replaced-listed,
}

module _ (f : Floats) (c : Codec) {E : Type 0} (engines : Engines E) where
  -- The episode has a row that can be read and whose content can be classified and embedded.
  abbrev pub IsReadable : String → Memory f.Float E → Type 0
  IsReadable i m =
      (row : Episode) × (row_of_id i m.db.episodes ≡ some row)
      × (facet : VecRow f.Float E) × (facet_of f c engines i row ≡ some facet)

  -- The episode has a vector and waits no more.
  abbrev pub IsFiled : String → Memory f.Float E → Type 0
  IsFiled i m =
      (any (λ v. str_eq v.episode_id i) m.vectors ≡ true)
      × (row : Episode) × (row_of_id i m.db.episodes ≡ some row)
      × (row.facet_pending ≡ false)

  facet_of-typed :
      (i j t : String) (row : Episode)
      → facet_of f c engines j (typed_row i t row) ≡ facet_of f c engines j row
  unfolding facet_of
  facet_of-typed i j t row = elim (Bool-cases (str_eq row.id i)) [
    | inl same ↦ rw same refl
    | inr other ↦ rw other refl
  ]

  facet_of-id :
      (i : String) (row : Episode) (facet : VecRow f.Float E)
      → facet_of f c engines i row ≡ some facet
      → facet.episode_id ≡ i
  unfolding facet_of
  facet_of-id i row facet e = ground arith

  pub file_facet-IsReadable :
      (j : String) (facet : VecRow f.Float E) (m : Memory f.Float E)
      → IsReadable j m
      → IsReadable j (file_facet f c engines facet m)
  file_facet-IsReadable j facet m (row, held, facet', read) =
      let i = facet.episode_id in
      let t = facet.memory_type in
      (
        typed_row i t row,
        row_of_id-typed i j t m.db.episodes row held,
        facet',
        facet_of-typed i j t row ∙ read,
      )

  pub file_facet-IsFiled :
      (j : String) (facet : VecRow f.Float E) (m : Memory f.Float E)
      → IsFiled j m
      → IsFiled j (file_facet f c engines facet m)
  file_facet-IsFiled j facet m (listed, row, held, done) =
      let i = facet.episode_id in
      let t = facet.memory_type in
      (
        replaced-listed j facet m.vectors listed,
        typed_row i t row,
        row_of_id-typed i j t m.db.episodes row held,
        typed_row-done i t row done,
      )

  -- What the call keeps, if filing a facet and a change of the graph keep it.
  pub process_one-keeps :
      (P : Memory f.Float E → Type 0)
      → ((facet : VecRow f.Float E) (m : Memory f.Float E)
          → P m
          → P (file_facet f c engines facet m))
      → ((g : Graph f.Float) (m : Memory f.Float E) → P m → P (record m { graph = g }))
      → (event : FacetEvent) (m : Memory f.Float E) → P m
      → P (process_one f c engines event m).0
  unfolding process_one
  process_one-keeps P files links event m h =
      elim (Option-cases (row_of_id event.episode_id m.db.episodes)) [
        | inl missing ↦ rw (missing, process_one) h
        | inr (row, held) ↦ elim (Option-cases (facet_of f c engines event.episode_id row)) [
          | inl bad ↦ rw (held, bad, process_one) h
          | inr (facet, read) ↦ elim (Bool-cases (engines.opens_graph event)) [
            | inl opened ↦ rw (held, read, opened, process_one) (links _ _ (files facet m h))
            | inr shut ↦ rw (held, read, shut, process_one) (files facet m h)
          ]
        ]
      ]

  file_facet-IsFiled_self :
      (i : String) (row : Episode) (facet : VecRow f.Float E) (m : Memory f.Float E)
      → row_of_id i m.db.episodes ≡ some row
      → facet_of f c engines i row ≡ some facet
      → IsFiled i (file_facet f c engines facet m)
  file_facet-IsFiled_self i row facet m held read =
      let same = facet_of-id i row facet read in
      (
        subst
            (λ k.
              any (λ v. str_eq v.episode_id k)
                (keep (λ v. not (str_eq v.episode_id facet.episode_id)) m.vectors ++ facet ∷ [])
              ≡ true)
            same (added-listed facet m.vectors),
        typed_row facet.episode_id facet.memory_type row,
        row_of_id-typed facet.episode_id i facet.memory_type m.db.episodes row held,
        typed_row_self facet.episode_id facet.memory_type row
            (row_of_id-id i m.db.episodes row held ∙ sym same),
      )

  pub process_one-IsFiled :
      (event : FacetEvent) (m : Memory f.Float E)
      → IsReadable event.episode_id m
      → IsFiled event.episode_id (process_one f c engines event m).0
  unfolding process_one
  process_one-IsFiled event m (row, held, facet, read) =
      let filed = file_facet-IsFiled_self event.episode_id row facet m held read in
      elim (Bool-cases (engines.opens_graph event)) [
        | inl opened ↦ rw (held, read, opened, process_one) filed
        | inr shut ↦ rw (held, read, shut, process_one) filed
      ]
