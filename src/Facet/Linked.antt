-- ===== src/Facet/Linked.antt =====
-- What the statements on the graph in src/spillover/facet/worker.py change, and what one call of
-- `facet_of` reads.
use spillover.Prelude.{
  String, ◌≡◌, refl, ◌∙◌, true, false, some, List, [], ◌∷◌, inl, inr, arith, Option-cases,
}
use spillover.Json.{Json}
use spillover.Runtime.{Codec, Floats}
use spillover.Storage.{Episode}
use spillover.Facet.Extract.{Entity, Decision, CodeRef, extract_entities, extract_code_refs}
use spillover.Facet.Links.{
  Graph, Edges, EpisodeNode, add_episode, add_entity, add_file, add_decision,
}
use spillover.Facet.{
  Engines, VecRow, facet_of, node_of, write_entities, write_refs, write_decisions, then_decisions,
  link,
}

-- The episodes of a graph and their order.
abbrev pub timeline : {F : Type 0} → Graph F → List (EpisodeNode F) × Edges
timeline g = (g.episodes, g.after)

module _ (f : Floats) (c : Codec) {E : Type 0} (engines : Engines E) where
  write_entities-timeline :
      (i : String) (es : List Entity) (g : Graph f.Float)
      → timeline (write_entities f c engines i es g) ≡ timeline g
  unfolding write_entities add_entity
  write_entities-timeline i [] g = refl
  write_entities-timeline i (e ∷ es) g = write_entities-timeline i es (add_entity i e.name e.kind g)

  write_refs-timeline :
      (i : String) (rs : List CodeRef) (g : Graph f.Float)
      → timeline (write_refs f c engines i rs g).0 ≡ timeline g
  unfolding write_refs add_file
  write_refs-timeline i [] g = refl
  write_refs-timeline i (r ∷ rs) g = elim (Option-cases r.path) [
    | inl bad ↦ rw (bad, write_refs) refl
    | inr (path, good) ↦ rw (good, write_refs) (write_refs-timeline i rs _)
  ]

  write_decisions-timeline :
      (i : String) (ds : List Decision) (g : Graph f.Float)
      → timeline (write_decisions f c engines i ds g) ≡ timeline g
  unfolding write_decisions add_decision
  write_decisions-timeline i [] g = refl
  write_decisions-timeline i (d ∷ ds) g = write_decisions-timeline i ds _

  then_decisions-timeline :
      (i : String) (content : Json) (g : Graph f.Float × _)
      → timeline (then_decisions f c engines i content g).0 ≡ timeline g.0
  then_decisions-timeline i content (g, false) = refl
  then_decisions-timeline i content (g, true) = write_decisions-timeline i _ g

  -- The links add the episode and the edge before it; what the extractors find changes neither.
  pub link-timeline :
      (facet : VecRow f.Float E) (content tool_calls : Json) (g : Graph f.Float)
      → timeline (link f c engines facet content tool_calls g).0
        ≡ timeline (add_episode (node_of f c engines facet) g)
  unfolding link
  link-timeline facet content tool_calls g =
      let i = facet.episode_id in
      let es = extract_entities c engines.patterns content in
      let g' = add_episode (node_of f c engines facet) g in
      elim (Option-cases (extract_code_refs tool_calls)) [
        | inl bad ↦ rw (bad, link) (write_entities-timeline i es g')
        | inr (refs, good) ↦
            rw (good, link)
              (then_decisions-timeline i content
                  (write_refs f c engines i refs (write_entities f c engines i es g'))
                ∙ write_refs-timeline i refs _
                ∙ write_entities-timeline i es g')
      ]

  pub facet_of-fields :
      (i : String) (row : Episode) (facet : VecRow f.Float E)
      → facet_of f c engines i row ≡ some facet
      → (facet.episode_id ≡ i) × (facet.ts ≡ row.ts)
  unfolding facet_of
  facet_of-fields i row facet e = ground arith
