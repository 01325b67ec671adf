-- ===== src/Facet/Drain.antt =====
-- The worker of src/spillover/facet/worker.py gets through its queue.
use spillover.Prelude.{
  ℕ, zero, suc, String, ◌≡◌, refl, sym, subst, List, [], ◌∷◌, inl, inr, length, All, All-imp,
  str_eq, eq_iff, Bool-cases, List-cases,
}
use spillover.Runtime.{Codec, Floats}
use spillover.Proxy.Rescue.{FacetEvent, FacetQueue}
use spillover.Facet.Links.{Graph}
use spillover.Facet.{
  Engines, VecRow, Memory, file_facet, process_one, Memories, in_project, work_round, work,
}
use spillover.Facet.Filed.{
  IsReadable, IsFiled, file_facet-IsReadable, file_facet-IsFiled, process_one-keeps,
  process_one-IsFiled,
}

module _ (f : Floats) (c : Codec) {E : Type 0} (engines : Engines E) where
  -- What the filing of a facet keeps, rounds of the worker keep in every project.
  work_round-keeps :
      (P : Memory f.Float E → Type 0)
      → ((facet : VecRow f.Float E) (m : Memory f.Float E)
          → P m
          → P (file_facet f c engines facet m))
      → ((g : Graph f.Float) (m : Memory f.Float E) → P m → P (record m { graph = g }))
      → (q : FacetQueue) (memories : Memories f c engines) (p : String) → P (memories p)
      → P ((work_round f c engines (q, memories)).1 p)
  unfolding work_round
  work_round-keeps P keeps links q memories p h = elim (List-cases q.events) [
    | inl empty ↦ rw (empty, work_round) h
    | inr (event, events, more) ↦ elim (Bool-cases (str_eq event.project_id p)) [
      | inr other ↦ rw (more, other, work_round) h
      | inl here ↦
          let k = (eq_iff event.project_id p).0 here in
          rw (more, here, work_round)
            (process_one-keeps f c engines P keeps links event (memories event.project_id)
              (subst (λ r. P (memories r)) (sym k) h))
    ]
  ]

  work-keeps :
      (P : Memory f.Float E → Type 0)
      → ((facet : VecRow f.Float E) (m : Memory f.Float E)
          → P m
          → P (file_facet f c engines facet m))
      → ((g : Graph f.Float) (m : Memory f.Float E) → P m → P (record m { graph = g }))
      → (n : ℕ) (q : FacetQueue) (memories : Memories f c engines) (p : String) → P (memories p)
      → P ((work f c engines n (q, memories)).1 p)
  unfolding work
  work-keeps P keeps links zero q memories p h = h
  work-keeps P keeps links (suc n) q memories p h =
      let next = work_round f c engines (q, memories) in
      work-keeps P keeps links n next.0 next.1 p (work_round-keeps P keeps links q memories p h)

  -- As many rounds as there are events empty the queue.
  work-queue :
      (q : FacetQueue) (events : List FacetEvent) (memories : Memories f c engines)
      → (work f c engines (length events) (record q { events = events }, memories)).0
        ≡ record q { events = [] }
  unfolding work work_round
  work-queue q [] memories = refl
  work-queue q (event ∷ events) memories = work-queue q events _

  in_project-IsFiled :
      (event : FacetEvent) (memories : Memories f c engines)
      → let p = event.project_id in
        let done = process_one f c engines event (memories p) in
        IsReadable f c engines event.episode_id (memories p)
        → IsFiled f c engines event.episode_id (in_project f c engines p done.0 memories p)
  in_project-IsFiled event memories h =
      let self = (eq_iff event.project_id event.project_id).1 refl in
      rw self (process_one-IsFiled f c engines event (memories event.project_id) h)

  work-files :
      (q : FacetQueue) (events : List FacetEvent) (memories : Memories f c engines)
      → All
          (λ e.
            IsReadable f c engines e.episode_id (memories e.project_id)
            → IsFiled f c engines e.episode_id (
                (work f c engines (length events) (record q { events = events }, memories)).1
                  e.project_id))
          events
  unfolding work work_round
  work-files q [] memories = tt
  work-files q (event ∷ events) memories =
      let next = work_round f c engines (record q { events = event ∷ events }, memories) in
      (
        λ h.
            work-keeps (IsFiled f c engines event.episode_id)
              (file_facet-IsFiled f c engines event.episode_id) (λ g m k. k) (length events) next.0
              next.1 event.project_id (in_project-IsFiled event memories h),
        All-imp _ _ events
            (λ e filed h. filed (
              work_round-keeps (IsReadable f c engines e.episode_id)
                (file_facet-IsReadable f c engines e.episode_id) (λ g m k. k)
                (record q { events = event ∷ events }) memories e.project_id h))
            (work-files q events next.1),
      )

  -- The worker gets through its queue: after as many rounds as events wait the queue is empty, and
  -- each episode of an event that could be read, classified and embedded has its vector and waits no
  -- more, whatever happened to the other events.
  pub work_drains :
      (q : FacetQueue) (memories : Memories f c engines)
      → let out = work f c engines (length q.events) (q, memories) in
        (out.0 ≡ record q { events = [] })
        × All
            (λ e.
              IsReadable f c engines e.episode_id (memories e.project_id)
              → IsFiled f c engines e.episode_id (out.1 e.project_id))
            q.events
  work_drains q memories = (work-queue q q.events memories, work-files q q.events memories)
