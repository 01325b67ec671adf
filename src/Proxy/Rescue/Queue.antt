-- ===== src/Proxy/Rescue/Queue.antt =====
-- The bound of the facet queue (`_enqueue_facets` of src/spillover/proxy/app.py).
use mathlib.Core.List.{append-nil, append_assoc}
use spillover.Prelude.{
  ℕ, zero, suc, ◌+◌, ◌-◌, ◌<◌, String, ◌≡◌, refl, sym, true, false, List, [], ◌∷◌, ◌++◌, arith,
  length, length-append, take, map, ◌∙◌,
}
use spillover.Proxy.Rescue.{FacetEvent, FacetQueue, is_full, enqueue_facets}

abbrev pub event_of : String → String → FacetEvent
event_of p eid = record { project_id = p; episode_id = eid }

-- The queue after the ids were offered: as many events of the first ids as there is room for.
abbrev pub filled : String → List String → FacetQueue → FacetQueue
filled p eids q = record q {
  events = q.events ++ map (event_of p) (take (q.maxsize - length q.events) eids);
  dropped = q.dropped + (length eids - (q.maxsize - length q.events));
}

same_queue :
    (q : FacetQueue) (es es' : List FacetEvent) (d d' : ℕ)
    → es ≡ es'
    → d ≡ d'
    → record q { events = es; dropped = d } ≡ record q { events = es'; dropped = d' }
same_queue q es es' d d' e k = rw (e, k) refl

-- By the room that is left.
filled_with :
    (p : String) (eids : List String) (q : FacetQueue) (room : ℕ)
    → 0 < q.maxsize
    → q.maxsize - length q.events ≡ room
    → enqueue_facets p eids q ≡ record q {
      events = q.events ++ map (event_of p) (take room eids);
      dropped = q.dropped + (length eids - room);
    }
unfolding enqueue_facets
filled_with p [] q zero h k =
    same_queue q q.events _ q.dropped _ (sym (append-nil q.events)) (omega arith)
filled_with p [] q (suc room) h k =
    same_queue q q.events _ q.dropped _ (sym (append-nil q.events)) (omega arith)
filled_with p (eid ∷ eids) q zero h k =
    let full : is_full q ≡ true = ground arith in
    rw full (
      filled_with p eids (record q { dropped = suc q.dropped }) zero h k
      ∙ same_queue q _ _ _ _ refl (omega arith))
filled_with p (eid ∷ eids) q (suc room) h k =
    let free : is_full q ≡ false = ground arith in
    let event = event_of p eid in
    let n = length-append q.events (event ∷ []) in
    rw free (
      filled_with p eids (record q { events = q.events ++ event ∷ [] }) room h (omega arith)
      ∙ same_queue q _ _ _ _
          (append_assoc q.events (event ∷ []) (map (event_of p) (take room eids))) (omega arith))

-- On a bounded queue the first ids are queued as far as there is room, behind the events that wait,
-- and the others are dropped and counted.
pub enqueue_facets-eq-filled :
    (p : String) (eids : List String) (q : FacetQueue)
    → 0 < q.maxsize
    → enqueue_facets p eids q ≡ filled p eids q
enqueue_facets-eq-filled p eids q h = filled_with p eids q (q.maxsize - length q.events) h refl
