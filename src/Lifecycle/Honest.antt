-- ===== src/Lifecycle/Honest.antt =====
-- The hash of each row through all calls that write to a memory (src/spillover/archive/writer.py).
use spillover.Prelude.{
  ℕ, String, Bool, refl, List, [], ◌∷◌, inl, inr, All, All-append, All-keep, All-map, Bool-cases,
  str_eq,
}
use spillover.Runtime.{Codec, Floats}
use spillover.Storage.{Episode, contains, evict_row}
use spillover.Archive.{hash_turn, row_of}
use spillover.Archive.Honest.{IsHonest}
use spillover.Facet.{Engines, VecRow, Memory, typed_row}
use spillover.Facet.Links.{Graph}
use spillover.Lifecycle.{Reach}
use spillover.Lifecycle.Rules.{Rules, Reach-keeps}

evict_row-IsHonest :
    (c : Codec) (ids : List String) (rescued : Bool) (e : Episode)
    → IsHonest c e
    → IsHonest c (evict_row ids rescued e)
evict_row-IsHonest c ids rescued e h = elim (Bool-cases (contains e.id ids)) [
  | inl there ↦ rw there h
  | inr away ↦ rw away h
]

typed_row-IsHonest :
    (c : Codec) (i t : String) (e : Episode) → IsHonest c e → IsHonest c (typed_row i t e)
typed_row-IsHonest c i t e h = elim (Bool-cases (str_eq e.id i)) [
  | inl there ↦ rw there h
  | inr away ↦ rw away h
]

module _ (f : Floats) (exp : f.Float → f.Float) (c : Codec) {E : Type 0} (engines : Engines E)
    (p : String) (time : String → ℕ) where
  abbrev AllHonest : List Episode → List (VecRow f.Float E) → Graph f.Float → Type 0
  AllHonest es vs g = All (IsHonest c) es

  AllHonest-rules : Rules f exp c engines p time AllHonest
  unfolding hash_turn
  AllHonest-rules = record {
    starts = tt;
    appends = λ es vs g eid turn timed free fresh h.
        All-append (IsHonest c) es (row_of c eid turn ∷ []) h
          ((turn.content, turn.tool_calls, refl, refl, refl), tt);
    marks = λ es vs g ids b h. All-map _ _ (evict_row ids b) es (evict_row-IsHonest c ids b) h;
    files = λ es vs g i row facet held read h.
        All-map _ _ (typed_row facet.episode_id facet.memory_type) es (typed_row-IsHonest c _ _) h;
    links = λ es vs g i row facet held read h.
        All-map _ _ (typed_row facet.episode_id facet.memory_type) es (typed_row-IsHonest c _ _) h;
    fades = λ es vs g now db h. h;
    clears = λ es vs g h. tt;
    purges = λ es vs g h. All-keep (IsHonest c) _ es h;
  }

  -- In every memory that calls lead to, in any order, the hash of each row is the digest of the role,
  -- the content and the calls that the row stores.
  pub Reach-IsHonest :
      (m : Memory f.Float E) → Reach f exp c engines p time m → All (IsHonest c) m.db.episodes
  Reach-IsHonest m r = Reach-keeps f exp c engines p time AllHonest AllHonest-rules r
