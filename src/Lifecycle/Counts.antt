-- ===== src/Lifecycle/Counts.antt =====
-- The counts that `stats` of src/spillover/cli.py prints, through all writes to a project's memory.
use spillover.Prelude.{
  ℕ, suc, ◌+◌, ◌≤◌, String, ◌≡◌, refl, sym, ap, subst, ◌∙◌, Bool, true, false, not, some, List, [],
  ◌∷◌, inl, inr, arith, All, keep, map, length, str_eq, eq_iff, Bool-cases,
}
use spillover.Runtime.{Codec, Floats}
use spillover.Storage.{Episode, contains, has_id}
use spillover.Storage.Keys.{IsKeyed}
use spillover.Retriever.Budget.{row_of_id}
use spillover.Facet.{Engines, VecRow, Memory}
use spillover.Cli.{stats}
use spillover.Lifecycle.{Reach}
use spillover.Lifecycle.Lookup.{keep-IsKeyed, row_of_id-keep_inv}
use spillover.Lifecycle.Agree.{has_vector, IsSingle, IsBacked, Agree}
use spillover.Lifecycle.Consistent.{Reach-Agree}

abbrev IsDistinct : List String → Type 0
IsDistinct [] = Unit
IsDistinct (x ∷ xs) = (contains x xs ≡ false) × IsDistinct xs

abbrev without : String → List String → List String
without x ys = keep (λ y. not (str_eq x y)) ys

contains-without :
    (x i : String) (ys : List String) → contains i ys ≡ false → contains i (without x ys) ≡ false
contains-without x i [] h = refl
contains-without x i (y ∷ ys) h = ground (arith, contains-without x i ys)

without-IsDistinct : (x : String) (ys : List String) → IsDistinct ys → IsDistinct (without x ys)
without-IsDistinct x [] h = tt
without-IsDistinct x (y ∷ ys) h = elim (Bool-cases (str_eq x y)) [
  | inl same ↦ rw same (without-IsDistinct x ys h.1)
  | inr other ↦ rw other (contains-without x y ys h.0, without-IsDistinct x ys h.1)
]

contains-without_other :
    (x i : String) (ys : List String)
    → str_eq i x ≡ false
    → contains i ys ≡ true
    → contains i (without x ys) ≡ true
contains-without_other x i [] other h = absurd (ground arith)
contains-without_other x i (y ∷ ys) other h =
    ground (arith, eq_iff i y, eq_iff x y, eq_iff i x, contains-without_other x i ys other)

length-without_absent :
    (x : String) (ys : List String) → contains x ys ≡ false → length (without x ys) ≡ length ys
length-without_absent x [] h = refl
length-without_absent x (y ∷ ys) h = ground (arith, length-without_absent x ys)

length-without :
    (x : String) (ys : List String)
    → IsDistinct ys
    → contains x ys ≡ true
    → length ys ≡ suc (length (without x ys))
length-without x [] d h = absurd (ground arith)
length-without x (y ∷ ys) d h = elim (Bool-cases (str_eq x y)) [
  | inl same ↦
      let absent : contains x ys ≡ false =
        subst (λ z. contains z ys ≡ false) (sym ((eq_iff x y).0 same)) d.0 in
      rw same (ap suc (sym (length-without_absent x ys absent)))
  | inr other ↦ rw other (ap suc (length-without x ys d.1 (rw other at h)))
]

-- A list of distinct texts that are all in another one is no longer.
length-le_of_contains :
    (xs ys : List String)
    → IsDistinct xs
    → IsDistinct ys
    → ((i : String) → contains i xs ≡ true → contains i ys ≡ true)
    → length xs ≤ length ys
length-le_of_contains [] ys d d' h = omega arith
length-le_of_contains (x ∷ xs) ys d d' h =
    let there = h x (ground (arith, eq_iff x x)) in
    let rest =
      length-le_of_contains xs (without x ys) d.1 (without-IsDistinct x ys d')
        (λ i listed. contains-without_other x i ys (apart i listed) (h i (ground arith))) in
    omega (arith, rest, length-without x ys d' there)
  where
    apart : (i : String) → contains i xs ≡ true → str_eq i x ≡ false
    apart i listed = elim (Bool-cases (str_eq i x)) [
      | inr other ↦ other
      | inl same ↦
          let absent : contains i xs ≡ false =
            subst (λ z. contains z xs ≡ false) (sym ((eq_iff i x).0 same)) d.0 in
          cc
    ]

-- The ids of rows, and those of vectors.
row_ids : List Episode → List String
row_ids es = map (λ e. e.id) es

abbrev is_filed : Episode → Bool
is_filed e = not e.facet_pending

contains-row_ids : (i : String) (es : List Episode) → contains i (row_ids es) ≡ has_id i es
unfolding row_ids
contains-row_ids i [] = refl
contains-row_ids i (e ∷ es) = ground (arith, eq_iff i e.id, eq_iff e.id i, contains-row_ids i es)

row_ids-IsDistinct : (es : List Episode) → IsKeyed es → IsDistinct (row_ids es)
unfolding row_ids
row_ids-IsDistinct [] h = tt
row_ids-IsDistinct (e ∷ es) h = (contains-row_ids e.id es ∙ h.0, row_ids-IsDistinct es h.2)

has_id-row :
    (i : String) (es : List Episode)
    → has_id i es ≡ true
    → (e : Episode) × (row_of_id i es ≡ some e)
unfolding row_of_id
has_id-row i [] h = absurd (ground arith)
has_id-row i (e ∷ es) h = elim (Bool-cases (str_eq e.id i)) [
  | inl here ↦ (e, rw (here, row_of_id) refl)
  | inr past ↦ let (r, found) = has_id-row i es (rw past at h) in (r, rw (past, row_of_id) found)
]

row_of_id-has_id :
    (i : String) (es : List Episode) (e : Episode)
    → row_of_id i es ≡ some e
    → is_filed e ≡ true
    → has_id i (keep is_filed es) ≡ true
unfolding row_of_id
row_of_id-has_id i [] e h k = absurd (ground arith)
row_of_id-has_id i (x ∷ es) e h k = elim (Bool-cases (str_eq x.id i)) [
  | inl here ↦
      let same : x ≡ e = ground arith in
      let stays : is_filed x ≡ true = ap is_filed same ∙ k in rw (stays, here) refl
  | inr past ↦ ground (arith, row_of_id-has_id i es e (rw (past, row_of_id) at h) k)
]

length-keep_split :
    (p : Episode → Bool) (es : List Episode)
    → length (keep (λ e. not (p e)) es) + length (keep p es) ≡ length es
length-keep_split p [] = omega arith
length-keep_split p (e ∷ es) = ground (arith, length-keep_split p es)

length-row_ids : (es : List Episode) → length (row_ids es) ≡ length es
unfolding row_ids
length-row_ids [] = refl
length-row_ids (e ∷ es) = ap suc (length-row_ids es)

module _ {F E : Type 0} where
  vector_ids : List (VecRow F E) → List String
  vector_ids vs = map (λ v. v.episode_id) vs

  length-vector_ids : (vs : List (VecRow F E)) → length (vector_ids vs) ≡ length vs
  unfolding vector_ids
  length-vector_ids [] = refl
  length-vector_ids (v ∷ vs) = ap suc (length-vector_ids vs)

  contains-vector_ids :
      (i : String) (vs : List (VecRow F E)) → contains i (vector_ids vs) ≡ has_vector i vs
  unfolding vector_ids
  contains-vector_ids i [] = refl
  contains-vector_ids i (v ∷ vs) =
      ground (arith, eq_iff i v.episode_id, eq_iff v.episode_id i, contains-vector_ids i vs)

  vector_ids-IsDistinct : (vs : List (VecRow F E)) → IsSingle vs → IsDistinct (vector_ids vs)
  unfolding vector_ids
  vector_ids-IsDistinct [] h = tt
  vector_ids-IsDistinct (v ∷ vs) h =
      (contains-vector_ids v.episode_id vs ∙ h.0, vector_ids-IsDistinct vs h.1)

  backed-filed :
      (i : String) (es : List Episode) (vs : List (VecRow F E))
      → All (IsBacked es) vs
      → has_vector i vs ≡ true
      → has_id i (keep is_filed es) ≡ true
  backed-filed i es [] h k = absurd (ground arith)
  backed-filed i es (v ∷ vs) ((e, held, done, typed, timed), h) k =
      elim (Bool-cases (str_eq v.episode_id i)) [
        | inl here ↦
            subst (λ j. has_id j (keep is_filed es) ≡ true) ((eq_iff v.episode_id i).0 here)
              (row_of_id-has_id v.episode_id es e held (ap not done))
        | inr past ↦ backed-filed i es vs h (rw past at k)
      ]

  -- As many vectors as filed rows.
  Agree-length :
      (es : List Episode) (vs : List (VecRow F E))
      → Agree es vs
      → length vs ≡ length (keep is_filed es)
  Agree-length es vs (keyed, single, backed, vectored) =
      let filed = row_ids (keep is_filed es) in
      let rows = row_ids-IsDistinct (keep is_filed es) (keep-IsKeyed is_filed es keyed) in
      let vectors = vector_ids-IsDistinct vs single in
      let forth = length-le_of_contains (vector_ids vs) filed vectors rows (λ i listed.
        contains-row_ids i (keep is_filed es)
        ∙ backed-filed i es vs backed (sym (contains-vector_ids i vs) ∙ listed)) in
      let back = length-le_of_contains filed (vector_ids vs) rows vectors (λ i listed.
        let (e, found) =
          has_id-row i (keep is_filed es) (sym (contains-row_ids i (keep is_filed es)) ∙ listed) in
        let (held, done) = row_of_id-keep_inv is_filed i es e keyed found in
        contains-vector_ids i vs ∙ vectored i e held (ground arith)) in
      omega (arith, forth, back, length-vector_ids vs, length-row_ids (keep is_filed es))

-- In every memory that calls lead to, in any order, the counts that `stats` prints add up: the
-- episodes are those with a vector and those that wait for one.
pub Reach-stats :
    (f : Floats) (exp : f.Float → f.Float) (c : Codec) {E : Type 0} (engines : Engines E)
    (p : String) (time : String → ℕ) (m : Memory f.Float E)
    → Reach f exp c engines p time m
    → (stats m).embedded + (stats m).facet_pending ≡ (stats m).episodes
unfolding stats
Reach-stats f exp c engines p time m r = omega (
  arith,
  Agree-length m.db.episodes m.vectors (Reach-Agree f exp c engines p time m r),
  length-keep_split (λ e. e.facet_pending) m.db.episodes,
)
