-- ===== src/Lifecycle/Lookup.antt =====
-- Rows of `episodes` looked up by their ids, behind the statements that write to the table, and the
-- vectors with their ids.
use spillover.Prelude.{
  String, ◌≡◌, refl, sym, ap, subst, ◌∙◌, Bool, true, false, some, List, [], ◌∷◌, ◌++◌, ◌⊎◌, ◌≢◌,
  inl, inr, arith, keep, map, str_eq, eq_iff, Bool-cases,
}
use spillover.Storage.{Episode, has_id}
use spillover.Storage.Keys.{IsKeyed, has_hash}
use spillover.Retriever.Budget.{row_of_id}
use spillover.Cli.{is_rescued_id}

pub row_of_id-append :
    (i : String) (es : List Episode) (r e : Episode)
    → row_of_id i es ≡ some e
    → row_of_id i (es ++ r ∷ []) ≡ some e
unfolding row_of_id
row_of_id-append i [] r e h = absurd (ground arith)
row_of_id-append i (x ∷ es) r e h = ground (arith, row_of_id-append i es r e)

pub row_of_id-append_inv :
    (i : String) (es : List Episode) (r e : Episode)
    → row_of_id i (es ++ r ∷ []) ≡ some e
    → (row_of_id i es ≡ some e) ⊎ (r ≡ e)
unfolding row_of_id
row_of_id-append_inv i [] r e h = elim (Bool-cases (str_eq r.id i)) [
  | inl same ↦ inr (ground arith)
  | inr other ↦ absurd (ground arith)
]
row_of_id-append_inv i (x ∷ es) r e h = elim (Bool-cases (str_eq x.id i)) [
  | inl here ↦ inl (rw (here, row_of_id) (rw (here, row_of_id) at h))
  | inr past ↦ elim (row_of_id-append_inv i es r e (rw (past, row_of_id) at h)) [
    | inl old ↦ inl (rw (past, row_of_id) old)
    | inr new ↦ inr new
  ]
]

-- An update that leaves the ids alone.
module _ (f : Episode → Episode) (ids : (e : Episode) → (f e).id ≡ e.id) where
  pub row_of_id-map :
      (i : String) (es : List Episode) (e : Episode)
      → row_of_id i es ≡ some e
      → row_of_id i (map f es) ≡ some (f e)
  unfolding row_of_id
  row_of_id-map i [] e h = absurd (ground arith)
  row_of_id-map i (x ∷ es) e h = ground (arith, ids x, row_of_id-map i es e)

  pub row_of_id-map_inv :
      (i : String) (es : List Episode) (e' : Episode)
      → row_of_id i (map f es) ≡ some e'
      → (e : Episode) × (row_of_id i es ≡ some e) × (f e ≡ e')
  unfolding row_of_id
  row_of_id-map_inv i [] e' h = absurd (ground arith)
  row_of_id-map_inv i (x ∷ es) e' h = elim (Bool-cases (str_eq x.id i)) [
    | inl here ↦ (x, rw (here, row_of_id) refl, ground (arith, ids x))
    | inr past ↦
        let (e, held, same) = row_of_id-map_inv i es e' (ground (arith, ids x)) in
        (e, rw (past, row_of_id) held, same)
  ]

module _ (p : Episode → Bool) where
  pub row_of_id-keep :
      (i : String) (es : List Episode) (e : Episode)
      → row_of_id i es ≡ some e
      → p e ≡ true
      → row_of_id i (keep p es) ≡ some e
  unfolding row_of_id
  row_of_id-keep i [] e h k = absurd (ground arith)
  row_of_id-keep i (x ∷ es) e h k = elim (Bool-cases (str_eq x.id i)) [
    | inl here ↦
        let same : x ≡ e = ground arith in
        let stays : p x ≡ true = ap p same ∙ k in rw (stays, here, row_of_id) (ap some same)
    | inr past ↦
        let rest = row_of_id-keep i es e (rw (past, row_of_id) at h) k in
        elim (Bool-cases (p x)) [
          | inl stays ↦ rw (stays, past, row_of_id) rest
          | inr goes ↦ rw goes rest
        ]
  ]

  has_id-keep :
      (i : String) (es : List Episode) → has_id i es ≡ false → has_id i (keep p es) ≡ false
  has_id-keep i [] h = refl
  has_id-keep i (x ∷ es) h = ground (arith, has_id-keep i es)

  has_hash-keep :
      (k : String) (es : List Episode) → has_hash k es ≡ false → has_hash k (keep p es) ≡ false
  has_hash-keep k [] h = refl
  has_hash-keep k (x ∷ es) h = ground (arith, has_hash-keep k es)

  pub keep-IsKeyed : (es : List Episode) → IsKeyed es → IsKeyed (keep p es)
  keep-IsKeyed [] h = tt
  keep-IsKeyed (x ∷ es) h = elim (Bool-cases (p x)) [
    | inl stays ↦
        rw stays (has_id-keep x.id es h.0, has_hash-keep x.hash es h.1, keep-IsKeyed es h.2)
    | inr goes ↦ rw goes (keep-IsKeyed es h.2)
  ]

  row_of_id-none :
      (i : String) (es : List Episode) (e : Episode) → has_id i es ≡ false → row_of_id i es ≢ some e
  unfolding row_of_id
  row_of_id-none i [] e h k = ground arith
  row_of_id-none i (x ∷ es) e h k = ground (arith, row_of_id-none i es e)

  pub row_of_id-keep_inv :
      (i : String) (es : List Episode) (e : Episode)
      → IsKeyed es
      → row_of_id i (keep p es) ≡ some e
      → (row_of_id i es ≡ some e) × (p e ≡ true)
  unfolding row_of_id
  row_of_id-keep_inv i [] e h k = absurd (ground arith)
  row_of_id-keep_inv i (x ∷ es) e h k = elim (Bool-cases (p x)) [
    | inl stays ↦ elim (Bool-cases (str_eq x.id i)) [
      | inl here ↦
          let same : x ≡ e = ground arith in
          (rw (here, row_of_id) (ap some same), ap p (sym same) ∙ stays)
      | inr past ↦
          let rest = row_of_id-keep_inv i es e h.2 (rw (stays, past, row_of_id) at k) in
          (rw (past, row_of_id) rest.0, rest.1)
    ]
    | inr goes ↦
        let rest = row_of_id-keep_inv i es e h.2 (rw goes at k) in
        elim (Bool-cases (str_eq x.id i)) [
          | inl here ↦ absurd (
              row_of_id-none i es e (subst (λ j. has_id j es ≡ false) ((eq_iff x.id i).0 here) h.0)
                rest.0)
          | inr past ↦ (rw (past, row_of_id) rest.0, rest.1)
        ]
  ]

-- Whether an id belongs to a rescued row, by the row that has it.
pub is_rescued_id-row :
    (i : String) (es : List Episode) (e : Episode)
    → IsKeyed es
    → row_of_id i es ≡ some e
    → is_rescued_id es i ≡ e.compaction_rescued
unfolding row_of_id
is_rescued_id-row i [] e h k = absurd (ground arith)
is_rescued_id-row i (x ∷ es) e h k = elim (Bool-cases (str_eq x.id i)) [
  | inl here ↦
      let same : x ≡ e = ground arith in
      let past =
        is_rescued_id-absent i es (subst (λ j. has_id j es ≡ false) ((eq_iff x.id i).0 here) h.0) in
      rw (here, past) (ground arith)
  | inr past ↦ rw past (ground (arith, is_rescued_id-row i es e h.2 (rw (past, row_of_id) at k)))
]
  where
    is_rescued_id-absent :
        (j : String) (xs : List Episode) → has_id j xs ≡ false → is_rescued_id xs j ≡ false
    is_rescued_id-absent j [] q = refl
    is_rescued_id-absent j (y ∷ ys) q = ground (arith, is_rescued_id-absent j ys)
