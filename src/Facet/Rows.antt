-- ===== src/Facet/Rows.antt =====
-- The rows that `_process_one` of src/spillover/facet/worker.py changes, by their ids.
use spillover.Prelude.{
  String, ◌≡◌, refl, sym, ap, subst, ◌∙◌, Bool, true, false, not, Option, some, List, [], ◌∷◌, ◌++◌,
  inl, inr, arith, any, keep, map, str_eq, eq_iff, Bool-cases, if◌then◌else◌,
}
use spillover.Storage.{Episode}
use spillover.Retriever.Budget.{row_of_id}
use spillover.Facet.{VecRow, typed_row}

typed_row-id : (i t : String) (row : Episode) → (typed_row i t row).id ≡ row.id
typed_row-id i t row = elim (Bool-cases (str_eq row.id i)) [
  | inl same ↦ rw same refl
  | inr other ↦ rw other refl
]

pub typed_row-done :
    (i t : String) (row : Episode)
    → row.facet_pending ≡ false
    → (typed_row i t row).facet_pending ≡ false
typed_row-done i t row h = elim (Bool-cases (str_eq row.id i)) [
  | inl same ↦ rw same refl
  | inr other ↦ rw other h
]

pub typed_row_self :
    (i t : String) (row : Episode) → row.id ≡ i → (typed_row i t row).facet_pending ≡ false
typed_row_self i t row h = let same = (eq_iff row.id i).1 h in rw same refl

pub row_of_id-id :
    (j : String) (es : List Episode) (row : Episode) → row_of_id j es ≡ some row → row.id ≡ j
unfolding row_of_id
row_of_id-id j [] row e = absurd (ground arith)
row_of_id-id j (x ∷ es) row e = elim (Bool-cases (str_eq x.id j)) [
  | inl here ↦
      let same : x ≡ row = ground arith in ap (λ r. r.id) (sym same) ∙ (eq_iff x.id j).0 here
  | inr past ↦ row_of_id-id j es row (rw (past, row_of_id) at e)
]

pub row_of_id-typed :
    (i j t : String) (es : List Episode) (row : Episode)
    → row_of_id j es ≡ some row
    → row_of_id j (map (typed_row i t) es) ≡ some (typed_row i t row)
unfolding row_of_id
row_of_id-typed i j t [] row e = absurd (ground arith)
row_of_id-typed i j t (x ∷ es) row e =
    let same_id = ap (λ k. str_eq k j) (typed_row-id i t x) in
    let choice : Bool → Option Episode =
      λ b. if b then some (typed_row i t x) else row_of_id j (map (typed_row i t) es) in
    elim (Bool-cases (str_eq x.id j)) [
      | inl here ↦
          let same : x ≡ row = ground arith in
          ap choice (same_id ∙ here) ∙ ap (λ r. some (typed_row i t r)) same
      | inr past ↦
          ap choice (same_id ∙ past) ∙ row_of_id-typed i j t es row (rw (past, row_of_id) at e)
    ]

module _ {F E : Type 0} where
  pub added-listed :
      (row : VecRow F E) (vs : List (VecRow F E))
      → any
          (λ v. str_eq v.episode_id row.episode_id)
          (keep (λ v. not (str_eq v.episode_id row.episode_id)) vs ++ row ∷ [])
        ≡ true
  added-listed row [] = let self = (eq_iff row.episode_id row.episode_id).1 refl in rw self refl
  added-listed row (v ∷ vs) = elim (Bool-cases (str_eq v.episode_id row.episode_id)) [
    | inl same ↦ rw same (added-listed row vs)
    | inr other ↦ rw (other, other) (added-listed row vs)
  ]

  pub replaced-listed :
      (j : String) (row : VecRow F E) (vs : List (VecRow F E))
      → any (λ v. str_eq v.episode_id j) vs ≡ true
      → any
          (λ v. str_eq v.episode_id j)
          (keep (λ v. not (str_eq v.episode_id row.episode_id)) vs ++ row ∷ [])
        ≡ true
  replaced-listed j row vs h = elim (Bool-cases (str_eq row.episode_id j)) [
    | inl same ↦
        subst
          (λ k.
            any (λ v. str_eq v.episode_id k)
              (keep (λ v. not (str_eq v.episode_id row.episode_id)) vs ++ row ∷ [])
            ≡ true)
          ((eq_iff row.episode_id j).0 same) (added-listed row vs)
    | inr other ↦ replaced_other vs other h
  ]
    where
      replaced_other :
          (us : List (VecRow F E))
          → str_eq row.episode_id j ≡ false
          → any (λ v. str_eq v.episode_id j) us ≡ true
          → any
              (λ v. str_eq v.episode_id j)
              (keep (λ v. not (str_eq v.episode_id row.episode_id)) us ++ row ∷ [])
            ≡ true
      replaced_other [] other k = absurd (ground arith)
      replaced_other (u ∷ us) other k = elim (Bool-cases (str_eq u.episode_id row.episode_id)) [
        | inl same ↦
            let apart : str_eq u.episode_id j ≡ false =
              subst (λ i. str_eq i j ≡ false) (sym ((eq_iff u.episode_id row.episode_id).0 same))
                other in
            rw same (replaced_other us other (rw apart at k))
        | inr stays ↦ elim (Bool-cases (str_eq u.episode_id j)) [
          | inl here ↦ rw (stays, here) refl
          | inr past ↦ rw (stays, past) (replaced_other us other (rw past at k))
        ]
      ]
