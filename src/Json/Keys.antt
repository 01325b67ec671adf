-- ===== src/Json/Keys.antt =====
-- Dicts after `d[k] = v` and after `d.pop(k, None)`.
use text.Mathlib.TextPositions.{eq_refl}
use spillover.Prelude.{
  String, ◌≡◌, refl, subst, false, ◌∙◌, List, [], ◌∷◌, none, some, any, str_eq, eq_iff, Bool-cases,
  inl, inr, if◌then◌else◌,
}
use spillover.Json.{Json, Fields, end, field, get, put, pop, pop_all}

pub get-put : (k : String) (v : Json) (fs : Fields) → get k (put k v fs) ≡ some v
unfolding get put
get-put k v end = rw eq_refl
get-put k v (field j w fs) = elim (Bool-cases (str_eq k j)) [
  | inl same ↦ rw (same, same) refl
  | inr other ↦ rw (other, other) (get-put k v fs)
]

pub get-put_other :
    (k j : String) (v : Json) (fs : Fields) → str_eq j k ≡ false → get j (put k v fs) ≡ get j fs
unfolding get put
get-put_other k j v end h = rw h refl
get-put_other k j v (field i w fs) h = elim (Bool-cases (str_eq k i)) [
  | inl same ↦
      let k_is_i : k ≡ i = (eq_iff k i).0 same in
      let apart : str_eq j i ≡ false = subst (λ t. str_eq j t ≡ false) k_is_i h in
      rw (same, get) (rw apart refl)
  | inr other ↦ rw other (elim (Bool-cases (str_eq j i)) [
    | inl here ↦ rw (here, get) refl
    | inr past ↦ rw (past, get) (get-put_other k j v fs h)
  ])
]

pub get-pop : (k : String) (fs : Fields) → get k (pop k fs) ≡ none
unfolding get pop
get-pop k end = refl
get-pop k (field j v fs) = elim (Bool-cases (str_eq k j)) [
  | inl same ↦ rw (same, pop) (get-pop k fs)
  | inr other ↦ rw (other, pop) (rw (other, get) (get-pop k fs))
]

pub get-pop_other : (k j : String) (fs : Fields) → str_eq j k ≡ false → get j (pop k fs) ≡ get j fs
unfolding get pop
get-pop_other k j end h = refl
get-pop_other k j (field i v fs) h = elim (Bool-cases (str_eq k i)) [
  | inl same ↦
      let k_is_i : k ≡ i = (eq_iff k i).0 same in
      let apart : str_eq j i ≡ false = subst (λ t. str_eq j t ≡ false) k_is_i h in
      rw (same, pop) (rw (apart, get) (get-pop_other k j fs h))
  | inr other ↦
      rw (other, pop)
        (elim (Bool-cases (str_eq j i)) [
          | inl here ↦ rw (here, get) refl
          | inr past ↦ rw (past, get) (get-pop_other k j fs h)
        ])
]

pub get-pop_all :
    (k : String) (ks : List String) (fs : Fields)
    → get k (pop_all ks fs) ≡ (if any (str_eq k) ks then none else get k fs)
unfolding pop_all
get-pop_all k [] fs = refl
get-pop_all k (j ∷ ks) fs = elim (Bool-cases (str_eq k j)) [
  | inl same ↦
      let k_is_j : k ≡ j = (eq_iff k j).0 same in
      rw (same, pop_all)
        (subst (λ t. get k (pop t (pop_all ks fs)) ≡ none) k_is_j (get-pop k (pop_all ks fs)))
  | inr other ↦ rw (other, pop_all) (get-pop_other j k (pop_all ks fs) other ∙ get-pop_all k ks fs)
]
