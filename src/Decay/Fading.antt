-- ===== src/Decay/Fading.antt =====
-- What the decay of src/spillover/decay/scheduler.py changes and what it keeps.
use spillover.Prelude.{
  ℕ, ◌+◌, String, ◌≡◌, refl, ap, true, false, List, [], ◌∷◌, map, sum_by, length, keep, All,
  if◌then◌else◌, Bool-cases, inl, inr, arith,
}
use spillover.Runtime.{Floats, min_f}
use spillover.Storage.{Db}
use spillover.Facet.{VecRow, Memory}
use spillover.Decay.{is_pinned, faded_importance, faded_row, apply_decay_for_project}

-- What a row has beside its importance.
abbrev pub lasting : {F E : Type 0} → VecRow F E → String × (E × (String × ℕ))
lasting v = (v.episode_id, (v.embedding, (v.memory_type, v.ts)))

module _ (f : Floats) (asym : (x y : f.Float) → f.lt_f x y ≡ true → f.lt_f y x ≡ false) where
  min_f-capped : (a b : f.Float) → f.lt_f a (min_f f a b) ≡ false
  min_f-capped a b = elim (Bool-cases (f.lt_f b a)) [
    | inl less ↦ rw less (asym b a less)
    | inr more ↦
        rw more (elim (Bool-cases (f.lt_f a a)) [ inl less ↦ asym a a less | inr same ↦ same ])
  ]

module _ (f : Floats) (exp : f.Float → f.Float) {E : Type 0}
    (asym : (x y : f.Float) → f.lt_f x y ≡ true → f.lt_f y x ≡ false) where
  -- Whether a row may stand for `v` after the decay.
  abbrev pub IsCapped : Db → VecRow f.Float E → Type 0
  IsCapped db v = is_pinned db v.episode_id ≡ false → f.lt_f (f.literal "1.0") v.importance ≡ false

  -- The rows that are pinned.
  abbrev pub pinned_in : Db → List (VecRow f.Float E) → List (VecRow f.Float E)
  pinned_in db = keep (λ v. is_pinned db v.episode_id)

  abbrev pub unpinned : Db → List (VecRow f.Float E) → ℕ
  unpinned db = sum_by (λ v. if is_pinned db v.episode_id then 0 else 1)

  abbrev pub IsFaded : Db → List (VecRow f.Float E) → List (VecRow f.Float E) → ℕ → Type 0
  IsFaded db before after n =
      (map lasting after ≡ map lasting before)
      × (pinned_in db after ≡ pinned_in db before)
      × All (IsCapped db) after
      × (n + length (pinned_in db before) ≡ length before)

  map-IsFaded :
      (now : ℕ) (db : Db) (vs : List (VecRow f.Float E))
      → IsFaded db vs (map (faded_row f exp now db) vs) (unpinned db vs)
  unfolding faded_importance
  map-IsFaded now db [] = (refl, refl, tt, omega arith)
  map-IsFaded now db (v ∷ vs) =
      let (same, kept, capped, counted) = map-IsFaded now db vs in
      elim (Bool-cases (is_pinned db v.episode_id)) [
        | inl pinned ↦ rw pinned (
          ap (λ l. lasting v ∷ l) same,
          rw pinned (ap (λ l. v ∷ l) kept),
          (λ e. absurd (ground arith), capped),
          omega arith,
        )
        | inr free ↦ rw free (
          ap (λ l. lasting v ∷ l) same,
          rw free kept,
          (λ e. min_f-capped f asym (f.literal "1.0") _, capped),
          omega arith,
        )
      ]

  -- Where no two floats are less than each other, a round changes nothing but the importance of rows
  -- that are not pinned: all rows keep their episode, vector, type and time, in their order, the
  -- pinned ones are as they were, no other importance exceeds one, and the number returned is that of
  -- the others.
  pub apply_decay-IsFaded :
      (now : ℕ) (m : Memory f.Float E)
      → let out = apply_decay_for_project f exp now m in
        (out.0.db ≡ m.db) × IsFaded m.db m.vectors out.0.vectors out.1
  unfolding apply_decay_for_project
  apply_decay-IsFaded now m = (refl, map-IsFaded now m.db m.vectors)
