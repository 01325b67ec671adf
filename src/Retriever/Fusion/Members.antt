-- ===== src/Retriever/Fusion/Members.antt =====
-- Which hits `rrf_fuse` of src/spillover/retriever/fusion.py returns, and in which order.
use spillover.Prelude.{
  ℕ, suc, max, String, ◌≡◌, refl, sym, ap, subst, ◌∙◌, Bool, true, false, ◌||◌, List, [], ◌∷◌, map,
  any, sum_by, str_eq, eq_iff, if◌then◌else◌, arith, Bool-cases, inl, inr,
}
use spillover.Runtime.{Floats}
use spillover.Retriever.{Hit}
use spillover.Retriever.Fusion.{
  Scored, contribution, add_hit, add_ranking, add_rankings, key_lt, insert_scored, sort_scored,
  fused_hit, rrf_fuse,
}

module _ {F : Type 0} where
  abbrev pub has_id : String → Hit F → Bool
  has_id i h = str_eq h.episode_id i

  -- How many of the hits have this id.
  abbrev pub count_id : String → List (Hit F) → ℕ
  count_id i = sum_by (λ h. if has_id i h then 1 else 0)

abbrev pub raised : Bool → ℕ → ℕ
raised b n = if b then max 1 n else n

raised_or : (a b : Bool) (n : ℕ) → raised b (raised a n) ≡ raised (a || b) n
raised_or a b n = ground arith

module _ (f : Floats) where
  abbrev count_scored : String → List (Scored f) → ℕ
  count_scored i = sum_by (λ s. if has_id i s.meta then 1 else 0)

  add_hit_count :
      (i : String) (x : f.Float) (h : Hit f.Float) (ss : List (Scored f))
      → count_scored i (add_hit f x h ss)
        ≡ (if has_id i h then max 1 (count_scored i ss) else count_scored i ss)
  unfolding add_hit
  add_hit_count i x h [] = ground arith
  add_hit_count i x h (s ∷ ss) = elim (Bool-cases (str_eq s.meta.episode_id h.episode_id)) [
    | inl same ↦
        let e = (eq_iff s.meta.episode_id h.episode_id).0 same in
        rw (same, add_hit) (rw (sym e) (ground arith))
    | inr other ↦
        let ih = add_hit_count i x h ss in
        elim (Bool-cases (has_id i s.meta)) [
          | inr no_match ↦ rw (other, add_hit) (ground arith)
          | inl this ↦ elim (Bool-cases (has_id i h)) [
            | inr no_match ↦ rw (other, add_hit) (ground arith)
            | inl that ↦
                let e = (eq_iff s.meta.episode_id i).0 this in
                let e' = (eq_iff h.episode_id i).0 that in
                let k = (eq_iff s.meta.episode_id h.episode_id).1 (e ∙ sym e') in
                absurd (ground arith)
          ]
        ]
  ]

  add_ranking_count :
      (i : String) (weights : String → f.Float) (rank : ℕ) (hs : List (Hit f.Float))
      (ss : List (Scored f))
      → count_scored i (add_ranking f weights rank hs ss)
        ≡ raised (any (has_id i) hs) (count_scored i ss)
  unfolding add_ranking
  add_ranking_count i weights rank [] ss = refl
  add_ranking_count i weights rank (h ∷ hs) ss =
      let x = contribution f weights rank h in
      add_ranking_count i weights (suc rank) hs (add_hit f x h ss)
      ∙ ap (raised (any (has_id i) hs)) (add_hit_count i x h ss)
      ∙ raised_or (has_id i h) (any (has_id i) hs) (count_scored i ss)

  add_rankings_count :
      (i : String) (weights : String → f.Float) (rs : List (List (Hit f.Float)))
      (ss : List (Scored f))
      → count_scored i (add_rankings f weights rs ss)
        ≡ raised (any (any (has_id i)) rs) (count_scored i ss)
  unfolding add_rankings
  add_rankings_count i weights [] ss = refl
  add_rankings_count i weights (r ∷ rs) ss =
      add_rankings_count i weights rs (add_ranking f weights 1 r ss)
      ∙ ap (raised (any (any (has_id i)) rs)) (add_ranking_count i weights 1 r ss)
      ∙ raised_or (any (has_id i) r) (any (any (has_id i)) rs) (count_scored i ss)

  insert_scored_count :
      (i : String) (t : Scored f) (us : List (Scored f))
      → count_scored i (insert_scored f t us) ≡ count_scored i (t ∷ us)
  unfolding insert_scored
  insert_scored_count i t [] = refl
  insert_scored_count i t (u ∷ us) =
      let ih = insert_scored_count i t us in
      elim (Bool-cases (key_lt f u t)) [
        | inl less ↦ rw (less, insert_scored) (omega arith)
        | inr more ↦ rw (more, insert_scored) refl
      ]

  sort_scored_count :
      (i : String) (ts : List (Scored f)) → count_scored i (sort_scored f ts) ≡ count_scored i ts
  unfolding sort_scored
  sort_scored_count i [] = refl
  sort_scored_count i (t ∷ ts) =
      insert_scored_count i t (sort_scored f ts) ∙ omega (arith, sort_scored_count i ts)

  fused_count :
      (i : String) (ts : List (Scored f)) → count_id i (map (fused_hit f) ts) ≡ count_scored i ts
  fused_count i [] = refl
  fused_count i (t ∷ ts) = omega (arith, fused_count i ts)

  -- A list in which no element may stand in front of the one before it.
  abbrev pub IsDescending : List f.Float → Type 0
  IsDescending [] = Unit
  IsDescending (x ∷ []) = Unit
  IsDescending (x ∷ y ∷ ys) = (f.lt_f x y ≡ false) × IsDescending (y ∷ ys)

  abbrev totals : List (Scored f) → List f.Float
  totals = map (λ s. s.total)

  module _ (asym : (x y : f.Float) → f.lt_f x y ≡ true → f.lt_f y x ≡ false) where
    insert_scored-IsDescending :
        (t : Scored f) (us : List (Scored f))
        → IsDescending (totals us)
        → IsDescending (totals (insert_scored f t us))
    unfolding insert_scored
    insert_scored-IsDescending t [] h = tt
    insert_scored-IsDescending t (u ∷ []) h = elim (Bool-cases (key_lt f u t)) [
      | inl less ↦ rw (less, insert_scored) (asym _ _ less, tt)
      | inr more ↦ rw (more, insert_scored) (more, tt)
    ]
    insert_scored-IsDescending t (u ∷ v ∷ us) h =
        let ih = insert_scored-IsDescending t (v ∷ us) h.1 in
        elim (Bool-cases (key_lt f u t)) [
          | inr more ↦ rw (more, insert_scored) (more, h)
          | inl less ↦ elim (Bool-cases (key_lt f v t)) [
            | inl below ↦ rw (less, below, insert_scored) (h.0, rw (below, insert_scored) at ih)
            | inr above ↦
                rw (less, above, insert_scored) (asym _ _ less, rw (above, insert_scored) at ih)
          ]
        ]

    sort_scored-IsDescending : (ts : List (Scored f)) → IsDescending (totals (sort_scored f ts))
    unfolding sort_scored
    sort_scored-IsDescending [] = tt
    sort_scored-IsDescending (t ∷ ts) =
        insert_scored-IsDescending t (sort_scored f ts) (sort_scored-IsDescending ts)

    scores_eq : (ts : List (Scored f)) → map (λ h. h.score) (map (fused_hit f) ts) ≡ totals ts
    scores_eq [] = refl
    scores_eq (t ∷ ts) = ap (λ l. t.total ∷ l) (scores_eq ts)

    -- With an order of floats in which no two are less than each other: every hit of every ranking is
    -- in the fused ranking exactly once, under its id, nothing else is, and no score stands behind a
    -- smaller one.
    pub rrf_fuse-IsFused :
        (weights : String → f.Float) (rankings : List (List (Hit f.Float)))
        → ((i : String)
            → count_id i (rrf_fuse f weights rankings)
              ≡ (if any (any (has_id i)) rankings then 1 else 0))
          × IsDescending (map (λ h. h.score) (rrf_fuse f weights rankings))
    unfolding rrf_fuse
    rrf_fuse-IsFused weights rankings =
        let scored = add_rankings f weights rankings [] in
        (
          λ i.
              fused_count i (sort_scored f scored)
              ∙ sort_scored_count i scored
              ∙ add_rankings_count i weights rankings [],
          subst IsDescending (sym (scores_eq (sort_scored f scored)))
              (sort_scored-IsDescending scored),
        )
