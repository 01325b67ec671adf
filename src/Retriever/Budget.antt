-- ===== src/Retriever/Budget.antt =====
-- src/spillover/retriever/budget.py: the hits cut to a number of tokens.
use spillover.Prelude.{
  ℕ, suc, ◌+◌, ◌≤◌, ◌<◌, String, ◌≡◌, refl, ap, Bool, true, false, Option, none, some, is_some,
  List, [], ◌∷◌, arith, tests, ltb, ◌==◌, str_eq, if◌then◌else◌, Bool-cases, Option-cases, inl, inr,
  length, take, keep, sum_by, ℤ, pos, pos_part, leb_ℤ,
}
use spillover.Json.{str}
use spillover.Runtime.{Codec}
use spillover.Tokenizer.{count_tokens}
use spillover.Storage.{Episode, Db}
use spillover.Retriever.{Hit}

ltb-false→le : (a b : ℕ) → ltb a b ≡ false → b ≤ a
ltb-false→le a b h = ground arith

-- `by_id.get(hit.episode_id)`
unfoldable pub row_of_id : String → List Episode → Option Episode
row_of_id i [] = none
row_of_id i (e ∷ es) = if str_eq e.id i then some e else row_of_id i es

-- `n`
abbrev pub row_tokens : Codec → Episode → ℕ
row_tokens c e = if e.token_count == 0 then count_tokens c (str e.content_json) else e.token_count

-- The loop, with `total`.
unfoldable pub trim_from : {F : Type 0} → Codec → Db → ℕ → ℕ → List (Hit F) → List (Hit F)
trim_from c db max_tokens total [] = []
trim_from c db max_tokens total (h ∷ hs) = elim (row_of_id h.episode_id db.episodes) [
  | none ↦ trim_from c db max_tokens total hs
  | some row ↦
      let rest = trim_from c db max_tokens (total + row_tokens c row) hs in
      if ltb max_tokens (total + row_tokens c row) then [] else h ∷ rest
]

unfoldable pub trim_to_budget : {F : Type 0} → Codec → Db → List (Hit F) → ℤ → List (Hit F)
trim_to_budget c db hits max_tokens =
    if leb_ℤ max_tokens (pos 0) then [] else trim_from c db (pos_part max_tokens) 0 hits

module _ {F : Type 0} (c : Codec) (db : Db) where
  abbrev pub is_found : Hit F → Bool
  is_found h = is_some (row_of_id h.episode_id db.episodes)

  abbrev pub hit_tokens : Hit F → ℕ
  hit_tokens h = elim (row_of_id h.episode_id db.episodes) [
    | none ↦ 0
    | some row ↦ row_tokens c row
  ]

  abbrev pub hits_tokens : List (Hit F) → ℕ
  hits_tokens = sum_by hit_tokens

  -- The longest prefix of `found` that fits into what `total` leaves.
  abbrev pub IsLongest : ℕ → ℕ → List (Hit F) → List (Hit F) → Type 0
  IsLongest max_tokens total found hits =
      (n : ℕ) × (hits ≡ take n found)
      × (total + hits_tokens (take n found) ≤ max_tokens)
      × (n < length found → max_tokens < total + hits_tokens (take (suc n) found))

  trim_from-IsLongest :
      (max_tokens total : ℕ) (hits : List (Hit F))
      → total ≤ max_tokens
      → IsLongest max_tokens total (keep is_found hits) (trim_from c db max_tokens total hits)
  unfolding trim_from
  trim_from-IsLongest max_tokens total [] h = (0, refl, omega arith, λ k. absurd (omega arith))
  trim_from-IsLongest max_tokens total (x ∷ hits) h =
      elim (Option-cases (row_of_id x.episode_id db.episodes)) [
        | inl missing ↦ rw (missing, trim_from) (trim_from-IsLongest max_tokens total hits h)
        | inr (row, held) ↦
            let tok : hit_tokens x ≡ row_tokens c row = ground arith in
            elim (Bool-cases (ltb max_tokens (total + row_tokens c row))) [
              | inl over ↦ rw (held, trim_from) (rw over (0, refl, omega arith, λ k. omega tests))
              | inr fits ↦
                  let within : total + row_tokens c row ≤ max_tokens =
                    ltb-false→le max_tokens (total + row_tokens c row) fits in
                  let (n, e, low, next) =
                    trim_from-IsLongest max_tokens (total + row_tokens c row) hits within in
                  rw (held, trim_from)
                    (rw fits (
                      suc n,
                      ap (λ hs. x ∷ hs) e,
                      omega arith,
                      λ k. let z = next (omega arith) in omega arith,
                    ))
            ]
      ]

  -- With a positive budget the hits that stay are the longest prefix of the hits with a row whose
  -- tokens fit into it; without one none stays.
  pub trim_to_budget-IsLongest :
      (hits : List (Hit F)) (max_tokens : ℤ)
      → (leb_ℤ max_tokens (pos 0) ≡ true → trim_to_budget c db hits max_tokens ≡ [])
        × (leb_ℤ max_tokens (pos 0) ≡ false
            → IsLongest
                (pos_part max_tokens)
                0
                (keep is_found hits)
                (trim_to_budget c db hits max_tokens))
  unfolding trim_to_budget
  trim_to_budget-IsLongest hits max_tokens = (
    λ k. rw (k, trim_to_budget) refl,
    λ k. rw (k, trim_to_budget) (trim_from-IsLongest (pos_part max_tokens) 0 hits (omega arith)),
  )
