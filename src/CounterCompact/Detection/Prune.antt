-- ===== src/CounterCompact/Detection/Prune.antt =====
-- What `prune_old_seen_turns` of src/spillover/counter_compact/detection.py deletes.
use spillover.Prelude.{
  ℕ, ◌+◌, String, ◌≡◌, refl, ◌∙◌, ap, Bool, true, false, not, some, List, [], ◌∷◌, arith, keep,
  length, All, Bool-cases, inl, inr,
}
use spillover.Storage.{SeenRow, Db}
use spillover.CounterCompact.Detection.{is_row, find_row, is_stale, prune_old_seen_turns}

find_row-keep :
    (p : SeenRow → Bool) (q j : String) (r : SeenRow) (rs : List SeenRow)
    → find_row q j rs ≡ some r
    → p r ≡ true
    → find_row q j (keep p rs) ≡ some r
unfolding find_row
find_row-keep p q j r [] e k = e
find_row-keep p q j r (s ∷ rs) e k = elim (Bool-cases (is_row q j s)) [
  | inl here ↦
      let e' : s ≡ r = ground arith in
      let k' : p s ≡ true = ap p e' ∙ k in rw k' (rw here (ap some e'))
  | inr past ↦
      let rest = find_row-keep p q j r rs (rw past at e) k in
      elim (Bool-cases (p s)) [ inl kept ↦ rw kept (rw past rest) | inr left ↦ rw left rest ]
]

-- Pruning deletes exactly the project's rows that were not seen for `ttl_hours`, and counts them:
-- the rows before are the rows after and the counted ones; no stale row is left; and a row that was
-- found and is not stale is found as before.
pub prune_old_seen_turns_effect :
    (p : String) (now ttl_hours : ℕ) (db : Db)
    → let (db', n) = prune_old_seen_turns p now ttl_hours db in
      (length db'.seen_turns + n ≡ length db.seen_turns)
      × All (λ r. is_stale p now ttl_hours r ≡ false) db'.seen_turns
      × ((q j : String) (r : SeenRow)
          → find_row q j db.seen_turns ≡ some r
          → is_stale p now ttl_hours r ≡ false
          → find_row q j db'.seen_turns ≡ some r)
unfolding prune_old_seen_turns
prune_old_seen_turns_effect p now ttl_hours db = (
  split db.seen_turns,
  fresh db.seen_turns,
  λ q j r e k. find_row-keep (λ s. not (is_stale p now ttl_hours s)) q j r db.seen_turns e (rw k),
)
  where
    split :
        (rs : List SeenRow)
        → length (keep (λ r. not (is_stale p now ttl_hours r)) rs)
            + length (keep (is_stale p now ttl_hours) rs)
          ≡ length rs
    split [] = refl
    split (r ∷ rs) = ground (arith, split rs)

    fresh :
        (rs : List SeenRow)
        → All
            (λ r. is_stale p now ttl_hours r ≡ false)
            (keep (λ r. not (is_stale p now ttl_hours r)) rs)
    fresh [] = tt
    fresh (r ∷ rs) = elim (Bool-cases (is_stale p now ttl_hours r)) [
      | inl old ↦ rw old (fresh rs)
      | inr new ↦ rw new (new, fresh rs)
    ]
