-- ===== src/CounterCompact/Detection/Rescue.antt =====
-- What `detect_compaction` of src/spillover/counter_compact/detection.py chooses.
use spillover.Prelude.{
  ℕ, zero, suc, String, ◌≡◌, refl, Bool, true, not, some, List, [], ◌∷◌, arith, keep, take, All,
  Bool-cases, inl, inr,
}
use spillover.Json.{Message}
use spillover.Runtime.{Codec}
use spillover.Tokenizer.{count_tokens}
use spillover.Storage.{SeenRow, Db}
use spillover.CounterCompact.Detection.{
  RescuedTurn, current_hashes, insert_by_index, sort_by_index, is_recent, recent_rows, in_hashes,
  rescue_missing, detect_compaction,
}

-- The rows whose turn is not among the current messages.
abbrev pub missing : List String → List SeenRow → List SeenRow
missing current = keep (λ r. not (in_hashes r.turn_hash current))

-- A rescued turn is that of a row: its hash, its stored content and that content's tokens.
abbrev pub IsRescueOf : Codec → RescuedTurn → SeenRow → Type 0
IsRescueOf c t r =
    (t.original_hash ≡ r.turn_hash)
    × (c.loads r.content_json ≡ some t.content)
    × (t.token_count ≡ count_tokens c t.content)
    × (t.role ≡ "assistant")

-- Both lists, item by item.
abbrev pub AreRescues : Codec → List RescuedTurn → List SeenRow → Type 0
AreRescues c [] [] = Unit
AreRescues c (t ∷ ts) (r ∷ rs) = IsRescueOf c t r × AreRescues c ts rs
AreRescues c _ _ = ⊥

All-insert_by_index :
    (P : SeenRow → Type 0) (r : SeenRow) (rs : List SeenRow)
    → P r
    → All P rs
    → All P (insert_by_index r rs)
unfolding insert_by_index
All-insert_by_index P r [] h k = (h, tt)
All-insert_by_index P r (s ∷ ss) h k = ground (arith, All-insert_by_index P r ss h k.1)

All-sort_by_index : (P : SeenRow → Type 0) (rs : List SeenRow) → All P rs → All P (sort_by_index rs)
unfolding sort_by_index
All-sort_by_index P [] h = tt
All-sort_by_index P (r ∷ rs) h =
    All-insert_by_index P r (sort_by_index rs) h.0 (All-sort_by_index P rs h.1)

All-take : (P : SeenRow → Type 0) (n : ℕ) (rs : List SeenRow) → All P rs → All P (take n rs)
All-take P zero rs h = tt
All-take P (suc n) [] h = tt
All-take P (suc n) (r ∷ rs) h = (h.0, All-take P n rs h.1)

rescue_missing_none :
    (c : Codec) (current : List String) (rows : List SeenRow)
    → All (λ r. in_hashes r.turn_hash current ≡ true) rows
    → rescue_missing c current rows ≡ some []
unfolding rescue_missing
rescue_missing_none c current [] h = refl
rescue_missing_none c current (r ∷ rs) h =
    rw (h.0, rescue_missing) (rescue_missing_none c current rs h.1)

-- A conversation that lacks no recent turn is not taken for a compacted one: nothing is rescued.
pub detect_compaction_quiet :
    (c : Codec) (p : String) (now window max_rescue : ℕ) (messages : List Message) (db : Db)
    → All
        (λ r.
          is_recent p now window r ≡ true
          → in_hashes r.turn_hash (current_hashes c messages) ≡ true)
        db.seen_turns
    → detect_compaction c p now window max_rescue messages db ≡ some []
unfolding detect_compaction recent_rows
detect_compaction_quiet c p now window max_rescue messages db h =
    let all = keep (is_recent p now window) db.seen_turns in
    rescue_missing_none c (current_hashes c messages) (take max_rescue (sort_by_index all)) (
      All-take _ max_rescue (sort_by_index all)
        (All-sort_by_index _ all (All-keep_imp (is_recent p now window) db.seen_turns h)))
  where
    All-keep_imp :
        (q : SeenRow → Bool) (rs : List SeenRow)
        → All (λ r. q r ≡ true → in_hashes r.turn_hash (current_hashes c messages) ≡ true) rs
        → All (λ r. in_hashes r.turn_hash (current_hashes c messages) ≡ true) (keep q rs)
    All-keep_imp q [] k = tt
    All-keep_imp q (r ∷ rs) k = elim (Bool-cases (q r)) [
      | inl kept ↦ rw kept (k.0 kept, All-keep_imp q rs k.1)
      | inr left ↦ rw left (All-keep_imp q rs k.1)
    ]
