-- ===== src/Proxy/Rescue/Effect.antt =====
-- What `_detect_and_rescue` of src/spillover/proxy/app.py leaves behind.
use spillover.Prelude.{ℕ, String, true, List, [], ◌∷◌, map, inl, inr, All, Option-cases}
use spillover.Json.{Message}
use spillover.Runtime.{Codec}
use spillover.Storage.{Db}
use spillover.Archive.Honest.{IsHonest}
use spillover.Archive.Several.{archive_evicted, AreStored, AreMarked, archive_evicted-IsHonest}
use spillover.CounterCompact.Detection.{RescuedTurn, record_seen_turns, detect_compaction}
use spillover.Proxy.Rescue.{window_seconds, max_rescue, archived_turn, rescue, detect_and_rescue}

-- Every rescued turn is in the archive under the id that is reported for it, marked as evicted and
-- as rescued.
abbrev pub IsRescued : Codec → String → ℕ → List RescuedTurn → List String → Db → Type 0
IsRescued c p ts rescued eids db =
    AreStored c db (map (archived_turn p ts) rescued) eids × AreMarked true db eids

rescue-IsHonest :
    (c : Codec) (ids : ℕ → String) (p : String) (ts : ℕ) (rs : List RescuedTurn) (db : Db)
    → All (IsHonest c) db.episodes
    → All (IsHonest c) (rescue c ids p ts rs db).0.episodes
unfolding rescue
rescue-IsHonest c ids p ts [] db h = h
rescue-IsHonest c ids p ts (r ∷ rs) db h =
    let turns = map (archived_turn p ts) (r ∷ rs) in
    let h' = archive_evicted-IsHonest c ids true turns db h in
    elim (Option-cases (archive_evicted c ids true turns db).1) [
      | inl fails ↦ rw (fails, rescue) h'
      | inr (eids, good) ↦ rw (good, rescue) h'
    ]

-- The rescue keeps honest rows honest.
pub detect_and_rescue-IsHonest :
    (c : Codec) (ids : ℕ → String) (p : String) (detected_at seen_at ts : ℕ)
    (messages : List Message) (db : Db)
    → All (IsHonest c) db.episodes
    → All (IsHonest c) (detect_and_rescue c ids p detected_at seen_at ts messages db).0.episodes
unfolding detect_and_rescue record_seen_turns
detect_and_rescue-IsHonest c ids p detected_at seen_at ts messages db h =
    elim (Option-cases (detect_compaction c p detected_at window_seconds max_rescue messages db)) [
      | inl fails ↦ rw (fails, detect_and_rescue) h
      | inr (rs, good) ↦
          rw (good, detect_and_rescue)
            (rescue-IsHonest c ids p ts rs (record_seen_turns c p seen_at messages db) h)
    ]
