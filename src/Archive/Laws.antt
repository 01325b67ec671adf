-- ===== src/Archive/Laws.antt =====
-- What archiving a turn does to the database, on every path of archive/writer.py.
use text.Mathlib.TextPositions.{eq_refl}
use spillover.Prelude.{
  String, ◌≡◌, refl, ◌∙◌, ap, true, false, none, some, List, [], ◌∷◌, ◌++◌, ◌⊎◌, inl, inr, arith,
  Bool-cases, Option-cases,
}
use spillover.Runtime.{Codec}
use spillover.Storage.{Episode, Db, id_of_hash, has_id, insert_episode}
use spillover.Storage.Keys.{IsKeyed, has_hash, append-IsKeyed}
use spillover.Archive.{Turn, hash_turn, row_of, index_body, insert_turn, archive_raw}

id_of_hash-append_new :
    (h : String) (es : List Episode) (e : Episode)
    → id_of_hash h es ≡ none
    → e.hash ≡ h
    → id_of_hash h (es ++ e ∷ []) ≡ some e.id
unfolding id_of_hash
id_of_hash-append_new h [] e k eq = rw eq (rw eq_refl)
id_of_hash-append_new h (x ∷ es) e k eq = ground (arith, id_of_hash-append_new h es e)

pub id_of_hash-has_hash :
    (h : String) (es : List Episode) → has_hash h es ≡ false → id_of_hash h es ≡ none
unfolding id_of_hash
id_of_hash-has_hash h [] k = refl
id_of_hash-has_hash h (e ∷ es) k = ground (arith, id_of_hash-has_hash h es)

-- The INSERT and its handler: a fresh row stands at the end and is indexed, or the row that holds
-- the hash already is returned, or the drawn id was taken and the error is raised again.
pub insert_turn_cases :
    (c : Codec) (eid : String) (turn : Turn) (db : Db)
    → ((has_hash (hash_turn c turn) db.episodes ≡ false)
        × (has_id eid db.episodes ≡ false)
        × (insert_turn c eid turn db ≡ (
          index_body c eid turn (record db { episodes = db.episodes ++ row_of c eid turn ∷ [] }),
          some eid,
        )))
      ⊎ ((has_hash (hash_turn c turn) db.episodes ≡ true)
          × (insert_turn c eid turn db ≡ (db, id_of_hash (hash_turn c turn) db.episodes)))
      ⊎ ((has_hash (hash_turn c turn) db.episodes ≡ false)
          × (has_id eid db.episodes ≡ true)
          × (insert_turn c eid turn db ≡ (db, none)))
unfolding insert_turn insert_episode
insert_turn_cases c eid turn db = elim (Bool-cases (has_hash (hash_turn c turn) db.episodes)) [
  | inl old ↦ inr (inl (old, ground arith))
  | inr new ↦ elim (Bool-cases (has_id eid db.episodes)) [
    | inl taken ↦
        inr (inr (new, taken, ground (arith, id_of_hash-has_hash (hash_turn c turn) db.episodes)))
    | inr free ↦ inl (new, free, ground arith)
  ]
]

module _ (c : Codec) (others : Db → Db) (eid : String) (turn : Turn) (db : Db) where
  -- The id that comes back is the id of the row that holds the turn's hash.
  pub archive_raw-finds :
      (i : String)
      → (archive_raw c others eid turn db).1 ≡ some i
      → id_of_hash (hash_turn c turn) (archive_raw c others eid turn db).0.episodes ≡ some i
  unfolding archive_raw
  archive_raw-finds i = elim (Option-cases (id_of_hash (hash_turn c turn) db.episodes)) [
    | inr (j, old) ↦ rw (old, archive_raw) (λ k. old ∙ k)
    | inl new ↦
        rw (new, archive_raw)
          (elim (insert_turn_cases c eid turn (others db)) [
            | inl (fresh, free, e) ↦ rw e (λ k.
                id_of_hash-append_new (hash_turn c turn) (others db).episodes (row_of c eid turn)
                  (id_of_hash-has_hash (hash_turn c turn) (others db).episodes fresh) refl
                ∙ k)
            | inr (inl (held, e)) ↦ rw e (λ k. k)
            | inr (inr (fresh, taken, e)) ↦ rw e (λ k. absurd (cc))
          ])
  ]

  -- Ids and hashes stay unique, if the other connections keep them so.
  pub archive_raw-IsKeyed :
      IsKeyed db.episodes
      → IsKeyed (others db).episodes
      → IsKeyed (archive_raw c others eid turn db).0.episodes
  unfolding archive_raw
  archive_raw-IsKeyed k k' = elim (Option-cases (id_of_hash (hash_turn c turn) db.episodes)) [
    | inr (j, old) ↦ rw (old, archive_raw) k
    | inl new ↦
        rw (new, archive_raw)
          (elim (insert_turn_cases c eid turn (others db)) [
            | inl (fresh, free, e) ↦
                rw e (append-IsKeyed (row_of c eid turn) (others db).episodes k' free fresh)
            | inr (inl (held, e)) ↦ rw e k'
            | inr (inr (fresh, taken, e)) ↦ rw e k'
          ])
  ]

  -- What the call does, by what the database holds: the turn's hash is there, and nothing is
  -- written; or another connection stored it in between, and its row is returned; or the turn gets
  -- one new row at the end, under the drawn id, and its text in the index; or the drawn id was
  -- taken, and the call fails and writes nothing.
  pub archive_raw_effect :
      ((j : String) × (id_of_hash (hash_turn c turn) db.episodes ≡ some j)
        × (archive_raw c others eid turn db ≡ (db, some j)))
      ⊎ ((has_hash (hash_turn c turn) (others db).episodes ≡ true)
          × (archive_raw c others eid turn db
              ≡ (others db, id_of_hash (hash_turn c turn) (others db).episodes)))
      ⊎ ((has_hash (hash_turn c turn) (others db).episodes ≡ false)
          × (has_id eid (others db).episodes ≡ false)
          × (archive_raw c others eid turn db ≡ (
            index_body c eid turn
                (record (others db) { episodes = (others db).episodes ++ row_of c eid turn ∷ [] }),
            some eid,
          )))
      ⊎ ((has_hash (hash_turn c turn) (others db).episodes ≡ false)
          × (has_id eid (others db).episodes ≡ true)
          × (archive_raw c others eid turn db ≡ (others db, none)))
  unfolding archive_raw
  archive_raw_effect = elim (Option-cases (id_of_hash (hash_turn c turn) db.episodes)) [
    | inr (j, old) ↦ inl (j, old, rw (old, archive_raw))
    | inl new ↦
        rw (new, archive_raw)
          (elim (insert_turn_cases c eid turn (others db)) [
            | inl stored ↦ inr (inr (inl stored))
            | inr (inl held) ↦ inr (inl held)
            | inr (inr taken) ↦ inr (inr (inr taken))
          ])
  ]

-- Archiving is idempotent: once a turn is in, archiving a turn of the same hash again, with
-- whatever id, writes nothing and returns the id of the first time.
archive_raw_idempotent :
    (c : Codec) (others others' : Db → Db) (eid eid' : String) (turn turn' : Turn) (db : Db)
    (i : String)
    → hash_turn c turn' ≡ hash_turn c turn
    → (archive_raw c others eid turn db).1 ≡ some i
    → archive_raw c others' eid' turn' (archive_raw c others eid turn db).0
      ≡ ((archive_raw c others eid turn db).0, some i)
archive_raw_idempotent c others others' eid eid' turn turn' db i same h =
    again (archive_raw c others eid turn db).0 (
      ap (λ t. id_of_hash t (archive_raw c others eid turn db).0.episodes) same
      ∙ archive_raw-finds c others eid turn db i h)
  where
    again :
        (d : Db)
        → id_of_hash (hash_turn c turn') d.episodes ≡ some i
        → archive_raw c others' eid' turn' d ≡ (d, some i)
    again d e = unfold archive_raw in rw (e, archive_raw)

id_of_hash-append :
    (h : String) (es : List Episode) (e : Episode) (i : String)
    → id_of_hash h es ≡ some i
    → id_of_hash h (es ++ e ∷ []) ≡ some i
unfolding id_of_hash
id_of_hash-append h [] e i k = absurd (cc)
id_of_hash-append h (x ∷ es) e i k = ground (arith, id_of_hash-append h es e i)

-- Archiving a turn loses no row: a hash that was found is found as before.
pub archive_raw_keeps :
    (c : Codec) (eid : String) (turn : Turn) (db : Db) (h i : String)
    → id_of_hash h db.episodes ≡ some i
    → id_of_hash h (archive_raw c (λ d. d) eid turn db).0.episodes ≡ some i
archive_raw_keeps c eid turn db h i k = elim (archive_raw_effect c (λ d. d) eid turn db) [
  | inl (j, old, e) ↦ rw e k
  | inr (inl (held, e)) ↦ rw e k
  | inr (inr (inl (fresh, free, e))) ↦
      rw e (id_of_hash-append h db.episodes (row_of c eid turn) i k)
  | inr (inr (inr (fresh, taken, e))) ↦ rw e k
]
