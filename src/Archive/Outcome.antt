-- ===== src/Archive/Outcome.antt =====
-- The four ways in which `archive_raw` of src/spillover/archive/writer.py ends, and the row that it
-- writes, column by column.
use spillover.Prelude.{
  String, ◌≡◌, refl, true, false, Option, none, some, [], ◌∷◌, ◌++◌, inl, inr, arith, Option-cases,
}
use spillover.Json.{Json, null, bool, int, real, str, arr, obj}
use spillover.Runtime.{Codec}
use spillover.Storage.{Episode, Db, id_of_hash, has_id}
use spillover.Archive.{Turn, hash_turn, row_of, body_text, archive_raw}
use spillover.Archive.Laws.{insert_turn_cases, id_of_hash-has_hash}
use spillover.Archive.Honest.{digest, has_hash-id_of_hash}

-- The columns of a new row.
abbrev pub IsNewRow : Codec → String → Turn → Episode → Type 0
IsNewRow c eid turn e =
    (e.id ≡ eid)
    × (e.project_id ≡ turn.project_id)
    × (e.role ≡ turn.role)
    × (e.content_json ≡ c.dumps turn.content)
    × (e.tool_calls_json ≡ c.dumps (arr turn.tool_calls))
    × (e.code_refs_json ≡ c.dumps (arr turn.code_refs))
    × (e.token_count ≡ turn.token_count)
    × (e.ts ≡ turn.ts)
    × (e.hash ≡ digest c turn.role turn.content turn.tool_calls)
    × (e.evicted ≡ false)
    × (e.pinned ≡ false)
    × (e.hit_count ≡ 0)
    × (e.memory_type ≡ none)
    × (e.facet_pending ≡ true)
    × (e.compaction_rescued ≡ turn.compaction_rescued)

-- What the text index holds of a content: a text as it is, and anything else printed.
pub data IsBody (c : Codec) : Json → String → Type 0 where
  as_it_is : {t : String} → IsBody c (str t) t
  printed : {v : Json} → ((t : String) → v ≡ str t → ⊥) → IsBody c v (c.dumps v)

module _ (c : Codec) (eid : String) (turn : Turn) where
  abbrev hash : String
  hash = digest c turn.role turn.content turn.tool_calls

  -- `db` is what the SELECT reads and `race` what the INSERT meets.
  pub data Outcome (db race : Db) (out : Db × Option String) : Type 0 where
    known :
        (i : String)
        → id_of_hash hash db.episodes ≡ some i
        → out ≡ (db, some i)
        → Outcome db race out
    raced :
        (i : String)
        → id_of_hash hash db.episodes ≡ none
        → id_of_hash hash race.episodes ≡ some i
        → out ≡ (race, some i)
        → Outcome db race out
    stored :
        (e : Episode) (body : String)
        → id_of_hash hash db.episodes ≡ none
        → id_of_hash hash race.episodes ≡ none
        → has_id eid race.episodes ≡ false
        → IsNewRow c eid turn e
        → IsBody c turn.content body
        → out ≡ (
          record race {
            episodes = race.episodes ++ e ∷ [];
            fts = race.fts ++ record { episode_id = eid; body = body } ∷ [];
          },
          some eid,
        )
        → Outcome db race out
    taken :
        id_of_hash hash db.episodes ≡ none
        → id_of_hash hash race.episodes ≡ none
        → has_id eid race.episodes ≡ true
        → out ≡ (race, none)
        → Outcome db race out

  body_text-IsBody : (v : Json) → IsBody c v (body_text c v)
  body_text-IsBody (str t) = as_it_is
  body_text-IsBody null = printed (λ t e. absurd (ground arith))
  body_text-IsBody (bool b) = printed (λ t e. absurd (ground arith))
  body_text-IsBody (int n) = printed (λ t e. absurd (ground arith))
  body_text-IsBody (real s) = printed (λ t e. absurd (ground arith))
  body_text-IsBody (arr xs) = printed (λ t e. absurd (ground arith))
  body_text-IsBody (obj d) = printed (λ t e. absurd (ground arith))

  -- Exactly one of four: the SELECT finds the digest of the turn's role, content and calls, and
  -- nothing is written; it does not, but another connection has stored a row under this digest in
  -- between, whose id is returned; no row has it and the drawn id is free, and one new row stands at
  -- the end, with the turn's columns, neither evicted nor pinned and yet to be processed, and its
  -- text in the index; or the drawn id is taken, and the call fails and writes nothing.
  pub archive_raw-Outcome :
      (others : Db → Db) (db : Db) → Outcome db (others db) (archive_raw c others eid turn db)
  unfolding archive_raw hash_turn
  archive_raw-Outcome others db = elim (Option-cases (id_of_hash hash db.episodes)) [
    | inr (j, old) ↦ known j old (rw (old, archive_raw) refl)
    | inl new ↦ elim (insert_turn_cases c eid turn (others db)) [
      | inl (fresh, free, e) ↦
          stored (row_of c eid turn) (body_text c turn.content) new
            (id_of_hash-has_hash hash (others db).episodes fresh) free
            (
              refl, refl, refl, refl, refl, refl, refl, refl, refl, refl, refl, refl, refl, refl,
              refl,
            )
            (body_text-IsBody turn.content) (rw (new, archive_raw) e)
      | inr (inl (held, e)) ↦ elim (Option-cases (id_of_hash hash (others db).episodes)) [
        | inl lost ↦
            absurd (let k = has_hash-id_of_hash hash (others db).episodes lost in ground arith)
        | inr (i, found) ↦ raced i new found (rw (new, archive_raw) (rw (found) at e))
      ]
      | inr (inr (fresh, full, e)) ↦
          taken new (id_of_hash-has_hash hash (others db).episodes fresh) full
            (rw (new, archive_raw) e)
    ]
  ]
