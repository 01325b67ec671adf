-- ===== src/Archive/Honest.antt =====
-- Rows whose hash is the digest of what they store (src/spillover/archive/writer.py).
use spillover.Prelude.{
  String, ◌≡◌, refl, ap, true, false, none, some, List, [], ◌∷◌, ◌++◌, inl, inr, arith, All,
  All-append, str_eq, eq_iff, Bool-cases,
}
use spillover.Json.{Json, str, arr, obj, Items, end, field}
use spillover.Runtime.{Codec}
use spillover.Storage.{Episode, Db, id_of_hash, has_id}
use spillover.Storage.Keys.{has_hash}
use spillover.Archive.{Turn, hash_turn, row_of, archive_raw}
use spillover.Archive.Laws.{archive_raw_effect}

-- The digest of a role, a content and calls of tools.
abbrev pub digest : Codec → String → Json → Items → String
digest c role content calls = c.sha256 (
    c.dumps_sorted (
      obj (field "role" (str role) (field "content" content (field "tool_calls" (arr calls) end)))))

-- The row's hash is the digest of the role, the content and the calls that the row stores.
abbrev pub IsHonest : Codec → Episode → Type 0
IsHonest c e =
    (content : Json) × (calls : Items) × (e.hash ≡ digest c e.role content calls)
    × (e.content_json ≡ c.dumps content)
    × (e.tool_calls_json ≡ c.dumps (arr calls))

-- There is a row with this hash, and what it stores has this digest.
abbrev pub HasRow : Codec → String → List Episode → Type 0
HasRow c h es =
    (e : Episode) × (pre : List Episode) × (post : List Episode) × (es ≡ pre ++ e ∷ post)
    × (e.hash ≡ h)
    × IsHonest c e

pub id_of_hash-HasRow :
    (c : Codec) (h i : String) (es : List Episode)
    → All (IsHonest c) es
    → id_of_hash h es ≡ some i
    → HasRow c h es
unfolding id_of_hash
id_of_hash-HasRow c h i [] a k = absurd (cc)
id_of_hash-HasRow c h i (e ∷ es) a k = elim (Bool-cases (str_eq e.hash h)) [
  | inl here ↦ (e, [], es, refl, (eq_iff e.hash h).0 here, a.0)
  | inr past ↦
      let (x, pre, post, same, hash, honest) = id_of_hash-HasRow c h i es a.1 (rw past at k) in
      (x, e ∷ pre, post, ap (◌∷◌ e) same, hash, honest)
]

pub archive_raw-IsHonest :
    (c : Codec) (eid : String) (turn : Turn) (db : Db)
    → All (IsHonest c) db.episodes
    → All (IsHonest c) (archive_raw c (λ d. d) eid turn db).0.episodes
archive_raw-IsHonest c eid turn db a = elim (archive_raw_effect c (λ d. d) eid turn db) [
  | inl (j, old, e) ↦ rw e a
  | inr (inl (held, e)) ↦ rw e a
  | inr (inr (inl (fresh, free, e))) ↦ rw e (
      All-append (IsHonest c) db.episodes (row_of c eid turn ∷ []) a
        ((turn.content, turn.tool_calls, (unfold hash_turn in refl), refl, refl), tt))
  | inr (inr (inr (fresh, taken, e))) ↦ rw e a
]

pub has_hash-id_of_hash :
    (h : String) (es : List Episode) → id_of_hash h es ≡ none → has_hash h es ≡ false
unfolding id_of_hash
has_hash-id_of_hash h [] k = refl
has_hash-id_of_hash h (e ∷ es) k = ground (arith, has_hash-id_of_hash h es)

-- Archiving fails only where the drawn id is taken, and then writes nothing.
pub archive_raw-none :
    (c : Codec) (eid : String) (turn : Turn) (db : Db)
    → (archive_raw c (λ d. d) eid turn db).1 ≡ none
    → ((archive_raw c (λ d. d) eid turn db).0 ≡ db) × (has_id eid db.episodes ≡ true)
archive_raw-none c eid turn db = elim (archive_raw_effect c (λ d. d) eid turn db) [
  | inl (j, old, e) ↦ rw e (λ k. absurd (cc))
  | inr (inl (held, e)) ↦
      rw e (λ k. absurd (ground (arith, has_hash-id_of_hash (hash_turn c turn) db.episodes)))
  | inr (inr (inl (fresh, free, e))) ↦ rw e (λ k. absurd (cc))
  | inr (inr (inr (fresh, taken, e))) ↦ rw e (λ k. (refl, taken))
]
