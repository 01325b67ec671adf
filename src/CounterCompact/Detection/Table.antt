-- ===== src/CounterCompact/Detection/Table.antt =====
-- The table `seen_turns` under `record_seen_turns` of detection.py.
use text.Mathlib.TextPositions.{eq_refl}
use spillover.Prelude.{
  ℕ, suc, String, ◌≡◌, refl, ◌∙◌, Bool, true, false, ◌&&◌, Option, none, some, List, [], ◌∷◌, ◌++◌,
  arith, str_eq, eq_iff, if◌then◌else◌, is_some, All, ◌⊎◌, inl, inr, Bool-cases, Option-cases,
}
use spillover.Json.{Message, has_role}
use spillover.Runtime.{Codec}
use spillover.Storage.{SeenRow, Db}
use spillover.CounterCompact.Detection.{
  hash_assistant_message, is_row, find_row, touch, new_row, upsert, record_from, record_seen_turns,
}

-- A later sighting: the row keeps its first sighting, index and content.
abbrev pub IsLater : ℕ → SeenRow → SeenRow → Type 0
IsLater now r r' =
    (r'.project_id ≡ r.project_id)
    × (r'.turn_hash ≡ r.turn_hash)
    × (r'.turn_index ≡ r.turn_index)
    × (r'.content_json ≡ r.content_json)
    × (r'.first_seen_ts ≡ r.first_seen_ts)
    × ((r'.last_seen_ts ≡ now) ⊎ (r'.last_seen_ts ≡ r.last_seen_ts))

-- The row of a key, seen at `now`.
abbrev pub SeenAt : String → String → ℕ → List SeenRow → Type 0
SeenAt q j now rows = (r : SeenRow) × (find_row q j rows ≡ some r) × (r.last_seen_ts ≡ now)

-- The row of a key after a change of the table, if it had one before.
abbrev pub Keeps : String → String → ℕ → List SeenRow → List SeenRow → Type 0
Keeps q j now rows rows' =
    (r : SeenRow)
    → find_row q j rows ≡ some r
    → (r' : SeenRow) × (find_row q j rows' ≡ some r') × IsLater now r r'

find_row-append :
    (q j : String) (rows : List SeenRow) (n : SeenRow)
    → find_row q j (rows ++ n ∷ []) ≡ (
        if is_some (find_row q j rows)
        then find_row q j rows
        else if is_row q j n
        then some n
        else none)
unfolding find_row
find_row-append q j [] n = refl
find_row-append q j (r ∷ rs) n = ground (arith, find_row-append q j rs n)

abbrev refreshed : Bool → ℕ → Option SeenRow → Option SeenRow
refreshed b now o = elim o [
  | none ↦ none
  | some r ↦ some (if b then record r { last_seen_ts = now } else r)
]

find_row-touch :
    (q j p h : String) (now : ℕ) (rows : List SeenRow)
    → find_row q j (touch p h now rows)
      ≡ refreshed (str_eq q p && str_eq j h) now (find_row q j rows)
unfolding find_row touch
find_row-touch q j p h now [] = refl
find_row-touch q j p h now (r ∷ rs) = ground (
  arith,
  find_row-touch q j p h now rs,
  eq_iff r.project_id p,
  eq_iff r.project_id q,
  eq_iff q p,
  eq_iff r.turn_hash h,
  eq_iff r.turn_hash j,
  eq_iff j h,
)

IsLater-refl : (now : ℕ) (r : SeenRow) → IsLater now r r
IsLater-refl now r = (refl, refl, refl, refl, refl, inr refl)

refreshed-IsLater :
    (b : Bool) (now : ℕ) (r : SeenRow) {o : Option SeenRow}
    → o ≡ refreshed b now (some r)
    → (r' : SeenRow) × (o ≡ some r') × IsLater now r r'
refreshed-IsLater true now r e =
    (record r { last_seen_ts = now }, e, (refl, refl, refl, refl, refl, inl refl))
refreshed-IsLater false now r e = (r, e, IsLater-refl now r)

module _ (c : Codec) (p : String) (now : ℕ) where
  upsert-SeenAt :
      (idx : ℕ) (m : Message) (rows : List SeenRow)
      → SeenAt p (hash_assistant_message c m) now (upsert c p now idx m rows)
  unfolding upsert
  upsert-SeenAt idx m rows = elim (Option-cases (find_row p (hash_assistant_message c m) rows)) [
    | inl new ↦ (
      new_row c p now idx m,
      rw (new, upsert)
          (find_row-append p (hash_assistant_message c m) rows (new_row c p now idx m)
            ∙ rw (new, eq_refl p, eq_refl (hash_assistant_message c m))),
      refl,
    )
    | inr (r, old) ↦ (
      record r { last_seen_ts = now },
      rw (old, upsert)
          (find_row-touch p (hash_assistant_message c m) p (hash_assistant_message c m) now rows
            ∙ rw (old, eq_refl p, eq_refl (hash_assistant_message c m))),
      refl,
    )
  ]

  upsert-Keeps :
      (idx : ℕ) (m : Message) (rows : List SeenRow) (q j : String)
      → Keeps q j now rows (upsert c p now idx m rows)
  unfolding upsert
  upsert-Keeps idx m rows q j r e =
      elim (Option-cases (find_row p (hash_assistant_message c m) rows)) [
        | inl new ↦
            rw (new, upsert)
              (r, find_row-append q j rows (new_row c p now idx m) ∙ rw e, IsLater-refl now r)
        | inr (o, old) ↦
            rw (old, upsert)
              (refreshed-IsLater (str_eq q p && str_eq j (hash_assistant_message c m)) now r
                (find_row-touch q j p (hash_assistant_message c m) now rows ∙ rw e))
      ]

  IsLater-trans : (r s t : SeenRow) → IsLater now r s → IsLater now s t → IsLater now r t
  IsLater-trans r s t h k = ground (arith, h, k)

  Keeps-SeenAt :
      (q j : String) (rows rows' : List SeenRow)
      → Keeps q j now rows rows'
      → SeenAt q j now rows
      → SeenAt q j now rows'
  Keeps-SeenAt q j rows rows' keep (r, e, t) =
      let (r', e', later) = keep r e in (r', e', seen r' later.5)
    where
      seen :
          (s : SeenRow)
          → (s.last_seen_ts ≡ now) ⊎ (s.last_seen_ts ≡ r.last_seen_ts)
          → s.last_seen_ts ≡ now
      seen s (inl h) = h
      seen s (inr h) = h ∙ t

  record_from-Keeps :
      (idx : ℕ) (ms : List Message) (rows : List SeenRow) (q j : String)
      → Keeps q j now rows (record_from c p now idx ms rows)
  unfolding record_from
  record_from-Keeps idx [] rows q j r e = (r, e, IsLater-refl now r)
  record_from-Keeps idx (m ∷ ms) rows q j r e = elim (Bool-cases (has_role "assistant" m)) [
    | inl mine ↦
        let (r', e', l) = upsert-Keeps idx m rows q j r e in
        let (r'', e'', l') = record_from-Keeps (suc idx) ms (upsert c p now idx m rows) q j r' e' in
        (r'', rw (mine, record_from) e'', IsLater-trans r r' r'' l l')
    | inr other ↦ rw (other, record_from) (record_from-Keeps (suc idx) ms rows q j r e)
  ]

  record_from-SeenAt :
      (idx : ℕ) (ms : List Message) (rows : List SeenRow)
      → All
          (λ m.
            has_role "assistant" m ≡ true
            → SeenAt p (hash_assistant_message c m) now (record_from c p now idx ms rows))
          ms
  unfolding record_from
  record_from-SeenAt idx [] rows = tt
  record_from-SeenAt idx (m ∷ ms) rows =
      let rows' = if has_role "assistant" m then upsert c p now idx m rows else rows in
      (
        λ mine.
            Keeps-SeenAt p (hash_assistant_message c m) rows'
              (record_from c p now (suc idx) ms rows')
              (record_from-Keeps (suc idx) ms rows' p (hash_assistant_message c m))
              (rw mine (upsert-SeenAt idx m rows)),
        record_from-SeenAt (suc idx) ms rows',
      )

-- After a conversation is recorded at `now`, each of its assistant messages has its row in the
-- project, last seen at `now`.
pub record_seen_turns-SeenAt :
    (c : Codec) (p : String) (now : ℕ) (messages : List Message) (db : Db)
    → All
        (λ m.
          has_role "assistant" m ≡ true
          → SeenAt p
              (hash_assistant_message c m)
              now
              (record_seen_turns c p now messages db).seen_turns)
        messages
unfolding record_seen_turns
record_seen_turns-SeenAt c p now messages db = record_from-SeenAt c p now 0 messages db.seen_turns

-- Recording forgets nothing: the row of every project and hash that had one is still found, with
-- the first sighting, the index and the content that it had, last seen now or when it was.
pub record_seen_turns-Keeps :
    (c : Codec) (p : String) (now : ℕ) (messages : List Message) (db : Db) (q j : String)
    → Keeps q j now db.seen_turns (record_seen_turns c p now messages db).seen_turns
unfolding record_seen_turns
record_seen_turns-Keeps c p now messages db q j =
    record_from-Keeps c p now 0 messages db.seen_turns q j
