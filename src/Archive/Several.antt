-- ===== src/Archive/Several.antt =====
-- Several turns archived in a row and marked as evicted: the loops of `_maybe_evict` and of
-- `_detect_and_rescue` in src/spillover/proxy/app.py.
use spillover.Prelude.{
  ℕ, suc, String, ◌≡◌, refl, ◌∙◌, subst, Bool, true, false, ◌||◌, Option, none, some, List, [], ◌∷◌,
  arith, All, Bool-cases, Option-cases, inl, inr, map,
}
use spillover.Runtime.{Codec}
use spillover.Storage.{Episode, Db, id_of_hash, contains, evict_row, mark_evicted}
use spillover.Archive.{Turn, hash_turn, archive_raw}
use spillover.Archive.Honest.{IsHonest, archive_raw-IsHonest}
use spillover.Archive.Laws.{archive_raw-finds, archive_raw_keeps}

-- The UPDATE behind the loop, where an id was archived.
abbrev pub mark_all : Bool → List String → Db → Db
mark_all rescued [] db = db
mark_all rescued (eid ∷ eids) db = mark_evicted (eid ∷ eids) rescued db

module _ (c : Codec) (ids : ℕ → String) where
  -- The calls of `archive_raw` one after the other; `none` is the IntegrityError that ends the loop,
  -- and what was written before it stays.
  unfoldable pub archive_turns : ℕ → List Turn → Db → Db × Option (List String)
  archive_turns i [] db = (db, some [])
  archive_turns i (t ∷ ts) db =
      let archived = archive_raw c (λ d. d) (ids i) t db in
      let rest = archive_turns (suc i) ts archived.0 in
      elim archived.1 [
        | none ↦ (archived.0, none)
        | some eid ↦ elim rest.1 [ none ↦ (rest.0, none) | some eids ↦ (rest.0, some (eid ∷ eids)) ]
      ]

  unfoldable pub archive_evicted : Bool → List Turn → Db → Db × Option (List String)
  archive_evicted rescued ts db =
      let archived = archive_turns 0 ts db in
      elim archived.1 [
        | none ↦ (archived.0, none)
        | some eids ↦ (mark_all rescued eids archived.0, some eids)
      ]

-- Each turn has its id, under its hash.
abbrev pub AreStored : Codec → Db → List Turn → List String → Type 0
AreStored c db [] [] = Unit
AreStored c db (t ∷ ts) (i ∷ is) =
    (id_of_hash (hash_turn c t) db.episodes ≡ some i) × AreStored c db ts is
AreStored c db _ _ = ⊥

-- The rows of these ids are marked.
abbrev pub AreMarked : Bool → Db → List String → Type 0
AreMarked rescued db eids =
    All
      (λ e.
        contains e.id eids ≡ true
        → (e.evicted ≡ true) × (rescued ≡ true → e.compaction_rescued ≡ true))
      db.episodes

module _ (c : Codec) (ids : ℕ → String) where
  archive_turns_keeps :
      (n : ℕ) (ts : List Turn) (db : Db) (h i : String)
      → id_of_hash h db.episodes ≡ some i
      → id_of_hash h (archive_turns c ids n ts db).0.episodes ≡ some i
  unfolding archive_turns
  archive_turns_keeps n [] db h i k = k
  archive_turns_keeps n (t ∷ ts) db h i k =
      let k' = archive_raw_keeps c (ids n) t db h i k in
      let a = archive_raw c (λ d. d) (ids n) t db in
      elim (Option-cases a.1) [
        | inl fails ↦ rw (fails, archive_turns) k'
        | inr (eid, stored) ↦
            let rest = archive_turns_keeps (suc n) ts a.0 h i k' in
            elim (Option-cases (archive_turns c ids (suc n) ts a.0).1) [
              | inl bad ↦ rw (stored, archive_turns) (rw (bad, archive_turns) rest)
              | inr (eids, good) ↦ rw (stored, archive_turns) (rw (good, archive_turns) rest)
            ]
      ]

  archive_turns-AreStored :
      (n : ℕ) (ts : List Turn) (db : Db) (eids : List String)
      → (archive_turns c ids n ts db).1 ≡ some eids
      → AreStored c (archive_turns c ids n ts db).0 ts eids
  unfolding archive_turns
  archive_turns-AreStored n [] db eids e =
      let e' : [] ≡ eids = ground arith in subst (AreStored c db []) e' tt
  archive_turns-AreStored n (t ∷ ts) db eids e =
      let a = archive_raw c (λ d. d) (ids n) t db in
      let rest = archive_turns c ids (suc n) ts a.0 in
      elim (Option-cases a.1) [
        | inl fails ↦
            absurd (let k : none ≡ some eids = rw (fails, archive_turns) at e in ground arith)
        | inr (eid, stored) ↦ elim (Option-cases rest.1) [
          | inl bad ↦
              absurd
                (let k : none ≡ some eids = rw (stored, bad, archive_turns) at e in ground arith)
          | inr (is, good) ↦
              let k : some (eid ∷ is) ≡ some eids = rw (stored, good, archive_turns) at e in
              let e' : eid ∷ is ≡ eids = ground arith in
              let found = archive_raw-finds c (λ d. d) (ids n) t db eid stored in
              let h = archive_turns_keeps (suc n) ts a.0 (hash_turn c t) eid found in
              rw (stored, good, archive_turns)
                (subst (AreStored c rest.0 (t ∷ ts)) e'
                  (h, archive_turns-AreStored (suc n) ts a.0 is good))
        ]
      ]

id_of_hash-mark :
    (h : String) (eids : List String) (rescued : Bool) (es : List Episode)
    → id_of_hash h (map (evict_row eids rescued) es) ≡ id_of_hash h es
unfolding id_of_hash
id_of_hash-mark h eids rescued [] = refl
id_of_hash-mark h eids rescued (e ∷ es) = ground (arith, id_of_hash-mark h eids rescued es)

or_true : (b : Bool) → (b || true) ≡ true
or_true true = refl
or_true false = refl

mark-AreMarked :
    (eids : List String) (rescued : Bool) (es : List Episode)
    → All
        (λ e.
          contains e.id eids ≡ true
          → (e.evicted ≡ true) × (rescued ≡ true → e.compaction_rescued ≡ true))
        (map (evict_row eids rescued) es)
mark-AreMarked eids rescued [] = tt
mark-AreMarked eids rescued (e ∷ es) = (marked, mark-AreMarked eids rescued es)
  where
    marked :
        contains (evict_row eids rescued e).id eids ≡ true
        → ((evict_row eids rescued e).evicted ≡ true)
          × (rescued ≡ true → (evict_row eids rescued e).compaction_rescued ≡ true)
    marked = elim (Bool-cases (contains e.id eids)) [
      | inl held ↦ rw held (λ k. (refl, λ r. rw r (or_true e.compaction_rescued)))
      | inr other ↦ rw other (λ k. absurd (ground arith))
    ]

AreStored-mark_all :
    (c : Codec) (db : Db) (js : List String) (rescued : Bool) (ts : List Turn) (eids : List String)
    → AreStored c db ts eids
    → AreStored c (mark_all rescued js db) ts eids
unfolding mark_evicted
AreStored-mark_all c db [] rescued ts eids h = h
AreStored-mark_all c db (j ∷ js) rescued ts eids h = go ts eids h
  where
    go :
        (us : List Turn) (is : List String)
        → AreStored c db us is
        → AreStored c (mark_evicted (j ∷ js) rescued db) us is
    go [] [] k = tt
    go [] (i ∷ is) k = absurd k
    go (u ∷ us) [] k = absurd k
    go (u ∷ us) (i ∷ is) k =
        (id_of_hash-mark (hash_turn c u) (j ∷ js) rescued db.episodes ∙ k.0, go us is k.1)

pub AreMarked-mark_all :
    (eids : List String) (rescued : Bool) (db : Db)
    → AreMarked rescued (mark_all rescued eids db) eids
unfolding mark_evicted
AreMarked-mark_all [] rescued db = go db.episodes
  where
    go :
        (es : List Episode)
        → All
            (λ e.
              contains e.id [] ≡ true
              → (e.evicted ≡ true) × (rescued ≡ true → e.compaction_rescued ≡ true))
            es
    go [] = tt
    go (e ∷ es) = ((λ k. absurd (ground arith)), go es)
AreMarked-mark_all (i ∷ is) rescued db = mark-AreMarked (i ∷ is) rescued db.episodes

-- Where the loop ends well, every turn is found under its hash, by the id that is reported for it,
-- and the rows of the reported ids are marked as evicted, as rescued too where that is asked for.
pub archive_evicted-AreStored :
    (c : Codec) (ids : ℕ → String) (rescued : Bool) (ts : List Turn) (db : Db) (eids : List String)
    → (archive_evicted c ids rescued ts db).1 ≡ some eids
    → AreStored c (archive_evicted c ids rescued ts db).0 ts eids
      × AreMarked rescued (archive_evicted c ids rescued ts db).0 eids
unfolding archive_evicted mark_evicted
archive_evicted-AreStored c ids rescued ts db eids e =
    elim (Option-cases (archive_turns c ids 0 ts db).1) [
      | inl fails ↦
          absurd (let k : none ≡ some eids = rw (fails, archive_evicted) at e in ground arith)
      | inr (is, good) ↦
          let k : some is ≡ some eids = rw (good, archive_evicted) at e in
          let e' : is ≡ eids = ground arith in
          let h = archive_turns-AreStored c ids 0 ts db is good in
          rw (good, archive_evicted)
            (subst
              (λ js.
                AreStored c (mark_all rescued is (archive_turns c ids 0 ts db).0) ts js
                × AreMarked rescued (mark_all rescued is (archive_turns c ids 0 ts db).0) js)
              e'
              (
                AreStored-mark_all c (archive_turns c ids 0 ts db).0 is rescued ts is h,
                AreMarked-mark_all is rescued (archive_turns c ids 0 ts db).0,
              ))
    ]

module _ (c : Codec) (ids : ℕ → String) where
  archive_turns-IsHonest :
      (n : ℕ) (ts : List Turn) (db : Db)
      → All (IsHonest c) db.episodes
      → All (IsHonest c) (archive_turns c ids n ts db).0.episodes
  unfolding archive_turns
  archive_turns-IsHonest n [] db h = h
  archive_turns-IsHonest n (t ∷ ts) db h =
      let a = archive_raw c (λ d. d) (ids n) t db in
      let h' = archive_raw-IsHonest c (ids n) t db h in
      let rest = archive_turns-IsHonest (suc n) ts a.0 h' in
      elim (Option-cases a.1) [
        | inl fails ↦ rw (fails, archive_turns) h'
        | inr (eid, stored) ↦ elim (Option-cases (archive_turns c ids (suc n) ts a.0).1) [
          | inl bad ↦ rw (stored, archive_turns) (rw (bad, archive_turns) rest)
          | inr (eids, good) ↦ rw (stored, archive_turns) (rw (good, archive_turns) rest)
        ]
      ]

  mark-IsHonest :
      (eids : List String) (rescued : Bool) (es : List Episode)
      → All (IsHonest c) es
      → All (IsHonest c) (map (evict_row eids rescued) es)
  mark-IsHonest eids rescued [] h = tt
  mark-IsHonest eids rescued (e ∷ es) h = elim (Bool-cases (contains e.id eids)) [
    | inl there ↦ rw there (h.0, mark-IsHonest eids rescued es h.1)
    | inr away ↦ rw away (h.0, mark-IsHonest eids rescued es h.1)
  ]

  -- The loop and the UPDATE keep honest rows honest.
  pub archive_evicted-IsHonest :
      (rescued : Bool) (ts : List Turn) (db : Db)
      → All (IsHonest c) db.episodes
      → All (IsHonest c) (archive_evicted c ids rescued ts db).0.episodes
  unfolding archive_evicted mark_evicted
  archive_evicted-IsHonest rescued ts db h =
      let a = archive_turns c ids 0 ts db in
      let h' = archive_turns-IsHonest 0 ts db h in
      elim (Option-cases a.1) [
        | inl fails ↦ rw (fails, archive_evicted) h'
        | inr ([], good) ↦ rw (good, archive_evicted) h'
        | inr (i ∷ is, good) ↦
            rw (good, archive_evicted) (mark-IsHonest (i ∷ is) rescued a.0.episodes h')
      ]
