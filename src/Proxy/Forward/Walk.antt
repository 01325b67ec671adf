-- ===== src/Proxy/Forward/Walk.antt =====
-- The loop of `_evict_inbound_to_ceiling`: what it drops, what it frees and where it ends.
use spillover.Prelude.{
  ℕ, suc, ◌+◌, ◌-◌, ◌≤◌, ◌<◌, String, ◌≡◌, refl, ap, ◌∙◌, true, none, some, List, [], ◌∷◌, ◌++◌,
  All, inl, inr, arith, leb, ◌==◌, length, Bool-cases, Option-cases,
}
use spillover.Json.{Message}
use spillover.Runtime.{Codec}
use spillover.Tokenizer.{message_tokens}
use spillover.Storage.{Db, id_of_hash, has_id}
use spillover.Archive.{hash_turn, archive_raw}
use spillover.Archive.Honest.{IsHonest, archive_raw-none, archive_raw-IsHonest}
use spillover.Proxy.Forward.Middle.{MayLeave, is_candidate-MayLeave, MayLeave-is_candidate}
use spillover.Archive.Laws.{archive_raw-finds, archive_raw_keeps}
use spillover.Proxy.Budget.{messages_tokens}
use spillover.Proxy.Forward.{is_candidate, turn_of, Walked, stop, keep_message, drop_message, walk}
use spillover.Proxy.Forward.Thinned.{Thinned, done, stay, leave, Thinned-refl}

-- A candidate whose hash the archive holds.
abbrev pub IsArchived : Codec → String → ℕ → ℕ → Db → ℕ → Message → Type 0
IsArchived c p ts n final i m =
    (is_candidate n i m ≡ true)
    × (e : String) × (id_of_hash (hash_turn c (turn_of c p ts m)) final.episodes ≡ some e)

module _ (c : Codec) (ids : ℕ → String) (p : String) (ts ceiling n : ℕ) where
  -- The four ways in which a round of the loop goes on, as cases with their equations.
  pub data Round (i running : ℕ) (db : Db) (m : Message) (ms : List Message) : Type 0 where
    skips :
        walk c ids p ts ceiling n i running db (m ∷ ms)
          ≡ keep_message m (walk c ids p ts ceiling n (suc i) running db ms)
        → (is_candidate n i m ≡ true → message_tokens c m ≡ 0)
        → Round i running db m ms
    reached :
        walk c ids p ts ceiling n i running db (m ∷ ms) ≡ stop db (m ∷ ms)
        → running ≤ ceiling
        → Round i running db m ms
    refused :
        walk c ids p ts ceiling n i running db (m ∷ ms)
          ≡ stop (archive_raw c (λ d. d) (ids i) (turn_of c p ts m) db).0 (m ∷ ms)
        → (archive_raw c (λ d. d) (ids i) (turn_of c p ts m) db).1 ≡ none
        → is_candidate n i m ≡ true
        → Round i running db m ms
    moves :
        (eid : String)
        → walk c ids p ts ceiling n i running db (m ∷ ms)
          ≡ drop_message eid (message_tokens c m) (
              walk c ids p ts ceiling n
                (suc i)
                (running - message_tokens c m)
                (archive_raw c (λ d. d) (ids i) (turn_of c p ts m) db).0
                ms)
        → (archive_raw c (λ d. d) (ids i) (turn_of c p ts m) db).1 ≡ some eid
        → is_candidate n i m ≡ true
        → ceiling < running
        → Round i running db m ms

  pub round : (i running : ℕ) (db : Db) (m : Message) (ms : List Message) → Round i running db m ms
  unfolding walk
  round i running db m ms = elim (Bool-cases (is_candidate n i m)) [
    | inr other ↦ skips (rw (other, walk)) (λ h. ground arith)
    | inl candidate ↦ elim (Bool-cases (leb running ceiling)) [
      | inl low ↦ reached (rw (candidate, low, walk)) (ground arith)
      | inr high ↦ elim (Bool-cases (message_tokens c m == 0)) [
        | inl light ↦ skips (rw (candidate, high, light, walk)) (λ h. ground arith)
        | inr heavy ↦ elim (Option-cases (archive_raw c (λ d. d) (ids i) (turn_of c p ts m) db).1) [
          | inl fails ↦ refused (rw (candidate, high, heavy, fails, walk)) fails candidate
          | inr (eid, stored) ↦
              moves eid (rw (candidate, high, heavy, stored, walk)) stored candidate (ground arith)
        ]
      ]
    ]
  ]

  -- The messages kept and the tokens freed make up the tokens of all of them.
  pub walk_accounts :
      (i running : ℕ) (db : Db) (ms : List Message)
      → let w = walk c ids p ts ceiling n i running db ms in
        (messages_tokens c w.kept + w.tokens_freed ≡ messages_tokens c ms)
        × (length w.kept + length w.archived_ids ≡ length ms)
  walk_accounts i running db [] = unfold walk in (refl, refl)
  walk_accounts i running db (m ∷ ms) = elim (round i running db m ms) [
    | skips e h ↦ rw e (omega (arith, walk_accounts (suc i) running db ms))
    | reached e h ↦ rw e (omega arith)
    | refused e h q ↦ rw e (omega arith)
    | moves eid e s q h ↦ rw e (
        omega (
          arith,
          walk_accounts (suc i) (running - message_tokens c m)
              (archive_raw c (λ d. d) (ids i) (turn_of c p ts m) db).0 ms,
        ))
  ]

  -- The walk loses no row of the archive.
  pub walk_keeps :
      (i running : ℕ) (db : Db) (ms : List Message) (h e : String)
      → id_of_hash h db.episodes ≡ some e
      → id_of_hash h (walk c ids p ts ceiling n i running db ms).db.episodes ≡ some e
  walk_keeps i running db [] h e k = unfold walk in k
  walk_keeps i running db (m ∷ ms) h e k =
      let k' = archive_raw_keeps c (ids i) (turn_of c p ts m) db h e k in
      elim (round i running db m ms) [
        | skips eq l ↦ rw eq (walk_keeps (suc i) running db ms h e k)
        | reached eq l ↦ rw eq k
        | refused eq l q ↦ rw eq k'
        | moves eid eq s q l ↦ rw eq (
            walk_keeps (suc i) (running - message_tokens c m)
              (archive_raw c (λ d. d) (ids i) (turn_of c p ts m) db).0 ms h e k')
      ]

  -- Honest rows stay honest.
  pub walk-IsHonest :
      (i running : ℕ) (db : Db) (ms : List Message)
      → All (IsHonest c) db.episodes
      → All (IsHonest c) (walk c ids p ts ceiling n i running db ms).db.episodes
  walk-IsHonest i running db [] a = unfold walk in a
  walk-IsHonest i running db (m ∷ ms) a =
      let a' = archive_raw-IsHonest c (ids i) (turn_of c p ts m) db a in
      elim (round i running db m ms) [
        | skips eq l ↦ rw eq (walk-IsHonest (suc i) running db ms a)
        | reached eq l ↦ rw eq a
        | refused eq l q ↦ rw eq a'
        | moves eid eq s q l ↦ rw eq (
            walk-IsHonest (suc i) (running - message_tokens c m)
              (archive_raw c (λ d. d) (ids i) (turn_of c p ts m) db).0 ms a')
      ]

  pub walk_thins :
      (i running : ℕ) (db : Db) (ms : List Message)
      → let w = walk c ids p ts ceiling n i running db ms in
        Thinned (IsArchived c p ts n w.db) (λ j m. Unit) i ms w.kept
  walk_thins i running db [] = unfold walk in done
  walk_thins i running db (m ∷ ms) = elim (round i running db m ms) [
    | skips e h ↦ rw e (stay tt (walk_thins (suc i) running db ms))
    | reached e h ↦ rw e (Thinned-refl _ _ i (m ∷ ms) (λ j k. tt))
    | refused e h q ↦ rw e (Thinned-refl _ _ i (m ∷ ms) (λ j k. tt))
    | moves eid e s q h ↦
        let running' = running - message_tokens c m in
        let db' = (archive_raw c (λ d. d) (ids i) (turn_of c p ts m) db).0 in
        let held = archive_raw-finds c (λ d. d) (ids i) (turn_of c p ts m) db eid s in
        rw e (
          leave
            (q, eid, walk_keeps (suc i) running' db' ms (hash_turn c (turn_of c p ts m)) eid held)
            (walk_thins (suc i) running' db' ms))
  ]

  -- How a walk ends: under the ceiling, or with no candidate left that has tokens, or because the
  -- archive refused a turn.
  pub data Ending (running : ℕ) (w : Walked) (i : ℕ) (ms : List Message) : Type 0 where
    under : running ≤ ceiling + w.tokens_freed → Ending running w i ms
    exhausted :
        Thinned (λ j m. Unit) (λ j m. MayLeave n j m → message_tokens c m ≡ 0) i ms w.kept
        → Ending running w i ms
    blocked :
        (j : ℕ) (m : Message) (pre post : List Message)
        → ms ≡ pre ++ m ∷ post
        → j ≡ i + length pre
        → MayLeave n j m
        → has_id (ids j) w.db.episodes ≡ true
        → Ending running w i ms

  keep-Ending :
      (running : ℕ) (w : Walked) (i : ℕ) (m : Message) (ms : List Message)
      → (MayLeave n i m → message_tokens c m ≡ 0)
      → Ending running w (suc i) ms
      → Ending running (keep_message m w) i (m ∷ ms)
  keep-Ending running w i m ms h (under l) = under l
  keep-Ending running w i m ms h (exhausted t) = exhausted (stay h t)
  keep-Ending running w i m ms h (blocked j k pre post e at may taken) =
      blocked j k (m ∷ pre) post (ap (◌∷◌ m) e) (omega arith) may taken

  drop-Ending :
      (running : ℕ) (w : Walked) (i : ℕ) (m : Message) (ms : List Message) (eid : String)
      → Ending (running - message_tokens c m) w (suc i) ms
      → Ending running (drop_message eid (message_tokens c m) w) i (m ∷ ms)
  drop-Ending running w i m ms eid (under l) = under (omega arith)
  drop-Ending running w i m ms eid (exhausted t) = exhausted (leave tt t)
  drop-Ending running w i m ms eid (blocked j k pre post e at may taken) =
      blocked j k (m ∷ pre) post (ap (◌∷◌ m) e) (omega arith) may taken

  pub walk_ends :
      (i running : ℕ) (db : Db) (ms : List Message)
      → Ending running (walk c ids p ts ceiling n i running db ms) i ms
  walk_ends i running db [] = unfold walk in exhausted done
  walk_ends i running db (m ∷ ms) = elim (round i running db m ms) [
    | skips e h ↦ rw e (
        keep-Ending running _ i m ms (λ may. h (MayLeave-is_candidate n i m may))
          (walk_ends (suc i) running db ms))
    | reached e h ↦ rw e (under (omega arith))
    | refused e h q ↦
        let (same, taken) = archive_raw-none c (ids i) (turn_of c p ts m) db h in
        rw e (
          blocked i m [] ms refl (omega arith) (is_candidate-MayLeave n i m q)
            (ap (λ d. has_id (ids i) d.episodes) same ∙ taken))
    | moves eid e s q h ↦ rw e (
        drop-Ending running _ i m ms eid (
          walk_ends (suc i) (running - message_tokens c m)
            (archive_raw c (λ d. d) (ids i) (turn_of c p ts m) db).0 ms))
  ]

  -- A walk that archives nothing changes nothing in the request.
  pub walk_idle :
      (i running : ℕ) (db : Db) (ms : List Message)
      → (walk c ids p ts ceiling n i running db ms).archived_ids ≡ []
      → ((walk c ids p ts ceiling n i running db ms).kept ≡ ms)
        × ((walk c ids p ts ceiling n i running db ms).tokens_freed ≡ 0)
  walk_idle i running db [] = unfold walk in λ h. (refl, refl)
  walk_idle i running db (m ∷ ms) = elim (round i running db m ms) [
    | skips e k ↦
        rw e (λ h. let (same, free) = walk_idle (suc i) running db ms h in (ap (◌∷◌ m) same, free))
    | reached e k ↦ rw e (λ h. (refl, refl))
    | refused e k q ↦ rw e (λ h. (refl, refl))
    | moves eid e s q k ↦ rw e (λ h. absurd (cc))
  ]
