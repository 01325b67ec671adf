-- ===== src/Proxy/Forward/Contract.antt =====
-- What `_evict_inbound_to_ceiling` of proxy/app.py promises of the request that it forwards.
use spillover.Prelude.{
  ℕ, suc, ◌+◌, ◌≤◌, String, ◌≡◌, refl, true, false, List, [], ◌∷◌, ◌++◌, All, subst, ◌⊎◌, inl, inr,
  arith, leb→le, leb, length, Bool-cases, ℤ, pos, ◌-ℤ◌, leb_ℤ, max_ℤ,
}
use spillover.Json.{Message, Payload}
use spillover.Runtime.{Codec, Floats, Environ}
use spillover.Tokenizer.{message_tokens}
use spillover.Storage.{Db, has_id}
use spillover.Proxy.Budget.{total_tokens, effective_ceiling}
use spillover.Proxy.Forward.{has_candidate, Walked, walk, Trimmed, untouched, finish, trim_by}
use spillover.Archive.Honest.{IsHonest}
use spillover.Proxy.Forward.Middle.{MayLeave, MayLeave-is_candidate}
use spillover.Proxy.Forward.Thinned.{Thinned, done, stay, Thinned-refl}
use spillover.Proxy.Forward.Walk.{
  IsArchived, Ending, under, exhausted, blocked, walk_accounts, walk_thins, walk-IsHonest,
  walk_ends, walk_idle,
}

-- The call's result in terms of the walk, also where the walk archived nothing.
abbrev left_by : Payload → Environ → Walked → Trimmed
left_by payload env w = record {
  payload = record payload { messages = w.kept };
  db = w.db;
  environ = env;
  turns_removed = length w.archived_ids;
  tokens_freed = w.tokens_freed;
}

finish-idle :
    (payload : Payload) (env : Environ) (w : Walked)
    → (w.archived_ids ≡ [] → (w.kept ≡ payload.messages) × (w.tokens_freed ≡ 0))
    → finish payload env w ≡ left_by payload env w
finish-idle payload env w h = go w.archived_ids refl
  where
    go : (l : List String) → w.archived_ids ≡ l → finish payload env w ≡ left_by payload env w
    go [] e = ground (arith, h e)
    go (x ∷ l) e = ground arith

short-has_candidate : (n i : ℕ) (ms : List Message) → n ≤ 6 → has_candidate n i ms ≡ false
short-has_candidate n i [] h = refl
short-has_candidate n i (m ∷ ms) h = ground (arith, short-has_candidate n (suc i) ms h)

-- Where no message is a candidate, none with tokens is left.
no_candidate-exhausted :
    (c : Codec) (n i : ℕ) (ms : List Message)
    → has_candidate n i ms ≡ false
    → Thinned (λ j m. Unit) (λ j m. MayLeave n j m → message_tokens c m ≡ 0) i ms ms
no_candidate-exhausted c n i [] h = done
no_candidate-exhausted c n i (m ∷ ms) h =
    stay (λ k. absurd (let e = MayLeave-is_candidate n i m k in ground arith))
      (no_candidate-exhausted c n (suc i) ms (ground arith))

-- How the size of the trimmed request stands to the ceiling that it aims at.
pub data Fits (c : Codec) (ids : ℕ → String) (p : String) (ts ceiling : ℕ) (payload : Payload)
    (t : Trimmed) : Type 0 where
  small : total_tokens c t.payload ≤ ceiling → Fits c ids p ts ceiling payload t
  drained :
      Thinned
        (λ j m. Unit)
        (λ j m. MayLeave (length payload.messages) j m → message_tokens c m ≡ 0)
        0
        payload.messages
        t.payload.messages
      → Fits c ids p ts ceiling payload t
  refused :
      (m : Message) (pre post : List Message)
      → payload.messages ≡ pre ++ m ∷ post
      → MayLeave (length payload.messages) (length pre) m
      → has_id (ids (length pre)) t.db.episodes ≡ true
      → Fits c ids p ts ceiling payload t

of_Ending :
    (c : Codec) (ids : ℕ → String) (p : String) (ts ceiling : ℕ) (payload : Payload) (env : Environ)
    (w : Walked)
    → total_tokens c (record payload { messages = w.kept }) + w.tokens_freed
      ≡ total_tokens c payload
    → Ending c ids p ts ceiling
        (length payload.messages)
        (total_tokens c payload)
        w
        0
        payload.messages
    → Fits c ids p ts ceiling payload (left_by payload env w)
of_Ending c ids p ts ceiling payload env w acc (under l) = small (omega arith)
of_Ending c ids p ts ceiling payload env w acc (exhausted t) = drained t
of_Ending c ids p ts ceiling payload env w acc (blocked j m pre post e at may taken) =
    let at' : j ≡ length pre = omega arith in
    refused m pre post e (subst (λ k. MayLeave (length payload.messages) k m) at' may)
      (subst (λ k. has_id (ids k) w.db.episodes ≡ true) at' taken)

idle_ceiling :
    (total : ℕ) (target : ℤ) → leb_ℤ target (pos 0) ≡ true → total ≤ effective_ceiling total target
unfolding effective_ceiling max_ℤ ◌-ℤ◌
idle_ceiling total target h = ground arith

module _ (f : Floats) (c : Codec) (ids : ℕ → String) (p : String) (ts : ℕ) where
  abbrev the_walk : ℤ → Payload → Db → Walked
  the_walk target payload db =
      walk c ids p ts (effective_ceiling (total_tokens c payload) target) (length payload.messages)
        0 (total_tokens c payload) db payload.messages

  pub trim_by_cases :
      (target : ℤ) (payload : Payload) (db : Db) (env : Environ)
      → ((trim_by f c ids p ts target payload db env ≡ untouched payload db env)
          × ((leb_ℤ target (pos 0) ≡ true)
              ⊎ (has_candidate (length payload.messages) 0 payload.messages ≡ false)))
        ⊎ (trim_by f c ids p ts target payload db env
            ≡ left_by payload env (the_walk target payload db))
  unfolding trim_by
  trim_by_cases target payload db env =
      let n = length payload.messages in
      elim (Bool-cases (leb_ℤ target (pos 0))) [
        | inl idle ↦ inl (rw idle, inl idle)
        | inr work ↦ elim (Bool-cases (leb n 6)) [
          | inl short ↦
              inl (
                rw (work, short),
                inr (short-has_candidate n 0 payload.messages (leb→le n 6 short)),
              )
          | inr long ↦ elim (Bool-cases (has_candidate n 0 payload.messages)) [
            | inr bare ↦ inl (rw (work, long, bare), inr bare)
            | inl present ↦ inr (
                rw (work, long, present)
                  (finish-idle payload env (the_walk target payload db) (
                    walk_idle c ids p ts (effective_ceiling (total_tokens c payload) target) n 0
                      (total_tokens c payload) db payload.messages)))
          ]
        ]
      ]

  pub trim_by_thins :
      (target : ℤ) (payload : Payload) (db : Db) (env : Environ)
      → let t = trim_by f c ids p ts target payload db env in
        Thinned
          (IsArchived c p ts (length payload.messages) t.db)
          (λ j m. Unit)
          0
          payload.messages
          t.payload.messages
  trim_by_thins target payload db env = elim (trim_by_cases target payload db env) [
    | inl (e, why) ↦ rw e (Thinned-refl _ _ 0 payload.messages (λ j m. tt))
    | inr e ↦ rw e (
        walk_thins c ids p ts (effective_ceiling (total_tokens c payload) target)
          (length payload.messages) 0 (total_tokens c payload) db payload.messages)
  ]

  pub trim_by-IsHonest :
      (target : ℤ) (payload : Payload) (db : Db) (env : Environ)
      → All (IsHonest c) db.episodes
      → All (IsHonest c) (trim_by f c ids p ts target payload db env).db.episodes
  trim_by-IsHonest target payload db env a = elim (trim_by_cases target payload db env) [
    | inl (e, why) ↦ rw e a
    | inr e ↦ rw e (
        walk-IsHonest c ids p ts (effective_ceiling (total_tokens c payload) target)
          (length payload.messages) 0 (total_tokens c payload) db payload.messages a)
  ]

  pub trim_by_frame :
      (target : ℤ) (payload : Payload) (db : Db) (env : Environ)
      → let t = trim_by f c ids p ts target payload db env in
        t.payload ≡ record payload { messages = t.payload.messages }
  trim_by_frame target payload db env = elim (trim_by_cases target payload db env) [
    | inl (e, why) ↦ rw e
    | inr e ↦ rw e
  ]

  pub trim_by_accounts :
      (target : ℤ) (payload : Payload) (db : Db) (env : Environ)
      → let t = trim_by f c ids p ts target payload db env in
        (total_tokens c t.payload + t.tokens_freed ≡ total_tokens c payload)
        × (length t.payload.messages + t.turns_removed ≡ length payload.messages)
  trim_by_accounts target payload db env = elim (trim_by_cases target payload db env) [
    | inl (e, why) ↦ rw e (omega arith)
    | inr e ↦ rw e (
        omega (
          arith,
          walk_accounts c ids p ts (effective_ceiling (total_tokens c payload) target)
              (length payload.messages) 0 (total_tokens c payload) db payload.messages,
        ))
  ]

  pub trim_by-Fits :
      (target : ℤ) (payload : Payload) (db : Db) (env : Environ)
      → let t = trim_by f c ids p ts target payload db env in
        Fits c ids p ts (effective_ceiling (total_tokens c payload) target) payload t
  trim_by-Fits target payload db env = elim (trim_by_cases target payload db env) [
    | inl (e, inl idle) ↦ rw e (small (idle_ceiling (total_tokens c payload) target idle))
    | inl (e, inr bare) ↦
        rw e (drained (no_candidate-exhausted c (length payload.messages) 0 payload.messages bare))
    | inr e ↦
        let acc = trim_by_accounts target payload db env in
        rw e (
          of_Ending c ids p ts (effective_ceiling (total_tokens c payload) target) payload env
            (the_walk target payload db) (rw e at acc.0)
            (walk_ends c ids p ts (effective_ceiling (total_tokens c payload) target)
              (length payload.messages) 0 (total_tokens c payload) db payload.messages))
  ]
