-- ===== src/Proxy/Forward/Request.antt =====
-- The request before and after `_evict_inbound_to_ceiling` of proxy/app.py.
use spillover.Prelude.{
  ℕ, ◌+◌, ◌-◌, String, ◌≡◌, refl, ◌∙◌, sym, ap, subst, or_else, All, List, [], ◌∷◌, ◌++◌, arith,
  length, take, drop, take-append-drop, ℤ,
}
use spillover.Json.{nil, Message, content_of, Payload}
use spillover.Runtime.{Codec, Floats, Environ}
use spillover.Storage.{Episode, Db}
use spillover.Archive.{hash_turn}
use spillover.Archive.Honest.{digest, IsHonest, HasRow, id_of_hash-HasRow}
use spillover.Proxy.Forward.Middle.{MayLeave, is_candidate-MayLeave}
use spillover.Proxy.RuntimeEnv.{load_runtime}
use spillover.Proxy.Budget.{total_tokens, target_to_evict}
use spillover.Proxy.Forward.{Trimmed, untouched, trim_by, evict_inbound_to_ceiling}
use spillover.Proxy.Forward.Thinned.{Thinned, Thinned-refl, Thinned-imp, Thinned-take, Thinned-drop}
use spillover.Proxy.Forward.Walk.{IsArchived}
use spillover.Proxy.Forward.Contract.{
  trim_by_thins, trim_by-IsHonest, trim_by_frame, trim_by_accounts,
}

-- All fields but the messages are the same; the messages are those from before, in their order,
-- less some that may leave; the first two and the last four are there.
abbrev pub IsProtected : Payload → Payload → Type 0
IsProtected before after =
    (after ≡ record before { messages = after.messages })
    × Thinned (MayLeave (length before.messages)) (λ j m. Unit) 0 before.messages after.messages
    × (take 2 after.messages ≡ take 2 before.messages)
    × ((pre : List Message) × (after.messages
          ≡ pre ++ drop (length before.messages - 4) before.messages))

-- A message that may leave, with a row under the digest of its role and content that stores what has
-- this digest.
abbrev pub IsStored : Codec → ℕ → List Episode → ℕ → Message → Type 0
IsStored c n es i m =
    MayLeave n i m × HasRow c (digest c (or_else m.role "user") (content_of m) nil) es

module _ (f : Floats) (c : Codec) (ids : ℕ → String) (p : String) (ts : ℕ) (runtime : List String)
    (operational_ceiling reserve : ℤ) (payload : Payload) (db : Db) (env : Environ) where
  abbrev result : Trimmed
  result = evict_inbound_to_ceiling f c ids p ts runtime operational_ceiling reserve payload db env

  -- The tokens that are to leave, with the settings that `runtime.env` has just given.
  abbrev pub live_target : ℤ
  live_target =
      target_to_evict f (load_runtime runtime env) operational_ceiling reserve
        (total_tokens c payload)

  -- Every statement about the result holds if it holds of an untouched request without messages
  -- and of a request that is trimmed by the target.
  result_cases :
      (P : Trimmed → Type 0)
      → (payload.messages ≡ [] → P (untouched payload db env))
      → P (trim_by f c ids p ts live_target payload db (load_runtime runtime env))
      → P result
  unfolding evict_inbound_to_ceiling
  result_cases P h k = go payload.messages refl
    where
      dispatch : List Message → Trimmed
      dispatch ms = elim ms [
        | [] ↦ untouched payload db env
        | m ∷ ms ↦ trim_by f c ids p ts live_target payload db (load_runtime runtime env)
      ]

      go : (ms : List Message) → payload.messages ≡ ms → P result
      go [] e = subst P (sym (ap dispatch e)) (h e)
      go (m ∷ ms) e = subst P (sym (ap dispatch e)) k

  env' : Environ
  env' = load_runtime runtime env

  thinned :
      let t = trim_by f c ids p ts live_target payload db env' in
      Thinned
        (IsArchived c p ts (length payload.messages) t.db)
        (λ j m. Unit)
        0
        payload.messages
        t.payload.messages
  thinned = trim_by_thins f c ids p ts live_target payload db env'

  -- The request keeps everything but messages of its middle: all its other fields, its first two
  -- messages and its last four. What leaves is a text, or a list of blocks of which none has the type
  -- "tool_use" or "tool_result"; all other messages stay, in their order.
  pub evict_inbound_protects : IsProtected payload result.payload
  unfolding env'
  evict_inbound_protects =
      let n = length payload.messages in
      let last = Thinned-drop _ _ (n - 4) (λ i m g. ground (arith, g.0)) thinned in
      result_cases (λ t. IsProtected payload t.payload)
        (λ e. (
          refl,
          Thinned-refl _ _ 0 payload.messages (λ j m. tt),
          refl,
          (take (n - 4) payload.messages, sym (take-append-drop (n - 4) payload.messages)),
        ))
        (
          trim_by_frame f c ids p ts live_target payload db env',
          Thinned-imp _ _ _ _ (λ i m g. is_candidate-MayLeave n i m g.0) (λ i m g. tt) thinned,
          Thinned-take _ _ 2 (λ i m g. ground (arith, g.0)) 2 (omega arith) thinned,
          (last.0, last.1 ∙ ap (λ k. last.0 ++ drop k payload.messages) (omega arith)),
        )

  -- Tokens and turns are accounted for: those of the request that goes out and those reported as
  -- freed and removed make up those of the request that came in.
  pub evict_inbound_accounts :
      (total_tokens c result.payload + result.tokens_freed ≡ total_tokens c payload)
      × (length result.payload.messages + result.turns_removed ≡ length payload.messages)
  unfolding env'
  evict_inbound_accounts =
      result_cases
        (λ t.
          (total_tokens c t.payload + t.tokens_freed ≡ total_tokens c payload)
          × (length t.payload.messages + t.turns_removed ≡ length payload.messages))
        (λ e. omega arith) (trim_by_accounts f c ids p ts live_target payload db env')

  -- The role and the content of what leaves are stored: if in each row of the archive the hash is
  -- the digest of what the row stores, then so it is afterwards, and each message that is missing in
  -- the request has a row whose hash is the digest of the message's role and content. The other keys
  -- of the message are not stored.
  pub evict_inbound_archives :
      All (IsHonest c) db.episodes
      → All (IsHonest c) result.db.episodes
        × Thinned
            (IsStored c (length payload.messages) result.db.episodes)
            (λ j m. Unit)
            0
            payload.messages
            result.payload.messages
  unfolding env' hash_turn
  evict_inbound_archives honest =
      let n = length payload.messages in
      result_cases
        (λ t.
          All (IsHonest c) t.db.episodes
          × Thinned (IsStored c n t.db.episodes) (λ j m. Unit) 0 payload.messages
              t.payload.messages)
        (λ e. (honest, Thinned-refl _ _ 0 payload.messages (λ j m. tt)))
        (let honest' = trim_by-IsHonest f c ids p ts live_target payload db env' honest in
          (
            honest',
            Thinned-imp _ _ _ _
                (λ i m g.
                  stored i m (trim_by f c ids p ts live_target payload db env').db honest' g)
                (λ i m g. tt) thinned,
          ))
    where
      stored :
          (i : ℕ) (m : Message) (d : Db)
          → All (IsHonest c) d.episodes
          → IsArchived c p ts (length payload.messages) d i m
          → IsStored c (length payload.messages) d.episodes i m
      stored i m d a (may, e, k) = (
        is_candidate-MayLeave (length payload.messages) i m may,
        id_of_hash-HasRow c _ e d.episodes a k,
      )
