-- ===== src/Proxy/Respond/Effect.antt =====
-- What `_maybe_evict` of src/spillover/proxy/app.py leaves behind.
use spillover.Prelude.{
  ℕ, String, ◌≡◌, refl, ◌∙◌, sym, ap, subst, Bool, true, false, Option, none, some, List, [], ◌∷◌,
  ◌++◌, All, ◌⊎◌, map, inl, inr, arith, Option-cases, List-cases, Bool-cases, sum_by, ◌==◌, ℤ, pos,
  ◌+ℤ◌,
}
use spillover.Json.{Payload}
use spillover.Runtime.{Codec, Floats}
use spillover.Storage.{Db, id_of_hash}
use spillover.Eviction.{select_for_eviction}
use spillover.Archive.{hash_turn}
use spillover.Archive.Honest.{digest}
use spillover.Archive.Several.{archive_evicted, AreStored, AreMarked, archive_evicted-AreStored}
use spillover.Adapters.{ConversationTurn, Conversation}
use spillover.Proxy.Respond.{
  tokens_entering, active_turns, is_at, turn_by_source, found_turns, evicted_turn, Outcome,
  evict_found, evicted_indexes, evict_turns, maybe_evict,
}

-- No turn has the index.
abbrev pub LacksIndex : ℕ → List ConversationTurn → Type 0
LacksIndex i = All (λ t. ¬ (t.source_index ≡ some i))

-- The turns at some indexes: of several with one index the last, and none for an index that no turn
-- has.
pub data AreNamed (turns : List ConversationTurn) : List ℕ → List ConversationTurn → Type 0 where
  none_left : AreNamed turns [] []
  named :
      {i : ℕ} {is : List ℕ} {t : ConversationTurn} {ts : List ConversationTurn}
      (pre post : List ConversationTurn)
      → turns ≡ pre ++ t ∷ post
      → t.source_index ≡ some i
      → LacksIndex i post
      → AreNamed turns is ts
      → AreNamed turns (i ∷ is) (t ∷ ts)
  absent :
      {i : ℕ} {is : List ℕ} {ts : List ConversationTurn}
      → LacksIndex i turns
      → AreNamed turns is ts
      → AreNamed turns (i ∷ is) ts

-- Each turn has a row, under the digest of its role, content and calls and with the id reported.
abbrev pub AreHeld : Codec → Db → List ConversationTurn → List String → Type 0
AreHeld c db [] [] = Unit
AreHeld c db (t ∷ ts) (i ∷ is) =
    (id_of_hash (digest c t.role t.content t.tool_calls) db.episodes ≡ some i) × AreHeld c db ts is
AreHeld c db _ _ = ⊥

-- The turns at the indexes `is` are archived under `eids` and marked, and `n` is the sum of their
-- tokens.
abbrev pub IsEvicted : Codec → List ConversationTurn → List ℕ → List String → ℕ → Db → Type 0
IsEvicted c turns is eids n db =
    (found : List ConversationTurn) × AreNamed turns is found
    × AreHeld c db found eids
    × AreMarked false db eids
    × (n ≡ sum_by (λ t. t.token_count) found)

-- What the selector names for the turns, which has to free the tokens that come in.
abbrev pub selected : Codec → List ConversationTurn → Option String → List ℕ
selected c turns assistant_text =
    (select_for_eviction (active_turns 0 turns) (tokens_entering c turns assistant_text)
      4).evicted_indexes

-- There is no turn, or no token comes in, or the selector names nothing.
abbrev pub IsIdle : Codec → List ConversationTurn → Option String → Type 0
IsIdle c turns assistant_text =
    (turns ≡ [])
    ⊎ (tokens_entering c turns assistant_text ≡ 0)
    ⊎ (selected c turns assistant_text ≡ [])

-- With the turns known: nothing is to be done and nothing is, or the turns that the selector names
-- are evicted.
abbrev pub IsOutcome :
    Codec → List ConversationTurn → Option String → Db → List String → ℕ → Db → Type 0
IsOutcome c turns assistant_text before eids n after =
    (IsIdle c turns assistant_text × (eids ≡ []) × (n ≡ 0) × (after ≡ before))
    ⊎ IsEvicted c turns (selected c turns assistant_text) eids n after

is_at-some : (i : ℕ) (t : ConversationTurn) → is_at i t ≡ true → t.source_index ≡ some i
is_at-some i t h = elim (Option-cases t.source_index) [
  | inl bare ↦ absurd (ground arith)
  | inr (j, given) ↦ let e : (j == i) ≡ true = rw given at h in given ∙ ap some (ground arith)
]

is_at-other : (i : ℕ) (t : ConversationTurn) → is_at i t ≡ false → ¬ (t.source_index ≡ some i)
is_at-other i t h e = absurd (let k : (i == i) ≡ false = rw e at h in ground arith)

turn_by_source_cases :
    (i : ℕ) (turns : List ConversationTurn)
    → ((turn_by_source i turns ≡ none) × LacksIndex i turns)
      ⊎ ((t : ConversationTurn) × (turn_by_source i turns ≡ some t)
          × (pre : List ConversationTurn) × (post : List ConversationTurn) × (turns
              ≡ pre ++ t ∷ post)
          × (t.source_index ≡ some i)
          × LacksIndex i post)
unfolding turn_by_source
turn_by_source_cases i [] = inl (refl, tt)
turn_by_source_cases i (t ∷ ts) = elim (turn_by_source_cases i ts) [
  | inr (u, found, pre, post, e, at, last) ↦
      inr (u, rw (found, turn_by_source) refl, t ∷ pre, post, ap (◌∷◌ t) e, at, last)
  | inl (missing, lacks) ↦ elim (Bool-cases (is_at i t)) [
    | inl here ↦
        inr (t, rw (missing, here, turn_by_source) refl, [], ts, refl, is_at-some i t here, lacks)
    | inr other ↦ inl (rw (missing, other, turn_by_source) refl, (is_at-other i t other, lacks))
  ]
]

found_turns-AreNamed :
    (turns : List ConversationTurn) (is : List ℕ) → AreNamed turns is (found_turns turns is)
unfolding found_turns
found_turns-AreNamed turns [] = none_left
found_turns-AreNamed turns (i ∷ is) = elim (turn_by_source_cases i turns) [
  | inl (missing, lacks) ↦ rw (missing, found_turns) (absent lacks (found_turns-AreNamed turns is))
  | inr (t, found, pre, post, e, at, last) ↦
      rw (found, found_turns) (named pre post e at last (found_turns-AreNamed turns is))
]

AreStored-AreHeld :
    (c : Codec) (p : String) (ts : ℕ) (db : Db) (found : List ConversationTurn) (eids : List String)
    → AreStored c db (map (evicted_turn p ts) found) eids
    → AreHeld c db found eids
unfolding hash_turn
AreStored-AreHeld c p ts db [] [] h = tt
AreStored-AreHeld c p ts db [] (i ∷ is) h = absurd h
AreStored-AreHeld c p ts db (t ∷ found) [] h = absurd h
AreStored-AreHeld c p ts db (t ∷ found) (i ∷ is) h = (h.0, AreStored-AreHeld c p ts db found is h.1)

quiet :
    {A : Type 0} (why : A) (db : Db) (eids : List String) (n : ℕ) (w : Outcome)
    → w ≡ (db, some ([], 0))
    → w.1 ≡ some (eids, n)
    → A × (eids ≡ []) × (n ≡ 0) × (w.0 ≡ db)
quiet why db eids n w e k =
    let k' : some ([], 0) ≡ some (eids, n) = sym (ap (λ v. v.1) e) ∙ k in
    (why, ground arith, ground arith, ap (λ v. v.0) e)

module _ (c : Codec) (ids : ℕ → String) (p : String) (ts : ℕ) where
  evict_found-IsEvicted :
      (turns : List ConversationTurn) (is : List ℕ) (db : Db) (eids : List String) (n : ℕ)
      → (evict_found c ids p ts (found_turns turns is) db).1 ≡ some (eids, n)
      → IsEvicted c turns is eids n (evict_found c ids p ts (found_turns turns is) db).0
  unfolding evict_found
  evict_found-IsEvicted turns is db eids n e =
      let found = found_turns turns is in
      let a = archive_evicted c ids false (map (evicted_turn p ts) found) db in
      elim (Option-cases a.1) [
        | inl fails ↦
            absurd (let k : none ≡ some (eids, n) = rw (fails, evict_found) at e in ground arith)
        | inr (js, good) ↦
            let total = sum_by (λ t. t.token_count) found in
            let k : some (js, total) ≡ some (eids, n) = rw (good, evict_found) at e in
            let same_ids : js ≡ eids = ground arith in
            let same_sum : total ≡ n = ground arith in
            let step : evict_found c ids p ts found db ≡ (a.0, some (js, total)) =
              rw (good, evict_found) refl in
            let (stored, marked) =
              archive_evicted-AreStored c ids false (map (evicted_turn p ts) found) db js good in
            subst (λ w. IsEvicted c turns is eids n w.0) (sym step)
              (subst (λ ks. IsEvicted c turns is ks n a.0) same_ids
                (
                  found,
                  found_turns-AreNamed turns is,
                  AreStored-AreHeld c p ts a.0 found js stored,
                  marked,
                  sym same_sum,
                ))
      ]

  evict_turns-IsOutcome :
      (turns : List ConversationTurn) (assistant_text : Option String) (db : Db)
      (eids : List String) (n : ℕ)
      → (evict_turns c ids p ts turns assistant_text db).1 ≡ some (eids, n)
      → IsOutcome c turns assistant_text db eids n
          (evict_turns c ids p ts turns assistant_text db).0
  unfolding evict_turns evicted_indexes
  evict_turns-IsOutcome [] assistant_text db eids n e =
      inl (inl refl, ground arith, ground arith, refl)
  evict_turns-IsOutcome (t ∷ turns) assistant_text db eids n e =
      let out = evict_turns c ids p ts (t ∷ turns) assistant_text db in
      elim (Bool-cases (tokens_entering c (t ∷ turns) assistant_text == 0)) [
        | inl idle ↦
            inl (quiet (inr (inl (ground arith))) db eids n out (rw (idle, evict_turns) refl) e)
        | inr busy ↦ elim (List-cases (evicted_indexes c (t ∷ turns) assistant_text)) [
          | inl empty ↦
              inl (quiet (inr (inr empty)) db eids n out (rw (busy, empty, evict_turns) refl) e)
          | inr (i, is, full) ↦
              let step : out ≡ evict_found c ids p ts (found_turns (t ∷ turns) (i ∷ is)) db =
                rw (busy, full, evict_turns) refl in
              inr (
                subst (λ js. IsEvicted c (t ∷ turns) js eids n out.0) (sym full)
                  (subst (λ w. IsEvicted c (t ∷ turns) (i ∷ is) eids n w.0) (sym step)
                    (evict_found-IsEvicted (t ∷ turns) (i ∷ is) db eids n
                      (sym (ap (λ w. w.1) step) ∙ e))))
        ]
      ]

module _ (c : Codec) (f : Floats) (window_max : ℕ) (watermark : f.Float)
    (parse : Payload → Option Conversation) (payload : Payload) (assistant_text : Option String)
    (input_tokens output_tokens : ℤ) where
  -- The window is filled below the watermark.
  abbrev is_low : Bool
  is_low =
      f.lt_f (f.div_f (f.of_int (input_tokens +ℤ output_tokens)) (f.of_int (pos window_max)))
        watermark

  -- Below the watermark nothing is done; at or above it the turns of the request decide.
  abbrev pub IsSettled : Db → List String → ℕ → Db → Type 0
  IsSettled before eids n after =
      ((is_low ≡ true) × (eids ≡ []) × (n ≡ 0) × (after ≡ before))
      ⊎ ((is_low ≡ false)
          × (conv : Conversation) × (parse payload ≡ some conv)
          × IsOutcome c conv.turns assistant_text before eids n after)

  -- Where the call succeeds: below the watermark nothing is reported and the database is as it was.
  -- Otherwise the request was parsed; without turns, without tokens that come in, or where the
  -- selector names nothing, again nothing happens; and else the turns reported are those at the
  -- indexes that the selector names: each has a row under the digest of its role, content and calls,
  -- with the id reported for it, that row is marked as evicted, and the number reported is the sum of
  -- their tokens.
  pub maybe_evict-IsEvicted :
      (ids : ℕ → String) (p : String) (ts : ℕ) (db : Db) (eids : List String) (n : ℕ)
      → let out =
          maybe_evict c ids p ts f window_max watermark parse payload assistant_text input_tokens
            output_tokens db in
        out.1 ≡ some (eids, n) → IsSettled db eids n out.0
  unfolding maybe_evict
  maybe_evict-IsEvicted ids p ts db eids n e =
      let out =
        maybe_evict c ids p ts f window_max watermark parse payload assistant_text input_tokens
          output_tokens db in
      elim (Bool-cases (window_max == 0)) [
        | inl nowhere ↦
            let step : out ≡ (db, none) = rw (nowhere, maybe_evict) refl in
            absurd (let k : none ≡ some (eids, n) = sym (ap (λ w. w.1) step) ∙ e in ground arith)
        | inr somewhere ↦ elim (Bool-cases is_low) [
          | inl low ↦ inl (quiet low db eids n out (rw (somewhere, low, maybe_evict) refl) e)
          | inr high ↦ elim (Option-cases (parse payload)) [
            | inl bad ↦
                let step : out ≡ (db, none) = rw (somewhere, high, bad, maybe_evict) refl in
                absurd
                  (let k : none ≡ some (eids, n) = sym (ap (λ w. w.1) step) ∙ e in ground arith)
            | inr (conv, good) ↦
                let step : out ≡ evict_turns c ids p ts conv.turns assistant_text db =
                  rw (somewhere, high, good, maybe_evict) refl in
                inr (
                  high,
                  conv,
                  good,
                  subst (λ w. IsOutcome c conv.turns assistant_text db eids n w.0) (sym step)
                      (evict_turns-IsOutcome c ids p ts conv.turns assistant_text db eids n
                        (sym (ap (λ w. w.1) step) ∙ e)),
                )
          ]
        ]
      ]
