-- ===== src/Adapters/Anthropic/Conversations.antt =====
-- Reading and building requests, `parse` and `build` of src/spillover/adapters/anthropic.py.
use spillover.Prelude.{
  ℕ, suc, ◌≡◌, refl, ap, Option, none, some, List, [], ◌∷◌, arith, Bool-cases, Option-cases, inl,
  inr, subst, ◌+◌, sum_by, if◌then◌else◌,
}
use spillover.Json.{
  Json, null, bool, int, real, str, arr, obj, truthy, Fields, end, field, get, Message, Payload,
}
use spillover.Runtime.{Codec}
use spillover.Tokenizer.{count_tokens}
use spillover.Proxy.Budget.{messages_tokens, total_tokens, system_tokens}
use spillover.Adapters.{ConversationTurn, Conversation, total_input_tokens}
use spillover.Adapters.Anthropic.{
  is_passthrough, pass_through, parse_turns, parse, messages_of, build, turn_at, not_null,
  conversation_of,
}

parse_turns-messages_of :
    (c : Codec) (i : ℕ) (ms : List Message) (ts : List ConversationTurn)
    → parse_turns c i ms ≡ some ts
    → parse_turns c i (messages_of ts) ≡ some ts
unfolding parse_turns
parse_turns-messages_of c i [] ts e =
    let e' : [] ≡ ts = ground arith in
    subst (λ us. parse_turns c i (messages_of us) ≡ some us) e' refl
parse_turns-messages_of c i (m ∷ ms) ts e = elim (Option-cases m.content) [
  | inl missing ↦ absurd (ground arith)
  | inr (content, held) ↦ elim (Option-cases m.role) [
    | inl missing ↦ absurd (ground arith)
    | inr (role, named) ↦ elim (Option-cases (parse_turns c (suc i) ms)) [
      | inl fails ↦ absurd (ground arith)
      | inr (us, rest) ↦
          let e' : turn_at c i role content ∷ us ≡ ts = ground arith in
          subst (λ vs. parse_turns c i (messages_of vs) ≡ some vs) e'
            (rw (parse_turns-messages_of c (suc i) ms us rest) refl)
    ]
  ]
]

-- The tokens of the turns are those of the messages.
sum_by-parse_turns :
    (c : Codec) (i : ℕ) (ms : List Message) (ts : List ConversationTurn)
    → parse_turns c i ms ≡ some ts
    → sum_by (λ t. t.token_count) ts ≡ messages_tokens c ms
unfolding parse_turns
sum_by-parse_turns c i [] ts e =
    let e' : [] ≡ ts = ground arith in subst (λ us. sum_by (λ t. t.token_count) us ≡ 0) e' refl
sum_by-parse_turns c i (m ∷ ms) ts e = elim (Option-cases m.content) [
  | inl missing ↦ absurd (ground arith)
  | inr (content, held) ↦ elim (Option-cases m.role) [
    | inl missing ↦ absurd (ground arith)
    | inr (role, named) ↦ elim (Option-cases (parse_turns c (suc i) ms)) [
      | inl fails ↦ absurd (ground arith)
      | inr (us, rest) ↦
          let e' : turn_at c i role content ∷ us ≡ ts = ground arith in
          subst (λ vs. sum_by (λ t. t.token_count) vs ≡ messages_tokens c (m ∷ ms)) e'
            (rw held
              (ap (λ n. count_tokens c content + n) (sum_by-parse_turns c (suc i) ms us rest)))
    ]
  ]
]

pass_through_again : (fs : Fields) → pass_through (pass_through fs) ≡ pass_through fs
unfolding pass_through
pass_through_again end = refl
pass_through_again (field k v fs) = elim (Bool-cases (is_passthrough k)) [
  | inl kept ↦ rw kept (rw kept (ap (field k v) (pass_through_again fs)))
  | inr left ↦ rw left (pass_through_again fs)
]

-- A system of None counts as none, also in tokens.
same_system :
    (c : Codec) (s : Option Json)
    → let tokens : Option Json → ℕ =
        λ o. elim o [ none ↦ 0 | some v ↦ if truthy v then count_tokens c v else 0 ] in
      ◌≡◌ {A = Option Json × ℕ}
        (not_null (not_null (not_null s)), tokens (not_null (not_null s)))
        (not_null s, tokens s)
same_system c none = refl
same_system c (some null) = refl
same_system c (some (bool b)) = refl
same_system c (some (int n)) = refl
same_system c (some (real t)) = refl
same_system c (some (str t)) = refl
same_system c (some (arr xs)) = refl
same_system c (some (obj d)) = refl

rebuilt :
    (c : Codec) (payload : Payload) (ts : List ConversationTurn)
    → ◌≡◌ {A = Option Conversation}
        (some (record (conversation_of c payload ts) {
          system = not_null (not_null (not_null payload.system));
          system_tokens = system_tokens c (build (conversation_of c payload ts));
        }))
        (some (conversation_of c payload ts))
unfolding build
rebuilt c payload ts =
    ap
      (λ (x : Option Json × ℕ).
        some (record (conversation_of c payload ts) { system = x.0; system_tokens = x.1 }))
      (same_system c payload.system)

-- A parsed request that is built again reads the same: the conversation is the same in every field,
-- its turns in their order with their tool calls and tokens included.
pub parse-build :
    (c : Codec) (payload : Payload) (conv : Conversation)
    → parse c payload ≡ some conv
    → parse c (build conv) ≡ some conv
unfolding parse build pass_through get
parse-build c payload conv e = elim (Option-cases (parse_turns c 0 payload.messages)) [
  | inl fails ↦ absurd (ground arith)
  | inr (ts, turns) ↦
      let e' : conversation_of c payload ts ≡ conv = ground arith in
      subst (λ k. parse c (build k) ≡ some k) e'
        (rw
          (
            parse_turns-messages_of c 0 payload.messages ts turns,
            pass_through_again payload.rest,
            parse,
            build,
          )
          (rebuilt c payload ts))
]

-- The tokens of a parsed conversation are those that the proxy counts for the request.
pub parse-total_tokens :
    (c : Codec) (payload : Payload) (conv : Conversation)
    → parse c payload ≡ some conv
    → total_input_tokens conv ≡ total_tokens c payload
unfolding parse
parse-total_tokens c payload conv e = elim (Option-cases (parse_turns c 0 payload.messages)) [
  | inl fails ↦ absurd (ground arith)
  | inr (ts, turns) ↦
      let e' : conversation_of c payload ts ≡ conv = ground arith in
      subst (λ k. total_input_tokens k ≡ total_tokens c payload) e'
        (ap (λ n. system_tokens c payload + n) (sum_by-parse_turns c 0 payload.messages ts turns))
]
