-- ===== src/Proxy/Placement/Order.antt =====
-- Where `_inject_ltm` of src/spillover/proxy/app.py puts the pair of messages.
use spillover.Prelude.{
  String, ◌≡◌, ◌≢◌, refl, ap, ◌∙◌, true, false, none, some, List, [], ◌∷◌, ◌++◌, arith, All, str_eq,
  eq_iff,
}
use spillover.Json.{Message, has_role, Payload}
use spillover.Runtime.{Environ}
use spillover.Proxy.Placement.{
  pair_of_turns, ask_between, ask_turns, before_last_user, first_user, before_first_user,
  place_turns, place_ltm,
}

abbrev pub IsUser : Message → Type 0
IsUser m = has_role "user" m ≡ true

abbrev pub IsOther : Message → Type 0
IsOther m = has_role "user" m ≡ false

before_last_user-none : (pair ms : List Message) → All IsOther ms → before_last_user pair ms ≡ none
unfolding before_last_user
before_last_user-none pair [] h = refl
before_last_user-none pair (m ∷ ms) h =
    let none_behind = before_last_user-none pair ms h.1 in
    rw (none_behind, h.0, before_last_user) refl

before_last_user-some :
    (pair before behind : List Message) (m : Message)
    → IsUser m
    → All IsOther behind
    → before_last_user pair (before ++ m ∷ behind) ≡ some (before ++ (pair ++ m ∷ behind))
unfolding before_last_user
before_last_user-some pair [] behind m user others =
    let none_behind = before_last_user-none pair behind others in
    rw (none_behind, user, before_last_user) refl
before_last_user-some pair (x ∷ before) behind m user others =
    let rest = before_last_user-some pair before behind m user others in
    rw (rest, before_last_user) refl

first_user-some :
    (before behind : List Message) (m : Message)
    → All IsOther before
    → IsUser m
    → first_user (before ++ m ∷ behind) ≡ some (before, m ∷ behind)
unfolding first_user
first_user-some [] behind m others user = rw (user, first_user) refl
first_user-some (x ∷ before) behind m others user =
    let rest = first_user-some before behind m others.1 user in rw (others.0, rest, first_user) refl

place_turns-first :
    (ltm_text : String) (payload : Payload) (before behind : List Message) (m : Message)
    → All IsOther before
    → IsUser m
    → place_turns ltm_text payload (before ++ m ∷ behind)
      ≡ record payload { messages = before ++ (pair_of_turns ask_turns ltm_text ++ m ∷ behind) }
place_turns-first ltm_text payload [] behind m others user =
    let found = first_user-some [] behind m others user in rw (found, before_first_user) refl
place_turns-first ltm_text payload (x ∷ before) behind m others user =
    let found = first_user-some (x ∷ before) behind m others user in
    rw (found, before_first_user) refl

-- A block that is not empty goes, as a pair of messages, in front of the last message of the user's
-- under the placement "between", and in front of the first one where no placement is set; the other
-- messages stay in their order.
pub place_ltm-IsPlaced :
    (env : Environ) (payload : Payload) (ltm_text : String) (before behind : List Message)
    (m : Message)
    → payload.messages ≡ before ++ m ∷ behind
    → IsUser m
    → ltm_text ≢ ""
    → (env "SPILLOVER_LTM_PLACEMENT" ≡ some "between"
        → All IsOther behind
        → place_ltm env payload ltm_text ≡ record payload {
          messages = before ++ (pair_of_turns ask_between ltm_text ++ m ∷ behind);
        })
      × (env "SPILLOVER_LTM_PLACEMENT" ≡ none
          → All IsOther before
          → place_ltm env payload ltm_text ≡ record payload {
            messages = before ++ (pair_of_turns ask_turns ltm_text ++ m ∷ behind);
          })
unfolding place_ltm
place_ltm-IsPlaced env payload ltm_text before behind m split user full =
    let open_text : str_eq ltm_text "" ≡ false = ground (arith, eq_iff ltm_text "") in
    (
      λ set others.
          let found =
            before_last_user-some (pair_of_turns ask_between ltm_text) before behind m user
              others in
          rw (open_text, set, split, found, place_ltm) refl,
      λ set others.
          let found = place_turns-first ltm_text payload before behind m others user in
          rw (open_text, set, place_ltm) (ap (place_turns ltm_text payload) split ∙ found),
    )
