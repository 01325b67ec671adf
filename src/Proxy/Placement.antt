-- ===== src/Proxy/Placement.antt =====
-- `_inject_ltm` of src/spillover/proxy/app.py: the places where the block of long-term memory may go.
-- The proxy itself calls the adapter's `inject_ltm`.
pub mod Order
use Prim.Native.String.{◌++◌ as append}
use spillover.Prelude.{
  String, Bool, true, false, Option, none, some, List, [], ◌∷◌, ◌++◌, str_eq, if◌then◌else◌,
  or_else,
}
use spillover.Json.{
  Json, null, str, arr, obj, cons, end, field, Message, has_role, content_of, Payload,
}
use spillover.Runtime.{Environ}

abbrev pub text_block : String → Json
text_block t = obj (field "type" (str "text") (field "text" (str t) end))

-- `payload["system"]` under "system"; a value of another kind stays.
abbrev pub with_system : String → Option Json → Option Json
with_system ltm_text none = some (str ltm_text)
with_system ltm_text (some null) = some (str ltm_text)
with_system ltm_text (some (str t)) = some (str (append ltm_text (append "\n\n" t)))
with_system ltm_text (some (arr bs)) = some (arr (cons (text_block ltm_text) bs))
with_system ltm_text (some v) = some v

abbrev pub with_text : String → Json → Json
with_text ltm_text (str t) = str (append ltm_text (append "\n\n" t))
with_text ltm_text (arr bs) = arr (cons (text_block ltm_text) bs)
with_text ltm_text v = str ltm_text

-- The loop over the reversed messages; `none` says that no message is the user's.
unfoldable pub in_last_user : String → List Message → Option (List Message)
in_last_user ltm_text [] = none
in_last_user ltm_text (m ∷ ms) = elim (in_last_user ltm_text ms) [
  | some done ↦ some (m ∷ done)
  | none ↦
      if has_role "user" m
      then some ((record m { content = some (with_text ltm_text (content_of m)) }) ∷ ms)
      else none
]

-- The synthetic pair of messages; the two placements word the first one differently.
abbrev pub pair_of_turns : String → String → List Message
pair_of_turns ask ltm_text =
    record { role = some "user"; content = some (str ask); rest = end }
    ∷ record { role = some "assistant"; content = some (str ltm_text); rest = end }
    ∷ []

abbrev pub ask_between : String
ask_between =
    append "Before answering, recall the following retrieved from "
      "long-term memory of this project."

abbrev pub ask_turns : String
ask_turns =
    append "Before we continue: recall the following from our prior work "
      "on this project, retrieved from long-term memory."

-- The pair in front of the last message of the user's.
unfoldable pub before_last_user : List Message → List Message → Option (List Message)
before_last_user pair [] = none
before_last_user pair (m ∷ ms) = elim (before_last_user pair ms) [
  | some done ↦ some (m ∷ done)
  | none ↦ if has_role "user" m then some (pair ++ m ∷ ms) else none
]

-- The pair in front of the first one, or in front of all if there is none.
unfoldable pub first_user : List Message → Option (List Message × List Message)
first_user [] = none
first_user (m ∷ ms) =
    let rest = first_user ms in
    let later : Option (List Message × List Message) = elim rest [
      | none ↦ none
      | some (before, behind) ↦ some (m ∷ before, behind)
    ] in
    if has_role "user" m then some ([], m ∷ ms) else later

abbrev pub before_first_user : List Message → List Message → List Message
before_first_user pair ms = elim (first_user ms) [
  | none ↦ pair ++ ms
  | some (before, behind) ↦ before ++ (pair ++ behind)
]

abbrev pub in_system : String → Payload → Payload
in_system ltm_text payload = record payload { system = some (str ltm_text) }

abbrev pub or_in_system : String → Payload → Option (List Message) → Payload
or_in_system ltm_text payload none = in_system ltm_text payload
or_in_system ltm_text payload (some ms) = record payload { messages = ms }

abbrev pub place_turns : String → Payload → List Message → Payload
place_turns ltm_text payload [] = in_system ltm_text payload
place_turns ltm_text payload (m ∷ ms) = record payload {
  messages = before_first_user (pair_of_turns ask_turns ltm_text) (m ∷ ms);
}

unfoldable pub place_ltm : Environ → Payload → String → Payload
place_ltm env payload ltm_text =
    let placement = or_else (env "SPILLOVER_LTM_PLACEMENT") "turns" in
    if str_eq ltm_text ""
    then payload
    else if str_eq placement "system"
    then record payload { system = with_system ltm_text payload.system }
    else if str_eq placement "user"
    then or_in_system ltm_text payload (in_last_user ltm_text payload.messages)
    else if str_eq placement "between"
    then or_in_system ltm_text payload
        (before_last_user (pair_of_turns ask_between ltm_text) payload.messages)
    else place_turns ltm_text payload payload.messages
