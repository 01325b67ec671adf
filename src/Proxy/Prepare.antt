-- ===== src/Proxy/Prepare.antt =====
-- `_handle_request` of src/spillover/proxy/app.py up to the forwarding: rescue, trim, retrieval and
-- injection, or in passive mode the record of what was seen.
pub mod Forwarded
use spillover.Prelude.{
  ℕ, String, Bool, true, false, not, ◌||◌, Option, none, some, List, [], ◌∷◌, ltb, str_eq,
  if◌then◌else◌, or_else, keep, pos,
}
use spillover.Json.{
  Json, str, arr, obj, Items, nil, cons, Fields, end, field, get_or_null, truthy, Message, Payload,
}
use spillover.Runtime.{Codec, Floats, Environ}
use spillover.Storage.{Db}
use spillover.Adapters.{Adapter}
use spillover.CounterCompact.Detection.{record_seen_turns}
use spillover.Proxy.Budget.{ltm_budget_for}
use spillover.Proxy.Forward.{evict_inbound_to_ceiling}
use spillover.Proxy.Rescue.{FacetQueue, detect_and_rescue, enqueue_facets}
use spillover.Proxy.Retrieve.{Searches, Limits, retrieve_ltm_block}

-- The settings of `Config` that the handler reads; `operational_ceiling` is `window_max` too.
pub record Settings (F : Type 0) : Type 0 where
  pub operational_ceiling : ℕ
  pub watermark : F
  pub limits : Limits F
  pub fallback_model_anthropic : String
  pub fallback_model_openai : String

-- What a request changes: the project's database, the environment and the queue of facets.
pub record World : Type 0 where
  pub db : Db
  pub environ : Environ
  pub queue : FacetQueue

-- `SPILLOVER_PASSIVE`
unfoldable pub is_passive : Environ → Bool
is_passive env =
    let v = or_else (env "SPILLOVER_PASSIVE") "0" in
    not (str_eq v "" || str_eq v "0" || str_eq v "false" || str_eq v "False")

abbrev pub field_if : String → Option Json → Fields → Fields
field_if k none fs = fs
field_if k (some v) fs = field k v fs

abbrev pub text_if : Option String → Option Json
text_if none = none
text_if (some t) = some (str t)

abbrev pub json_of_message : Message → Json
json_of_message m = obj (field_if "role" (text_if m.role) (field_if "content" m.content m.rest))

abbrev pub json_of_messages : List Message → Items
json_of_messages [] = nil
json_of_messages (m ∷ ms) = cons (json_of_message m) (json_of_messages ms)

-- The request as a dict; the order of its keys is this one.
unfoldable pub json_of_payload : Payload → Json
json_of_payload payload = obj (
    field_if "model" (text_if payload.model) (
      field_if "system" payload.system
        (field "messages" (arr (json_of_messages payload.messages)) payload.rest)))

-- `forwarded_body`
abbrev pub forwarded_body : Codec → Payload → String
forwarded_body c payload = c.dumps_ascii (json_of_payload payload)

-- `is_stream`
abbrev pub is_stream : Payload → Bool
is_stream payload = truthy (get_or_null "stream" payload.rest)

-- The request that goes out, and `pre_forward_tokens_freed`, where `none` is a name without a value.
pub record Prepared : Type 0 where
  pub payload : Payload
  pub freed : Option ℕ

-- Passive mode: what was seen is recorded, and the request goes out as it came.
unfoldable pub prepare_passive :
    Codec → Bool → String → (ℕ → ℕ) → Payload → World → World × Option Prepared
prepare_passive c is_anthropic p clock payload w = (
  if is_anthropic
      then record w { db = record_seen_turns c p (clock 1) payload.messages w.db }
      else w,
  some (record { payload = payload; freed = none }),
)

-- `ids k` draws the ids of the k-th loop that archives, and `clock` counts the readings of the time;
-- `runtime` is the content of runtime.env.
module _ (f : Floats) (c : Codec) (settings : Settings f.Float) (adapter : Adapter) (p : String)
    (ids : ℕ → ℕ → String) (clock : ℕ → ℕ) (runtime : List String)
    (searches : Searches f.Float) where
  -- Step 4; an exception leaves the request without long-term memory.
  unfoldable pub inject_found : Environ → Db → Payload → Payload
  inject_found env db payload = elim (adapter.parse payload) [
    | none ↦ payload
    | some conv ↦
        elim (retrieve_ltm_block f c settings.limits searches env db conv (some payload)) [
          | none ↦ payload
          | some ltm_text ↦ or_else (adapter.inject_ltm payload ltm_text) payload
        ]
  ]

  -- Steps 2 to 4.
  unfoldable pub trim_and_inject : Payload → World → World × Prepared
  trim_and_inject payload w =
      let reserve = ltm_budget_for f c w.environ payload in
      let trimmed =
        evict_inbound_to_ceiling f c (ids 1) p (clock 3) runtime (pos settings.operational_ceiling)
          reserve payload w.db w.environ in
      (
        record w { db = trimmed.db; environ = trimmed.environ },
        record {
          payload = inject_found trimmed.environ trimmed.db trimmed.payload;
          freed = some (if ltb 0 trimmed.turns_removed then trimmed.tokens_freed else 0);
        },
      )

  -- Step 1, and the others behind it. `none` beside the world is an exception of the rescue.
  unfoldable pub prepare_active : Bool → Payload → World → World × Option Prepared
  prepare_active is_anthropic payload w =
      let rescued =
        detect_and_rescue c (ids 0) p (clock 0) (clock 1) (clock 2) payload.messages w.db in
      let plain = trim_and_inject payload w in
      let with_rescue : World × Option Prepared = elim rescued.1 [
        | none ↦ (record w { db = rescued.0 }, none)
        | some (turns, eids) ↦
            let after =
              trim_and_inject payload
                (record w { db = rescued.0; queue = enqueue_facets p eids w.queue }) in
            (after.0, some after.1)
      ] in
      if is_anthropic then with_rescue else (plain.0, some plain.1)
