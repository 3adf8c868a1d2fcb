-- ===== src/Protocol/Event.antt =====
-- Run events (src/protocol/events.ts).
use rector.Prelude.{
  ℕ, Bool, true, false, String, Option, none, some, Metadata, Json, ◌&&◌, not, leb, length, all,
  keep_if, str_eq, if◌then◌else◌,
}
use rector.Protocol.Phase.{RunPhase}

pub data RunEventType : Type 0 where
  run_created phase_changed envelope_sent dag_compiled : RunEventType
  dag_node_started dag_node_completed dag_node_failed : RunEventType
  validation_passed validation_failed healing_started healing_applied : RunEventType
  decision_requested run_completed run_failed run_aborted budget_checked : RunEventType
  artifact_created context_budget_evaluated context_compressed : RunEventType
  stable_tier_mutation_blocked skill_activation_decided tool_invoked tool_completed : RunEventType
  run_interrupt_requested run_steer_enqueued run_budget_exhausted provider_retry : RunEventType
  provider_substituted credential_rotated budget_approval_requested : RunEventType

pub record RunEvent : Type 0 where
  pub id : String
  pub run_id : String
  pub type : RunEventType
  pub phase : RunPhase
  pub payload : Metadata
  pub trace_id : Option String
  pub redaction_state : Option String
  pub created_at : String

-- What the schemas use of zod and of the runtime: whether a text is an ISO date and time, the length
-- of a text in UTF-16 units, and the length of a payload under `JSON.stringify`.
pub record Runtime : Type 0 where
  pub is_datetime : String → Bool
  pub text_length : String → ℕ
  pub json_length : Metadata → ℕ

abbrev pub is_non_empty : String → Bool
is_non_empty s = not (str_eq s "")

-- An optional text is absent or not empty.
abbrev pub is_optional_text : Option String → Bool
is_optional_text none = true
is_optional_text (some s) = is_non_empty s

abbrev pub is_defined : Json → Bool
is_defined Json.undefined = false
is_defined _ = true

-- The `transform` of the payload: entries with the value `undefined` are dropped.
unfoldable pub clean_payload : Metadata → Metadata
clean_payload payload = keep_if (λ e. is_defined e.1) payload

-- The `refine` calls of the payload, before and after the `transform`.
pub is_payload : Runtime → Metadata → Bool
unfolding clean_payload
is_payload rt payload =
    leb (length payload) 50
    && all (λ e. leb (rt.text_length e.0) 128) payload
    && leb (rt.json_length (clean_payload payload)) 100000

-- `RunEventSchema.parse`.
unfoldable pub parse_event : Runtime → RunEvent → Option RunEvent
unfolding is_payload clean_payload
parse_event rt e =
    if is_non_empty e.id
      && is_non_empty e.run_id
      && is_payload rt e.payload
      && is_optional_text e.trace_id
      && is_optional_text e.redaction_state
      && rt.is_datetime e.created_at
    then some (record e { payload = clean_payload e.payload })
    else none
