-- ===== src/Api/ApprovalFlow.antt =====
-- The decision on an operation that a run waits for (src/api/approvalFlow.ts). `Date.parse` is an
-- argument that gives milliseconds, or `none` for no date; a thrown error is a constructor, and
-- the state machine says with its attempts what other writers do meanwhile.
pub mod Decisions
mod Tests
use rector.Prelude.{
  ℕ, ◌-◌, Bool, true, false, String, Option, none, some, List, [], ◌∷◌, Metadata, Json, Fields,
  fields_of, lookup, if◌then◌else◌, leb, str_eq,
}
use rector.Protocol.Phase.{RunPhase, executing, synthesizing, needs_decision, phase_eq}
use rector.Protocol.Event.{Runtime}
use rector.Store.Schemas.{Run}
use rector.Store.Memory.{Store, get_run}
use rector.Orchestration.RunStateMachine.{
  Redaction, no_options, Attempt, Outcome, TransitionError, committed, rejected,
  create_decision_request, resume_from_decision,
}

abbrev pub approval_decision_timeout_ms : ℕ
approval_decision_timeout_ms = 1800000

pub data ApprovalDecision : Type 0 where
  approve deny : ApprovalDecision

pub data RecordedApprovalDecision : Type 0 where
  approved denied timeout_denied : RecordedApprovalDecision

pub record ApprovalRequestView : Type 0 where
  pub run_id : String
  pub operation_id : String
  pub diff : String
  pub command : Option String
  pub target_path : String

-- What is read back of a request; its view plays no part in the decision.
pub record ApprovalDecisionRequest : Type 0 where
  pub operation_id : String
  pub presented_at : String

pub record ApprovalDecisionRecord : Type 0 where
  pub run_id : String
  pub operation_id : String
  pub decision : RecordedApprovalDecision
  pub decided_by : String
  pub decided_at : String

pub data ApprovalOutcome : Type 0 where
  recorded : ApprovalDecisionRecord → ApprovalOutcome
  run_not_found not_awaiting_decision operation_mismatch : ApprovalOutcome
  record_failed : TransitionError → ApprovalOutcome

pub record ApprovalInput : Type 0 where
  pub run_id : String
  pub operation_id : String
  pub decision : ApprovalDecision
  pub decided_by : String

abbrev or_undefined : Option Json → Json
or_undefined none = Json.undefined
or_undefined (some v) = v

abbrev json_text : Option String → Json
json_text none = Json.undefined
json_text (some s) = Json.str s

abbrev map_text : (String → String) → Option String → Option String
map_text f none = none
map_text f (some s) = some (f s)

-- `redactStringOrSuppress` is an argument.
abbrev pub redact_approval_view : (String → String) → ApprovalRequestView → ApprovalRequestView
redact_approval_view suppress view = record {
  run_id = view.run_id;
  operation_id = view.operation_id;
  diff = suppress view.diff;
  command = map_text suppress view.command;
  target_path = suppress view.target_path;
}

abbrev json_view : ApprovalRequestView → Json
json_view view = Json.obj (
    fields_of (
      ("runId", Json.str view.run_id)
      ∷ ("operationId", Json.str view.operation_id)
      ∷ ("diff", Json.str view.diff)
      ∷ ("command", json_text view.command)
      ∷ ("targetPath", Json.str view.target_path)
      ∷ []))

pub present_approval_request :
    Runtime
    → Redaction
    → (String → String)
    → String
    → String
    → ApprovalRequestView
    → Option Bool
    → String
    → (ℕ → Attempt)
    → Store
    → Outcome × Store
present_approval_request rt red suppress run_id operation_id view risky now env s =
    create_decision_request rt red run_id
      (("kind", Json.str "approval")
        ∷ ("operationId", Json.str operation_id)
        ∷ ("presentedAt", Json.str now)
        ∷ ("riskyCommand", Json.bool (elim risky [ none ↦ false | some b ↦ b ]))
        ∷ ("view", json_view (redact_approval_view suppress view))
        ∷ [])
      no_options env s

-- A text that is not empty.
abbrev text_of : Json → Option String
text_of (Json.str s) = if str_eq s "" then none else some s
text_of _ = none

abbrev is_approval : Json → Bool
is_approval (Json.str s) = str_eq s "approval"
is_approval _ = false

abbrev request_of : Option String → Option String → Option ApprovalDecisionRequest
request_of (some operation) (some presented) =
    some (record { operation_id = operation; presented_at = presented })
request_of _ _ = none

unfoldable pub parse_approval_request : Metadata → Option ApprovalDecisionRequest
parse_approval_request value =
    if is_approval (or_undefined (lookup "kind" value))
    then request_of (text_of (or_undefined (lookup "operationId" value)))
        (text_of (or_undefined (lookup "presentedAt" value)))
    else none

abbrev pub is_stale : Option ℕ → Option ℕ → Bool
is_stale (some presented) (some decided) = leb approval_decision_timeout_ms (decided - presented)
is_stale _ _ = false

abbrev pub recorded_as : ApprovalDecision → RecordedApprovalDecision
recorded_as approve = approved
recorded_as deny = denied

abbrev pub resolve_effective_decision :
    (String → Option ℕ) → ApprovalDecision → String → String → RecordedApprovalDecision
resolve_effective_decision parse_date decision presented_at decided_at =
    if is_stale (parse_date presented_at) (parse_date decided_at)
    then timeout_denied
    else recorded_as decision

abbrev pub target_phase : RecordedApprovalDecision → RunPhase
target_phase approved = executing
target_phase denied = synthesizing
target_phase timeout_denied = synthesizing

abbrev decision_text : RecordedApprovalDecision → String
decision_text approved = "approve"
decision_text denied = "deny"
decision_text timeout_denied = "timeout-denied"

abbrev pub json_record : ApprovalDecisionRecord → Json
json_record r = Json.obj (
    fields_of (
      ("runId", Json.str r.run_id)
      ∷ ("operationId", Json.str r.operation_id)
      ∷ ("decision", Json.str (decision_text r.decision))
      ∷ ("decidedBy", Json.str r.decided_by)
      ∷ ("decidedAt", Json.str r.decided_at)
      ∷ []))

abbrev pub answer_of : ApprovalDecisionRecord → Outcome → ApprovalOutcome
answer_of r (committed t) = recorded r
answer_of r (rejected e) = record_failed e

-- The `try` of the source.
abbrev pub resumed :
    Runtime → Redaction → ApprovalDecisionRecord → (ℕ → Attempt) → Store → Outcome × Store
resumed rt red r env s =
    resume_from_decision rt red r.run_id (target_phase r.decision) (some (json_record r)) no_options
      env s

abbrev pub record_of :
    (String → Option ℕ) → ApprovalInput → String → ApprovalDecisionRequest → ApprovalDecisionRecord
record_of parse_date input decided_at request = record {
  run_id = input.run_id;
  operation_id = input.operation_id;
  decision = resolve_effective_decision parse_date input.decision request.presented_at decided_at;
  decided_by = input.decided_by;
  decided_at = decided_at;
}

module _ (rt : Runtime) (red : Redaction) (parse_date : String → Option ℕ) where
  abbrev pub decide_presented :
      ApprovalInput
      → String
      → (ℕ → Attempt)
      → Store
      → Option ApprovalDecisionRequest
      → ApprovalOutcome × Store
  decide_presented input decided_at env s none = (operation_mismatch, s)
  decide_presented input decided_at env s (some request) =
      let r = record_of parse_date input decided_at request in
      if str_eq request.operation_id input.operation_id
      then (answer_of r (resumed rt red r env s).0, (resumed rt red r env s).1)
      else (operation_mismatch, s)

  abbrev pub decide_pending :
      ApprovalInput → String → (ℕ → Attempt) → Store → Option Metadata → ApprovalOutcome × Store
  decide_pending input decided_at env s none = (not_awaiting_decision, s)
  decide_pending input decided_at env s (some value) =
      decide_presented input decided_at env s (parse_approval_request value)

  abbrev pub decide_run :
      ApprovalInput → String → (ℕ → Attempt) → Store → Option Run → ApprovalOutcome × Store
  decide_run input decided_at env s none = (run_not_found, s)
  decide_run input decided_at env s (some run) =
      if phase_eq run.phase needs_decision
      then decide_pending input decided_at env s run.decision_request
      else (not_awaiting_decision, s)

  unfoldable pub record_approval_decision :
      ApprovalInput → String → (ℕ → Attempt) → Store → ApprovalOutcome × Store
  record_approval_decision input decided_at env s =
      decide_run input decided_at env s (get_run input.run_id s)
