-- ===== src/Api/ApprovalFlow/Tests.antt =====
-- A decision on an operation of the sample run (src/api/approvalFlow.ts).
use rector.Prelude.{
  ℕ, String, Option, some, [], ◌∷◌, Json, ◌≡◌, refl, lookup, insert, has, str_eq, if◌then◌else◌,
}
use rector.Protocol.Phase.{needs_decision, phase_includes}
use rector.Store.Schemas.{Run, parse_run}
use rector.Store.Memory.{Store, get_run, commit_run_transition, version_conflict, patched}
use rector.Protocol.Event.{parse_event}
use rector.Store.Calls.{perform_all}
use rector.Store.Samples.{sample_runtime, sample_run}
use rector.Orchestration.RunStateMachine.{
  Redaction, Attempt, resume_from_decision, transition_run, transition_loop, attempt_transition,
  commit_from, answer, validate_transition, build_run_patch, build_run_event, spread, phase_name,
  status_for_phase, event_type_for_target_phase, is_allowed_run_phase_transition,
  allowed_run_phase_transitions,
}
use rector.Orchestration.RunStateMachine.Concurrency.{IsVersioned}
use rector.Orchestration.RunStateMachine.Writers.{perform_all-IsVersioned}
use rector.Api.ApprovalFlow.{
  approve, approved, ApprovalDecisionRecord, ApprovalInput, recorded, record_approval_decision,
  parse_approval_request,
}
use rector.Api.ApprovalFlow.Decisions.{IsRecorded, record_approval_decision-IsRecorded}

abbrev plain : Redaction
plain = record { metadata = λ m. m; text = λ s. s }

abbrev clock : String → Option ℕ
clock s = if str_eq s "10:00" then some 0 else some 60000

abbrev waiting : Run
waiting = record sample_run {
  phase = needs_decision;
  decision_request = some (
      ("kind", Json.str "approval")
      ∷ ("operationId", Json.str "op-1")
      ∷ ("presentedAt", Json.str "10:00")
      ∷ []);
}

abbrev store : Store
store = record { runs = ("run-1", waiting) ∷ []; events = [] }

abbrev quiet : ℕ → Attempt
quiet n = record {
  event_id = "evt-1";
  event_time = "10:01";
  store_time = "10:01";
  others = perform_all sample_runtime [];
}

abbrev agree : ApprovalInput
agree = record { run_id = "run-1"; operation_id = "op-1"; decision = approve; decided_by = "ann" }

abbrev yes_recorded : ApprovalDecisionRecord
yes_recorded = record {
  run_id = "run-1";
  operation_id = "op-1";
  decision = approved;
  decided_by = "ann";
  decided_at = "10:01";
}

yes-recorded :
    (record_approval_decision sample_runtime plain clock agree "10:01" quiet store).0
    ≡ recorded yes_recorded
unfolding record_approval_decision get_run lookup parse_approval_request resume_from_decision
    transition_run transition_loop attempt_transition commit_from answer validate_transition
    build_run_patch build_run_event spread phase_name status_for_phase event_type_for_target_phase
    is_allowed_run_phase_transition allowed_run_phase_transitions phase_includes
    commit_run_transition perform_all version_conflict parse_run patched parse_event insert has
yes-recorded = refl

quiet-IsVersioned : (m : ℕ) → IsVersioned "run-1" (quiet m).others
quiet-IsVersioned m = perform_all-IsVersioned sample_runtime "run-1" [] tt

record_approval_decision-IsRecorded_example :
    IsRecorded sample_runtime plain clock quiet agree "10:01" store yes_recorded
      (record_approval_decision sample_runtime plain clock agree "10:01" quiet store).1
record_approval_decision-IsRecorded_example =
    record_approval_decision-IsRecorded sample_runtime plain clock quiet agree "10:01" store
      quiet-IsVersioned yes-recorded
