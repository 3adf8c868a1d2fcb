-- ===== src/Orchestration/RunStateMachine.antt =====
-- The run state machine (src/orchestration/runStateMachine.ts). Redaction is an argument; what the
-- environment supplies to one attempt (an event id, two clock readings, and what other writers do to
-- the store between the read and the commit) is an `Attempt`.
pub mod Diagram
pub mod Outcomes
pub mod Concurrency
pub mod Writers
mod Tests
use rector.Prelude.{
  ℕ, zero, suc, ◌+◌, Bool, true, false, List, [], ◌∷◌, String, Option, none, some, Metadata, Json,
  fields_of, insert, ◌&&◌, if◌then◌else◌, Dict,
}
use rector.Protocol.Phase.{
  RunPhase, chat_received, triage, context_building, planning, skeptic_review, crucible,
  dag_compilation, executing, validating, healing, synthesizing, done, needs_decision, failed,
  aborted, phase_eq, phase_includes,
}
use rector.Protocol.Event.{
  Runtime, RunEvent, RunEventType, phase_changed, decision_requested, run_completed, run_failed,
  run_aborted,
}
use rector.Store.Schemas.{Run, UpdateRunInput, no_changes}
use rector.Store.Memory.{
  Store, StoreError, run_not_found, concurrent_transition, Result, ok, err, Transition, get_run,
  commit_run_transition,
}

abbrev pub max_transition_retries : ℕ
max_transition_retries = 3

-- `ALLOWED_RUN_PHASE_TRANSITIONS`.
unfoldable pub allowed_run_phase_transitions : RunPhase → List RunPhase
allowed_run_phase_transitions chat_received = triage ∷ []
allowed_run_phase_transitions triage = context_building ∷ needs_decision ∷ failed ∷ aborted ∷ []
allowed_run_phase_transitions context_building = planning ∷ needs_decision ∷ failed ∷ aborted ∷ []
allowed_run_phase_transitions planning = skeptic_review ∷ needs_decision ∷ failed ∷ aborted ∷ []
allowed_run_phase_transitions skeptic_review =
    crucible ∷ planning ∷ needs_decision ∷ failed ∷ aborted ∷ []
allowed_run_phase_transitions crucible =
    dag_compilation ∷ planning ∷ needs_decision ∷ failed ∷ aborted ∷ []
allowed_run_phase_transitions dag_compilation = executing ∷ needs_decision ∷ failed ∷ aborted ∷ []
allowed_run_phase_transitions executing =
    validating ∷ healing ∷ needs_decision ∷ failed ∷ aborted ∷ []
allowed_run_phase_transitions validating =
    synthesizing ∷ healing ∷ needs_decision ∷ failed ∷ aborted ∷ []
allowed_run_phase_transitions healing = validating ∷ needs_decision ∷ failed ∷ aborted ∷ []
allowed_run_phase_transitions synthesizing = done ∷ needs_decision ∷ failed ∷ aborted ∷ []
allowed_run_phase_transitions needs_decision =
    executing ∷ synthesizing ∷ planning ∷ failed ∷ aborted ∷ []
allowed_run_phase_transitions done = []
allowed_run_phase_transitions failed = []
allowed_run_phase_transitions aborted = []

unfoldable pub is_allowed_run_phase_transition : RunPhase → RunPhase → Bool
unfolding allowed_run_phase_transitions phase_includes
is_allowed_run_phase_transition from to = phase_includes (allowed_run_phase_transitions from) to

-- `RunTransitionOptions`, without the two functions that an `Attempt` answers for. A decision that is
-- `undefined` is `none`.
pub record RunTransitionOptions : Type 0 where
  pub payload : Option Metadata
  pub trace_id : Option String
  pub attempts : Option ℕ
  pub healing_attempts : Option ℕ
  pub validation_attempts : Option ℕ
  pub last_error : Option String
  pub decision_request : Option Metadata
  pub decision : Option Json

abbrev pub no_options : RunTransitionOptions
no_options = record {
  payload = none;
  trace_id = none;
  attempts = none;
  healing_attempts = none;
  validation_attempts = none;
  last_error = none;
  decision_request = none;
  decision = none;
}

-- `redactSecrets` on records and on texts.
pub record Redaction : Type 0 where
  pub metadata : Metadata → Metadata
  pub text : String → String

pub record Attempt : Type 0 where
  pub event_id : String
  pub event_time : String
  pub store_time : String
  pub others : Store → Store

pub data TransitionError : Type 0 where
  store_error : StoreError → TransitionError
  invalid_transition : RunPhase → RunPhase → TransitionError
  decision_required : TransitionError

pub data Outcome : Type 0 where
  committed : Transition → Outcome
  rejected : TransitionError → Outcome

unfoldable pub validate_transition :
    RunPhase → RunPhase → RunTransitionOptions → Option TransitionError
validate_transition from target options =
    if is_allowed_run_phase_transition from target
    then (if phase_eq from needs_decision
        then elim options.decision [ none ↦ some decision_required | some _ ↦ none ]
        else none)
    else some (invalid_transition from target)

unfoldable pub status_for_phase : RunPhase → String
status_for_phase done = "completed"
status_for_phase failed = "failed"
status_for_phase aborted = "aborted"
status_for_phase needs_decision = "needs_decision"
status_for_phase _ = "running"

unfoldable pub event_type_for_target_phase : RunPhase → RunEventType
event_type_for_target_phase needs_decision = decision_requested
event_type_for_target_phase done = run_completed
event_type_for_target_phase failed = run_failed
event_type_for_target_phase aborted = run_aborted
event_type_for_target_phase _ = phase_changed

-- `options.x !== undefined`: the key is written only then.
abbrev given {ℓ} : {A : Type ℓ} → Option A → Option (Option A)
given none = none
given (some a) = some (some a)

abbrev or_empty : Option Metadata → Metadata
or_empty none = []
or_empty (some m) = m

-- The `decisionRequest` of the patch: redacted on the way to a decision, cleared by a decision.
decision_patch : Redaction → RunPhase → RunTransitionOptions → Option (Option Metadata)
decision_patch red target options =
    if phase_eq target needs_decision
    then some (some (red.metadata (or_empty options.decision_request)))
    else elim options.decision [ none ↦ none | some _ ↦ some none ]

-- `buildRunPatch`, with the version that `transitionRun` writes into it.
unfoldable pub build_run_patch : Redaction → RunPhase → RunTransitionOptions → ℕ → UpdateRunInput
unfolding status_for_phase decision_patch
build_run_patch red target options version = record no_changes {
  phase = some target;
  status = some (status_for_phase target);
  attempts = options.attempts;
  healing_attempts = options.healing_attempts;
  validation_attempts = options.validation_attempts;
  last_error = given options.last_error;
  decision_request = decision_patch red target options;
  version = some version;
}

unfoldable pub phase_name : RunPhase → String
phase_name chat_received = "CHAT_RECEIVED"
phase_name triage = "TRIAGE"
phase_name context_building = "CONTEXT_BUILDING"
phase_name planning = "PLANNING"
phase_name skeptic_review = "SKEPTIC_REVIEW"
phase_name crucible = "CRUCIBLE"
phase_name dag_compilation = "DAG_COMPILATION"
phase_name executing = "EXECUTING"
phase_name validating = "VALIDATING"
phase_name healing = "HEALING"
phase_name synthesizing = "SYNTHESIZING"
phase_name done = "DONE"
phase_name needs_decision = "NEEDS_DECISION"
phase_name failed = "FAILED"
phase_name aborted = "ABORTED"

-- An object spread over another.
unfoldable pub spread : Metadata → Metadata → Metadata
spread m [] = m
spread m ((k, v) ∷ over) = spread (insert k v m) over

unfoldable pub set_if {ℓ} : {A : Type ℓ} → String → (A → Json) → Option A → Metadata → Metadata
set_if k json none m = m
set_if k json (some a) m = insert k (json a) m

unfoldable pub event_payload : RunPhase → RunPhase → RunTransitionOptions → Metadata
unfolding spread set_if phase_name
event_payload from target options =
    let start : Metadata =
      ("fromPhase", Json.str (phase_name from)) ∷ ("toPhase", Json.str (phase_name target)) ∷ [] in
    let base = spread start (or_empty options.payload) in
    let asked =
      if phase_eq target needs_decision
      then insert "decisionRequest" (Json.obj (fields_of (or_empty options.decision_request))) base
      else base in
    set_if "lastError" Json.str options.last_error
      (set_if "decision" (λ d. d) options.decision asked)

abbrev or_of_run : Option String → String → String
or_of_run none t = t
or_of_run (some t) _ = t

unfoldable pub build_run_event :
    Redaction → Run → RunPhase → RunPhase → RunEventType → RunTransitionOptions → Attempt → RunEvent
unfolding event_payload
build_run_event red run from target type options a = record {
  id = a.event_id;
  run_id = run.id;
  type = type;
  phase = target;
  payload = red.metadata (event_payload from target options);
  trace_id = some (or_of_run options.trace_id run.trace_id);
  redaction_state = none;
  created_at = a.event_time;
}

unfoldable pub answer : Result Transition × Store → Outcome × Store
answer (ok t, s) = (committed t, s)
answer (err e, s) = (rejected (store_error e), s)

module _ (rt : Runtime) (red : Redaction) (id : String) (target : RunPhase)
    (options : RunTransitionOptions) where
  -- The commit that an attempt makes from the run that it has read.
  unfoldable pub commit_from : Run → Attempt → Store → Outcome × Store
  unfolding answer
  commit_from run a s = answer (
      commit_run_transition rt a.store_time id
        (build_run_patch red target options (run.version + 1))
        (build_run_event red run run.phase target (event_type_for_target_phase target) options a)
        (a.others s))

  -- One round of the loop: read, validate, build, commit.
  unfoldable pub attempt_transition : Attempt → Store → Outcome × Store
  attempt_transition a s = elim (get_run id s) [
    | none ↦ (rejected (store_error (run_not_found id)), s)
    | some run ↦ elim (validate_transition run.phase target options) [
      | some e ↦ (rejected e, s)
      | none ↦ commit_from run a s
    ]
  ]

abbrev pub is_conflict : Outcome → Bool
is_conflict (rejected (store_error (concurrent_transition _ _ _))) = true
is_conflict _ = false

module _ (rt : Runtime) (red : Redaction) (id : String) (target : RunPhase)
    (options : RunTransitionOptions) (env : ℕ → Attempt) where
  -- The loop with `k` retries left, at attempt number `n`.
  unfoldable pub transition_loop : ℕ → ℕ → Store → Outcome × Store
  transition_loop zero n s = attempt_transition rt red id target options (env n) s
  transition_loop (suc k) n s =
      let first = attempt_transition rt red id target options (env n) s in
      let rest = transition_loop k (suc n) first.1 in
      elim (is_conflict first.0) [ true ↦ rest | false ↦ first ]

  unfoldable pub transition_run : Store → Outcome × Store
  transition_run s = transition_loop max_transition_retries 0 s

module _ (rt : Runtime) (red : Redaction) (id : String) where
  pub create_decision_request :
      Metadata → RunTransitionOptions → (ℕ → Attempt) → Store → Outcome × Store
  create_decision_request request options env s =
      transition_run rt red id needs_decision (record options { decision_request = some request })
        env s

  pub abort_run : RunTransitionOptions → (ℕ → Attempt) → Store → Outcome × Store
  abort_run options env s =
      let reason = or_of_run options.last_error "Run interrupted by request" in
      transition_run rt red id aborted (record options { last_error = some (red.text reason) }) env
        s

  -- The source's type admits five target phases; the diagram refuses any other.
  unfoldable pub resume_from_decision :
      RunPhase → Option Json → RunTransitionOptions → (ℕ → Attempt) → Store → Outcome × Store
  resume_from_decision target decision options env s = elim decision [
    | none ↦ (rejected decision_required, s)
    | some d ↦ transition_run rt red id target (record options { decision = some d }) env s
  ]
