-- ===== src/Orchestration/DagCompiler/Runs.antt =====
-- A run of the whole compiler (src/orchestration/dagCompiler.ts).
use rector.Prelude.{true, false, String, none, some, List, [], ◌∷◌, Dict, Json}
use rector.Protocol.Event.{Runtime}
use rector.Protocol.Dag.{Dag}
use rector.Protocol.Dag.Validation.{dependencies_by_node}
use rector.Orchestration.Planner.{PlannerRiskLevel, PlannerTask, PlannerOutput}
use rector.Orchestration.Crucible.{CrucibleVerdict, CrucibleReasonCode, CrucibleDecision}
use rector.Orchestration.DagCompiler.Compile.{DagCompilerInput, dag_of}

abbrev rt : Runtime
rt = record { is_datetime = λ _. true; text_length = λ _. 1; json_length = λ _. 1 }

abbrev text_of : Json → String
text_of v = "[object Object]"

abbrev task : String → List String → PlannerTask
task id dependencies = record {
  id = id;
  title = "Task";
  description = "Does it";
  dependencies = dependencies;
  expected_artifacts = "report" ∷ [];
  validation = "tests pass" ∷ [];
  risk = PlannerRiskLevel.low;
  approval_required = false;
}

abbrev two_steps : PlannerOutput
two_steps = record {
  goal = "Ship";
  assumptions = [];
  tasks = task "b" ("a" ∷ []) ∷ task "a" [] ∷ [];
  dependencies = [];
  validation = record { summary = "All checks"; checks = "tests pass" ∷ [] };
  risk_level = PlannerRiskLevel.low;
  approval_gates = [];
  requested_skills = [];
}

abbrev accepted_decision : CrucibleDecision
accepted_decision = record {
  verdict = CrucibleVerdict.accepted;
  reason = "Sound";
  accepted_plan = some two_steps;
  revision_request = none;
  escalation = none;
  blocker_findings = [];
  round = 1;
  created_at = "2026-01-01T00:00:00.000Z";
  trace = record {
    reason_code = CrucibleReasonCode.sound_review_accepted;
    targeted_finding_ids = [];
    repairable = false;
    human_decision_required = false;
    exhausted_rounds = false;
    skill_activation = [];
  };
}

abbrev request : DagCompilerInput
request = record {
  run_id = "run-1";
  crucible_decision = accepted_decision;
  budget_policy = none;
  now = "2026-01-01T00:00:00.000Z";
}

abbrev two_steps_deps : Dict (List String)
two_steps_deps = ("b", "a" ∷ []) ∷ ("a", []) ∷ []

abbrev two_steps_order : List PlannerTask
two_steps_order = task "a" [] ∷ task "b" ("a" ∷ []) ∷ []

abbrev two_steps_dag : Dag
two_steps_dag = dag_of request two_steps two_steps_deps two_steps_order

abbrev task_a : String
task_a = "task:a"

abbrev task_b : String
task_b = "task:b"
