-- ===== src/Orchestration/DagCompiler/Nodes.antt =====
-- The nodes that the DAG compiler makes of a task (src/orchestration/dagCompiler.ts). A value that is
-- `undefined` stands as such in a node's metadata.
use rector.Prelude.{
  ℕ, ◌+◌, ◌*◌, max, Bool, true, false, not, ◌&&◌, ◌||◌, String, str_append, Option, none, some,
  List, [], ◌∷◌, Metadata, Json, Items, Num, fields_of, lower, occurs, if◌then◌else◌,
}
use rector.Protocol.Dag.{DagNodeType, llm_execution, file_operation, RetryPolicy, DagNode}
use rector.Orchestration.Planner.{PlannerRiskLevel, PlannerTask, PlannerOutput}

abbrev pub unsafe_shell_permission : String
unsafe_shell_permission = "unsafe.shell"

abbrev safe_fake_permission : String
safe_fake_permission = "fake.local"

abbrev denied_tool_permissions : List String
denied_tool_permissions = unsafe_shell_permission ∷ "shell" ∷ "shell.command" ∷ []

unfoldable pub items_of : List String → Items
items_of [] = Items.nil
items_of (s ∷ ss) = Items.cons (Json.str s) (items_of ss)

abbrev pub json_texts : List String → Json
json_texts ss = Json.arr (items_of ss)

abbrev pub json_number : ℕ → Json
json_number n = Json.num (Num.fin (1000000 * n))

abbrev pub json_object : Metadata → Json
json_object m = Json.obj (fields_of m)

abbrev pub risk_text : PlannerRiskLevel → String
risk_text PlannerRiskLevel.low = "low"
risk_text PlannerRiskLevel.medium = "medium"
risk_text PlannerRiskLevel.high = "high"
risk_text PlannerRiskLevel.destructive = "destructive"

abbrev type_text : DagNodeType → String
type_text DagNodeType.llm_execution = "LLM_EXECUTION"
type_text DagNodeType.validation = "VALIDATION"
type_text DagNodeType.file_operation = "FILE_OPERATION"
type_text DagNodeType.shell_command = "SHELL_COMMAND"
type_text DagNodeType.merge = "MERGE"
type_text DagNodeType.conditional = "CONDITIONAL"

abbrev is_file_operation : DagNodeType → Bool
is_file_operation DagNodeType.file_operation = true
is_file_operation _ = false

unfoldable pub node_type_for_task : PlannerTask → DagNodeType
node_type_for_task task =
    let text = lower (
      str_append task.id
        (str_append " " (str_append task.title (str_append " " task.description)))) in
    if occurs (lower "edit") text || occurs (lower "file") text || occurs (lower "code change") text
    then file_operation
    else llm_execution

abbrev pub tool_permissions_for : DagNodeType → List String
tool_permissions_for DagNodeType.file_operation =
    safe_fake_permission ∷ "local.file.proposed-write" ∷ []
tool_permissions_for DagNodeType.validation = safe_fake_permission ∷ "local.validation" ∷ []
tool_permissions_for _ = safe_fake_permission ∷ []

abbrev pub safe_tool_policy : Metadata
safe_tool_policy =
    ("default", Json.str "deny")
    ∷ (
      "allowed",
      json_texts (safe_fake_permission ∷ "local.file.proposed-write" ∷ "local.validation" ∷ []),
    )
    ∷ ("denied", json_texts denied_tool_permissions)
    ∷ ("allowUnsafeShell", Json.bool false)
    ∷ []

abbrev pub capability_policy_for : DagNodeType → PlannerTask → Metadata
capability_policy_for type task =
    ("default", Json.str "deny")
    ∷ ("nodeType", Json.str (type_text type))
    ∷ ("plannerTaskId", Json.str task.id)
    ∷ ("allowFileWrite", Json.bool (is_file_operation type && not task.approval_required))
    ∷ ("allowProposedPatch", Json.bool (is_file_operation type))
    ∷ ("allowShell", Json.bool false)
    ∷ ("approvalRequired", Json.bool task.approval_required)
    ∷ ("risk", Json.str (risk_text task.risk))
    ∷ []

abbrev pub is_risky : PlannerRiskLevel → Bool
is_risky PlannerRiskLevel.high = true
is_risky PlannerRiskLevel.destructive = true
is_risky _ = false

abbrev pub rollback_hint_for : PlannerTask → Json
rollback_hint_for task =
    if is_risky task.risk || task.approval_required
    then Json.str (
        str_append
          "Capture pre-change artifact handles and require explicit cleanup/rollback notes for planner task "
          (str_append task.id "."))
    else Json.undefined

abbrev pub retry_policy_for : PlannerRiskLevel → RetryPolicy
retry_policy_for PlannerRiskLevel.low = record {
  max_attempts = 2;
  backoff_ms = 50;
  max_backoff_ms = some 250;
}
retry_policy_for PlannerRiskLevel.medium = record {
  max_attempts = 2;
  backoff_ms = 100;
  max_backoff_ms = some 500;
}
retry_policy_for PlannerRiskLevel.high = record {
  max_attempts = 1;
  backoff_ms = 0;
  max_backoff_ms = none;
}
retry_policy_for PlannerRiskLevel.destructive = record {
  max_attempts = 1;
  backoff_ms = 0;
  max_backoff_ms = none;
}

abbrev pub timeout_for_risk : PlannerRiskLevel → ℕ
timeout_for_risk PlannerRiskLevel.destructive = 120000
timeout_for_risk PlannerRiskLevel.high = 120000
timeout_for_risk PlannerRiskLevel.medium = 60000
timeout_for_risk PlannerRiskLevel.low = 30000

unfoldable pub sum_of_timeouts : List PlannerTask → ℕ
sum_of_timeouts [] = 0
sum_of_timeouts (t ∷ ts) = timeout_for_risk t.risk + 15000 + sum_of_timeouts ts

abbrev pub timeout_for_plan : PlannerOutput → ℕ
timeout_for_plan plan = max 1000 (sum_of_timeouts plan.tasks)

abbrev backoff_fields : Option ℕ → Metadata
backoff_fields none = []
backoff_fields (some n) = ("maxBackoffMs", json_number n) ∷ []

abbrev json_retry : RetryPolicy → Json
json_retry p = json_object (
    ("maxAttempts", json_number p.max_attempts)
    ∷ ("backoffMs", json_number p.backoff_ms)
    ∷ backoff_fields p.max_backoff_ms)

abbrev timeout_policy : ℕ → RetryPolicy → Json
timeout_policy ms retry =
    json_object (("timeoutMs", json_number ms) ∷ ("retryPolicy", json_retry retry) ∷ [])

abbrev pub task_dag_node : PlannerTask → String → List String → DagNode
task_dag_node task id depends_on =
    let type = node_type_for_task task in
    record {
      id = id;
      type = type;
      label = some task.title;
      depends_on = depends_on;
      provider = none;
      tool_permissions = tool_permissions_for type;
      input = some (
          ("plannerTaskId", Json.str task.id)
          ∷ ("title", Json.str task.title)
          ∷ ("description", Json.str task.description)
          ∷ ("expectedArtifacts", json_texts task.expected_artifacts)
          ∷ ("approvalRequired", Json.bool task.approval_required)
          ∷ ("risk", Json.str (risk_text task.risk))
          ∷ []);
      expected_outputs = task.expected_artifacts;
      retry_policy = some (retry_policy_for task.risk);
      timeout_ms = some (timeout_for_risk task.risk);
      metadata = some (
          ("kind", Json.str "planner-task")
          ∷ ("plannerTaskId", Json.str task.id)
          ∷ ("risk", Json.str (risk_text task.risk))
          ∷ ("approvalRequired", Json.bool task.approval_required)
          ∷ ("toolPolicy", json_object safe_tool_policy)
          ∷ ("capabilityPolicy", json_object (capability_policy_for type task))
          ∷ (
            "timeoutPolicy",
            timeout_policy (timeout_for_risk task.risk) (retry_policy_for task.risk),
          )
          ∷ ("rollbackHint", rollback_hint_for task)
          ∷ (
            "validationContract",
            json_object (
                ("required", Json.bool true)
                ∷ ("checks", json_texts task.validation)
                ∷ ("expectedArtifacts", json_texts task.expected_artifacts)
                ∷ []),
          )
          ∷ []);
    }

abbrev single_try : RetryPolicy
single_try = record { max_attempts = 1; backoff_ms = 0; max_backoff_ms = none }

abbrev pub validation_dag_node : PlannerTask → String → String → DagNode
validation_dag_node task id task_node_id = record {
  id = id;
  type = DagNodeType.validation;
  label = some (str_append "Validate " task.title);
  depends_on = task_node_id ∷ [];
  provider = none;
  tool_permissions = safe_fake_permission ∷ "local.validation" ∷ [];
  input = some (
      ("plannerTaskId", Json.str task.id)
      ∷ ("targetNodeId", Json.str task_node_id)
      ∷ ("checks", json_texts task.validation)
      ∷ ("expectedArtifacts", json_texts task.expected_artifacts)
      ∷ []);
  expected_outputs = str_append "Validation result for " task.id ∷ [];
  retry_policy = some single_try;
  timeout_ms = some 15000;
  metadata = some (
      ("kind", Json.str "task-validation")
      ∷ ("plannerTaskId", Json.str task.id)
      ∷ ("targetNodeId", Json.str task_node_id)
      ∷ ("toolPolicy", json_object safe_tool_policy)
      ∷ (
        "validationContract",
        json_object (
            ("required", Json.bool true)
            ∷ ("targetNodeId", Json.str task_node_id)
            ∷ ("checks", json_texts task.validation)
            ∷ ("expectedArtifacts", json_texts task.expected_artifacts)
            ∷ []),
      )
      ∷ ("timeoutPolicy", timeout_policy 15000 single_try)
      ∷ []);
}
