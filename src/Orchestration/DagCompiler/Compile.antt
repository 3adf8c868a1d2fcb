-- ===== src/Orchestration/DagCompiler/Compile.antt =====
-- The compilation of an accepted plan into a DAG (src/orchestration/dagCompiler.ts). Each id that the
-- maps of node ids are asked for is that of a task, since a missing dependency has been refused. The
-- decision has passed its schema, by which an accepted one has a plan, and the plan its own.
use rector.Prelude.{
  ℕ, String, str_append, Option, none, some, List, [], ◌∷◌, ◌++◌, Metadata, Json, Items, Dict,
  lookup, insert, includes, map, if◌then◌else◌,
}
use rector.Protocol.Event.{Runtime, is_non_empty}
use rector.Protocol.Dag.{DagEdge, DagNode, Dag}
use rector.Orchestration.Planner.{PlannerTask, ApprovalGate, PlannerOutput}
use rector.Orchestration.Crucible.{CrucibleVerdict, CrucibleDecision}
use rector.Orchestration.DagCompiler.{
  CompilerError, Compiled, ok, err, dependency_task_map, topological_tasks, or_none,
}
use rector.Orchestration.DagCompiler.Nodes.{
  task_dag_node, validation_dag_node, timeout_for_plan, risk_text, json_texts, json_number,
  json_object, safe_tool_policy,
}
use rector.Orchestration.DagCompiler.Check.{CompiledDagError, validate_compiled_dag}

pub record DagCompilerInput : Type 0 where
  pub run_id : String
  pub crucible_decision : CrucibleDecision
  pub budget_policy : Option Metadata
  pub now : String

pub data CompilationError : Type 0 where
  schema_error no_accepted_plan : CompilationError
  not_accepted : CrucibleVerdict → CompilationError
  plan_error : CompilerError → CompilationError
  invalid : List CompiledDagError → CompilationError

pub data Compilation : Type 0 where
  done : Dag → Compilation
  failed : CompilationError → Compilation

abbrev pub task_node_id : String → String
task_node_id id = str_append "task:" id

abbrev pub validation_node_id : String → String
validation_node_id id = str_append "validate:" id

abbrev pub dependency_node_ids : Dict (List String) → PlannerTask → List String
dependency_node_ids deps task = map task_node_id (or_none (lookup task.id deps))

unfoldable pub edges_into : String → List String → List DagEdge
edges_into target [] = []
edges_into target (d ∷ ds) = record { from = d; to = target } ∷ edges_into target ds

unfoldable pub task_nodes : Dict (List String) → List PlannerTask → List DagNode
task_nodes deps [] = []
task_nodes deps (t ∷ ts) =
    task_dag_node t (task_node_id t.id) (dependency_node_ids deps t) ∷ task_nodes deps ts

unfoldable pub task_edges : Dict (List String) → List PlannerTask → List DagEdge
task_edges deps [] = []
task_edges deps (t ∷ ts) =
    edges_into (task_node_id t.id) (dependency_node_ids deps t) ++ task_edges deps ts

unfoldable pub validation_nodes : List PlannerTask → List DagNode
validation_nodes [] = []
validation_nodes (t ∷ ts) =
    validation_dag_node t (validation_node_id t.id) (task_node_id t.id) ∷ validation_nodes ts

unfoldable pub validation_edges : List PlannerTask → List DagEdge
validation_edges [] = []
validation_edges (t ∷ ts) =
    record { from = task_node_id t.id; to = validation_node_id t.id } ∷ validation_edges ts

abbrev pub edge_key : DagEdge → String
edge_key e = str_append e.from (str_append "\0" e.to)

unfoldable pub unique_edges : List String → List DagEdge → List DagEdge
unique_edges seen [] = []
unique_edges seen (e ∷ es) =
    let skipped = unique_edges seen es in
    let kept = unique_edges (edge_key e ∷ seen) es in
    if includes (edge_key e) seen then skipped else e ∷ kept

-- `Object.fromEntries`, for ids that are no array indices.
unfoldable pub ids_by_task : (String → String) → List PlannerTask → Metadata → Metadata
ids_by_task f [] m = m
ids_by_task f (t ∷ ts) m = ids_by_task f ts (insert t.id (Json.str (f t.id)) m)

unfoldable pub validation_by_node : List PlannerTask → Metadata → Metadata
validation_by_node [] m = m
validation_by_node (t ∷ ts) m =
    validation_by_node ts (insert (task_node_id t.id) (Json.str (validation_node_id t.id)) m)

abbrev json_values : Metadata → List Json
json_values m = map (λ (e : String × Json). e.1) m

unfoldable pub json_items : List Json → Items
json_items [] = Items.nil
json_items (v ∷ vs) = Items.cons v (json_items vs)

-- `{...base, ...more}`.
unfoldable pub spread : Metadata → Metadata → Metadata
spread base [] = base
spread base ((k, v) ∷ more) = spread (insert k v base) more

abbrev or_no_fields : Option Metadata → Metadata
or_no_fields none = []
or_no_fields (some m) = m

abbrev pub compiled_edges : Dict (List String) → List PlannerTask → List DagEdge
compiled_edges deps ordered = unique_edges [] (task_edges deps ordered ++ validation_edges ordered)

abbrev validation_policy_of : PlannerOutput → Metadata
validation_policy_of plan =
    ("mode", Json.str "per-task-validation")
    ∷ (
      "requiredValidationNodeIds",
      Json.arr (json_items (json_values (ids_by_task validation_node_id plan.tasks []))),
    )
    ∷ ("taskValidationCoverage", json_object (validation_by_node plan.tasks []))
    ∷ ("planLevelChecks", json_texts plan.validation.checks)
    ∷ []

abbrev budget_policy_of : PlannerOutput → Metadata
budget_policy_of plan =
    ("mode", Json.str "local-fake")
    ∷ ("maxUsd", json_number 0)
    ∷ ("maxModelCalls", json_number 0)
    ∷ ("maxRuntimeMs", json_number (timeout_for_plan plan))
    ∷ ("approvalRequiredAboveUsd", json_number 0)
    ∷ ("riskLevel", Json.str (risk_text plan.risk_level))
    ∷ ("approvalGateIds", json_texts (map (λ (g : ApprovalGate). g.id) plan.approval_gates))
    ∷ []

abbrev metadata_of : ℕ → PlannerOutput → Metadata
metadata_of round plan =
    ("compiler", Json.str "dagCompiler")
    ∷ ("compilerVersion", Json.str "0.2.0-chunk-042a")
    ∷ ("crucibleVerdict", Json.str "ACCEPTED")
    ∷ ("crucibleRound", json_number round)
    ∷ ("plannerTaskToDagNode", json_object (ids_by_task task_node_id plan.tasks []))
    ∷ ("validationNodeByPlannerTask", json_object (ids_by_task validation_node_id plan.tasks []))
    ∷ ("toolPolicy", json_object safe_tool_policy)
    ∷ []

abbrev pub dag_of : DagCompilerInput → PlannerOutput → Dict (List String) → List PlannerTask → Dag
dag_of input plan deps ordered = record {
  id = str_append "dag-" input.run_id;
  run_id = input.run_id;
  version = "0.1.0";
  nodes = task_nodes deps ordered ++ validation_nodes ordered;
  edges = compiled_edges deps ordered;
  validation_policy = some (validation_policy_of plan);
  budget_policy = some (spread (budget_policy_of plan) (or_no_fields input.budget_policy));
  metadata = some (metadata_of input.crucible_decision.round plan);
  created_at = input.now;
}

-- `assertValidCompiledDag`.
abbrev pub asserted : List CompiledDagError → Dag → Compilation
asserted [] dag = done dag
asserted (e ∷ es) dag = failed (invalid (e ∷ es))

abbrev pub compile_ordered :
    Runtime
    → (Json → String)
    → DagCompilerInput
    → PlannerOutput
    → Dict (List String)
    → Compiled (List PlannerTask)
    → Compilation
compile_ordered rt string_of input plan deps (err e) = failed (plan_error e)
compile_ordered rt string_of input plan deps (ok ordered) =
    let dag = dag_of input plan deps ordered in
    asserted (validate_compiled_dag rt string_of dag) dag

abbrev pub compile_with :
    Runtime
    → (Json → String)
    → DagCompilerInput
    → PlannerOutput
    → Compiled (Dict (List String))
    → Compilation
compile_with rt string_of input plan (err e) = failed (plan_error e)
compile_with rt string_of input plan (ok deps) =
    compile_ordered rt string_of input plan deps (topological_tasks plan.tasks deps)

abbrev pub compile_plan :
    Runtime
    → (Json → String)
    → DagCompilerInput
    → CrucibleVerdict
    → Option PlannerOutput
    → Compilation
compile_plan rt string_of input CrucibleVerdict.accepted none = failed no_accepted_plan
compile_plan rt string_of input CrucibleVerdict.accepted (some plan) =
    compile_with rt string_of input plan (dependency_task_map plan)
compile_plan rt string_of input CrucibleVerdict.needs_revision plan =
    failed (not_accepted CrucibleVerdict.needs_revision)
compile_plan rt string_of input CrucibleVerdict.escalated plan =
    failed (not_accepted CrucibleVerdict.escalated)
compile_plan rt string_of input CrucibleVerdict.plan_blocked plan =
    failed (not_accepted CrucibleVerdict.plan_blocked)

unfoldable pub compile_accepted_plan_to_dag :
    Runtime → (Json → String) → DagCompilerInput → Compilation
compile_accepted_plan_to_dag rt string_of input =
    if is_non_empty input.run_id
    then compile_plan rt string_of input input.crucible_decision.verdict
        input.crucible_decision.accepted_plan
    else failed schema_error
