-- ===== src/Orchestration/DagCompiler/Check.antt =====
-- The validation of a compiled DAG (src/orchestration/dagCompiler.ts). A value is read at a key of an
-- object, and is `undefined` elsewhere; `String` of a value that is no text is an argument.
use rector.Prelude.{
  ℕ, suc, Bool, true, false, not, ◌&&◌, ◌||◌, String, Option, none, some, List, [], ◌∷◌, ◌++◌, Dict,
  Metadata, Json, Items, Fields, Num, lookup, insert, includes, keep_if, any, map, lower, occurs,
  same_text, if◌then◌else◌, ltb, str_eq,
}
use rector.Protocol.Event.{Runtime}
use rector.Protocol.Dag.{DagNodeType, DagEdge, DagNode, Dag, DagError}
use rector.Protocol.Dag.Validation.{is_dag, validate_dag}
use rector.Orchestration.DagCompiler.Nodes.{unsafe_shell_permission}

pub data CompiledDagError : Type 0 where
  dag_error : DagError → CompiledDagError
  unsafe_shell_allowed unsafe_shell_not_denied missing_metadata : String → CompiledDagError
  missing_timeout_policy missing_validation_contract missing_contract : String → CompiledDagError
  missing_rollback_hint missing_capability_policy lacks_validation : String → CompiledDagError
  lacks_edge order_violated : String → String → CompiledDagError

unfoldable pub field_at : String → Fields → Json
field_at key Fields.end = Json.undefined
field_at key (Fields.field k v fields) =
    let rest = field_at key fields in if str_eq k key then v else rest

-- `recordFrom(value)?.key`.
abbrev pub at : String → Json → Json
at key (Json.obj fields) = field_at key fields
at key _ = Json.undefined

abbrev is_object : Json → Bool
is_object (Json.obj fields) = true
is_object _ = false

abbrev or_undefined : Option Json → Json
or_undefined none = Json.undefined
or_undefined (some v) = v

abbrev pub metadata_at : String → DagNode → Json
metadata_at key node = elim node.metadata [
  | none ↦ Json.undefined
  | some m ↦ or_undefined (lookup key m)
]

abbrev pub input_at : String → DagNode → Json
input_at key node = elim node.input [ none ↦ Json.undefined | some m ↦ or_undefined (lookup key m) ]

abbrev is_true : Json → Bool
is_true (Json.bool b) = b
is_true _ = false

abbrev is_false : Json → Bool
is_false (Json.bool b) = not b
is_false _ = false

abbrev is_text : String → Json → Bool
is_text s (Json.str t) = str_eq t s
is_text s _ = false

abbrev is_some_text : Json → Bool
is_some_text (Json.str t) = true
is_some_text _ = false

abbrev is_positive : Json → Bool
is_positive (Json.num (Num.fin n)) = ltb 0 n
is_positive (Json.num Num.infinity) = true
is_positive (Json.num Num.nan) = true
is_positive _ = false

abbrev is_filled : Json → Bool
is_filled (Json.arr (Items.cons v vs)) = true
is_filled _ = false

abbrev as_text : (Json → String) → Json → String
as_text string_of (Json.str s) = s
as_text string_of v = string_of v

unfoldable pub any_denied : (Json → String) → Items → Bool
any_denied string_of Items.nil = false
any_denied string_of (Items.cons v vs) =
    same_text (lower (as_text string_of v)) (lower unsafe_shell_permission)
    || any_denied string_of vs

abbrev denies_unsafe : (Json → String) → Json → Bool
denies_unsafe string_of (Json.arr vs) = any_denied string_of vs
denies_unsafe string_of _ = false

abbrev is_shell_command : DagNodeType → Bool
is_shell_command DagNodeType.shell_command = true
is_shell_command _ = false

abbrev is_validation : DagNodeType → Bool
is_validation DagNodeType.validation = true
is_validation _ = false

abbrev pub asks_for_shell : DagNode → Bool
asks_for_shell node =
    is_shell_command node.type
    || any (λ p. occurs (lower "shell") (lower p)) node.tool_permissions
    || is_true (at "allowUnsafeShell" (metadata_at "toolPolicy" node))

abbrev pub error_if : Bool → CompiledDagError → List CompiledDagError
error_if wrong e = if wrong then e ∷ [] else []

abbrev pub validate_unsafe_shell_denied : (Json → String) → DagNode → List CompiledDagError
validate_unsafe_shell_denied string_of node =
    error_if (asks_for_shell node) (unsafe_shell_allowed node.id)
    ++ error_if (not (denies_unsafe string_of (at "denied" (metadata_at "toolPolicy" node))))
        (unsafe_shell_not_denied node.id)

abbrev pub is_planner_task_node : DagNode → Bool
is_planner_task_node node = is_text "planner-task" (metadata_at "kind" node)

-- Whether the contract is there, required and with checks.
abbrev has_contract : DagNode → Bool
has_contract node =
    let contract = metadata_at "validationContract" node in
    is_object contract && is_true (at "required" contract) && is_filled (at "checks" contract)

abbrev risk_of : DagNode → Json
risk_of node =
    if is_some_text (input_at "risk" node) then input_at "risk" node else metadata_at "risk" node

abbrev is_risky_node : DagNode → Bool
is_risky_node node =
    is_text "high" (risk_of node)
    || is_text "destructive" (risk_of node)
    || is_true (input_at "approvalRequired" node)

abbrev has_capability_policy : DagNode → Bool
has_capability_policy node =
    let policy = metadata_at "capabilityPolicy" node in
    is_object policy && is_text "deny" (at "default" policy) && is_false (at "allowShell" policy)

abbrev task_metadata_errors : DagNode → List CompiledDagError
task_metadata_errors node =
    error_if (not (has_contract node)) (missing_contract node.id)
    ++ (error_if (is_risky_node node && not (is_some_text (metadata_at "rollbackHint" node)))
          (missing_rollback_hint node.id)
        ++ error_if (not (has_capability_policy node)) (missing_capability_policy node.id))

abbrev has_metadata : Option Metadata → Bool
has_metadata none = false
has_metadata (some m) = true

abbrev pub validate_node_policy_metadata : DagNode → List CompiledDagError
validate_node_policy_metadata node =
    if not (has_metadata node.metadata)
    then missing_metadata node.id ∷ []
    else error_if (not (is_positive (at "timeoutMs" (metadata_at "timeoutPolicy" node))))
        (missing_timeout_policy node.id)
      ++ (error_if (is_validation node.type && not (has_contract node))
            (missing_validation_contract node.id)
          ++ (if is_planner_task_node node then task_metadata_errors node else []))

-- The targets of the edges that leave a node.
unfoldable pub covered : List DagEdge → String → List String
covered [] from = []
covered (e ∷ es) from =
    let rest = covered es from in if str_eq e.from from then e.to ∷ rest else rest

unfoldable pub node_order : ℕ → List DagNode → Dict ℕ → Dict ℕ
node_order index [] order = order
node_order index (n ∷ ns) order = node_order (suc index) ns (insert n.id index order)

abbrev is_after : Option ℕ → Option ℕ → Bool
is_after (some a) (some b) = ltb b a
is_after _ _ = false

unfoldable pub dependency_errors : Dag → DagNode → List String → List CompiledDagError
dependency_errors dag node [] = []
dependency_errors dag node (d ∷ ds) =
    let order = node_order 0 dag.nodes [] in
    error_if (not (includes node.id (covered dag.edges d))) (lacks_edge node.id d)
    ++ (error_if (is_after (lookup d order) (lookup node.id order)) (order_violated node.id d)
        ++ dependency_errors dag node ds)

abbrev pub validate_explicit_dependency_edges : Dag → DagNode → List CompiledDagError
validate_explicit_dependency_edges dag node = dependency_errors dag node node.depends_on

abbrev pub has_validation_coverage : Dag → DagNode → Bool
has_validation_coverage dag node =
    any
      (λ (v : DagNode). includes node.id v.depends_on || includes v.id (covered dag.edges node.id))
      (keep_if (λ (v : DagNode). is_validation v.type) dag.nodes)

abbrev pub validate_planner_task_coverage : Dag → DagNode → List CompiledDagError
validate_planner_task_coverage dag node =
    error_if (is_planner_task_node node && not (has_validation_coverage dag node))
      (lacks_validation node.id)

abbrev pub validate_compiled_dag_node : (Json → String) → Dag → DagNode → List CompiledDagError
validate_compiled_dag_node string_of dag node =
    validate_unsafe_shell_denied string_of node
    ++ (validate_node_policy_metadata node
        ++ (validate_explicit_dependency_edges dag node ++ validate_planner_task_coverage dag node))

unfoldable pub node_errors : (Json → String) → Dag → List DagNode → List CompiledDagError
node_errors string_of dag [] = []
node_errors string_of dag (n ∷ ns) =
    validate_compiled_dag_node string_of dag n ++ node_errors string_of dag ns

unfoldable pub validate_compiled_dag : Runtime → (Json → String) → Dag → List CompiledDagError
validate_compiled_dag rt string_of dag =
    map dag_error (validate_dag rt dag)
    ++ (if is_dag rt dag then node_errors string_of dag dag.nodes else [])
