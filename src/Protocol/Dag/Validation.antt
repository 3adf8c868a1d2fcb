-- ===== src/Protocol/Dag/Validation.antt =====
-- The validation of a DAG (src/protocol/dag.ts), and what a DAG without errors is like.
use rector.Prelude.{
  ℕ, Bool, true, false, not, ◌&&◌, String, Option, none, some, List, [], ◌∷◌, ◌++◌, Dict, lookup,
  insert, includes, all, map, All, ◌≡◌, ◌≢◌, refl, arith, eq_iff, if◌then◌else◌, ltb, leb, str_eq,
}
use rector.Protocol.Event.{Runtime, is_non_empty, is_optional_text}
use rector.Protocol.Dag.{
  RetryPolicy, DagEdge, DagNode, Dag, DagError, schema_issue, timeout_not_positive,
  attempts_not_positive, max_backoff_below_backoff, duplicate_node, self_loop,
  missing_dependency_of_edge, missing_node_of_edge, missing_dependency, cycle_detected, set_add,
  has_cycle,
}
use rector.Protocol.Dag.Cycle.{Way, has_cycle_iff}

abbrev is_retry_policy : Option RetryPolicy → Bool
is_retry_policy none = true
is_retry_policy (some p) = leb 1 p.max_attempts

abbrev is_timeout : Option ℕ → Bool
is_timeout none = true
is_timeout (some n) = ltb 0 n

abbrev is_dag_node : DagNode → Bool
is_dag_node n =
    is_non_empty n.id
    && is_optional_text n.label
    && all is_non_empty n.depends_on
    && is_optional_text n.provider
    && all is_non_empty n.tool_permissions
    && all is_non_empty n.expected_outputs
    && is_retry_policy n.retry_policy
    && is_timeout n.timeout_ms

abbrev is_dag_edge : DagEdge → Bool
is_dag_edge e = is_non_empty e.from && is_non_empty e.to

-- What `DagSchema` asks of a value of the right types.
unfoldable pub is_dag : Runtime → Dag → Bool
is_dag rt d =
    is_non_empty d.id
    && is_non_empty d.run_id
    && is_non_empty d.version
    && all is_dag_node d.nodes
    && all is_dag_edge d.edges
    && rt.is_datetime d.created_at

abbrev timeout_errors : String → Option ℕ → List DagError
timeout_errors id none = []
timeout_errors id (some n) = if leb n 0 then timeout_not_positive id ∷ [] else []

abbrev backoff_errors : String → ℕ → Option ℕ → List DagError
backoff_errors id backoff none = []
backoff_errors id backoff (some most) =
    if ltb most backoff then max_backoff_below_backoff id ∷ [] else []

abbrev retry_errors : String → Option RetryPolicy → List DagError
retry_errors id none = []
retry_errors id (some p) =
    (if leb p.max_attempts 0 then attempts_not_positive id ∷ [] else [])
    ++ backoff_errors id p.backoff_ms p.max_backoff_ms

abbrev pub validate_node_runtime_policy : DagNode → List DagError
validate_node_runtime_policy n =
    timeout_errors n.id n.timeout_ms ++ retry_errors n.id n.retry_policy

unfoldable pub policy_errors : List DagNode → List DagError
policy_errors [] = []
policy_errors (n ∷ ns) = validate_node_runtime_policy n ++ policy_errors ns

-- `nodeIds` and `duplicateIds` after the loop over the nodes.
unfoldable pub node_ids : List String → List DagNode → List String
node_ids ids [] = ids
node_ids ids (n ∷ ns) = node_ids (set_add n.id ids) ns

unfoldable pub duplicate_ids : List String → List String → List DagNode → List String
duplicate_ids ids found [] = found
duplicate_ids ids found (n ∷ ns) =
    duplicate_ids (set_add n.id ids) (if includes n.id ids then set_add n.id found else found) ns

abbrev pub Graph : Type 0
Graph = Dict (List String)

-- `new Set(dependencies)`.
unfoldable pub set_of : List String → List String → List String
set_of held [] = held
set_of held (d ∷ ds) = set_of (set_add d held) ds

unfoldable pub declared : Graph → List DagNode → Graph
declared graph [] = graph
declared graph (n ∷ ns) = declared (insert n.id (set_of [] n.depends_on) graph) ns

abbrev pub added : String → String → Option (List String) → Graph → Graph
added from to none graph = graph
added from to (some ds) graph = insert to (set_add from ds) graph

abbrev pub edge_errors_of : List String → DagEdge → List DagError
edge_errors_of ids e =
    if str_eq e.from e.to
    then self_loop e.from ∷ []
    else if not (includes e.from ids)
    then missing_dependency_of_edge e.from ∷ []
    else if not (includes e.to ids)
    then missing_node_of_edge e.to ∷ []
    else []

abbrev pub is_nil {ℓ} : {A : Type ℓ} → List A → Bool
is_nil [] = true
is_nil (x ∷ xs) = false

unfoldable pub edge_errors : List String → List DagEdge → List DagError
edge_errors ids [] = []
edge_errors ids (e ∷ es) = edge_errors_of ids e ++ edge_errors ids es

-- The edges that have no error count as dependencies too.
unfoldable pub linked : List String → Graph → List DagEdge → Graph
linked ids graph [] = graph
linked ids graph (e ∷ es) =
    linked ids
      (if is_nil (edge_errors_of ids e) then added e.from e.to (lookup e.to graph) graph else graph)
      es

abbrev pub dependencies_by_node : Dag → Graph
dependencies_by_node d = linked (node_ids [] d.nodes) (declared [] d.nodes) d.edges

unfoldable pub missing_of : List String → String → List String → List DagError
missing_of ids id [] = []
missing_of ids id (d ∷ ds) =
    (if includes d ids then [] else missing_dependency id d ∷ []) ++ missing_of ids id ds

unfoldable pub missing_dependencies : List String → Graph → List DagError
missing_dependencies ids [] = []
missing_dependencies ids ((id, ds) ∷ graph) = missing_of ids id ds ++ missing_dependencies ids graph

abbrev pub dag_errors : Dag → List DagError
dag_errors d =
    let ids = node_ids [] d.nodes in
    policy_errors d.nodes
    ++ (map duplicate_node (duplicate_ids [] [] d.nodes)
        ++ (edge_errors ids d.edges
            ++ (missing_dependencies ids (dependencies_by_node d)
                ++ (if has_cycle (dependencies_by_node d) then cycle_detected ∷ [] else []))))

-- The errors of `validateDag`; the DAG is valid if there are none.
unfoldable pub validate_dag : Runtime → Dag → List DagError
unfolding is_dag
validate_dag rt d = if is_dag rt d then dag_errors d else schema_issue ∷ []

pub append-nil_left {ℓ} : {A : Type ℓ} (xs ys : List A) → xs ++ ys ≡ [] → (xs ≡ []) × (ys ≡ [])
append-nil_left [] ys e = (refl, e)
append-nil_left (x ∷ xs) ys e = cc

abbrev pub IsLinked : List String → DagEdge → Type 0
IsLinked ids e = (e.from ≢ e.to) × (includes e.from ids ≡ true) × (includes e.to ids ≡ true)

edge-IsLinked : (ids : List String) (e : DagEdge) → edge_errors_of ids e ≡ [] → IsLinked ids e
edge-IsLinked ids e h =
    (λ same. cc (rw ((eq_iff e.from e.to).1 same) at h), ground arith, ground arith)

edges-IsLinked :
    (ids : List String) (es : List DagEdge) → edge_errors ids es ≡ [] → All (IsLinked ids) es
unfolding edge_errors
edges-IsLinked ids [] h = tt
edges-IsLinked ids (e ∷ es) h =
    let parts = append-nil_left (edge_errors_of ids e) (edge_errors ids es) h in
    (edge-IsLinked ids e parts.0, edges-IsLinked ids es parts.1)

missing_of-nil :
    (ids : List String) (id : String) (ds : List String)
    → missing_of ids id ds ≡ []
    → All (λ d. includes d ids ≡ true) ds
unfolding missing_of
missing_of-nil ids id [] h = tt
missing_of-nil ids id (d ∷ ds) h =
    let parts =
      append-nil_left (if includes d ids then [] else missing_dependency id d ∷ [])
        (missing_of ids id ds) h in
    (ground (arith, parts.0), missing_of-nil ids id ds parts.1)

missing_dependencies-nil :
    (ids : List String) (graph : Graph)
    → missing_dependencies ids graph ≡ []
    → All (λ (e : String × List String). All (λ d. includes d ids ≡ true) e.1) graph
unfolding missing_dependencies
missing_dependencies-nil ids [] h = tt
missing_dependencies-nil ids ((id, ds) ∷ graph) h =
    let parts = append-nil_left (missing_of ids id ds) (missing_dependencies ids graph) h in
    (missing_of-nil ids id ds parts.0, missing_dependencies-nil ids graph parts.1)

map-nil {ℓ} : {A B : Type ℓ} (f : A → B) (xs : List A) → map f xs ≡ [] → xs ≡ []
map-nil f [] e = refl
map-nil f (x ∷ xs) e = cc

-- The four lists of errors that have to be empty.
pub validate_dag_parts :
    (rt : Runtime) (d : Dag)
    → validate_dag rt d ≡ []
    → (duplicate_ids [] [] d.nodes ≡ [])
      × (edge_errors (node_ids [] d.nodes) d.edges ≡ [])
      × (missing_dependencies (node_ids [] d.nodes) (dependencies_by_node d) ≡ [])
      × ((if has_cycle (dependencies_by_node d) then cycle_detected ∷ [] else []) ≡ [])
unfolding validate_dag
validate_dag_parts rt d h =
    let ids = node_ids [] d.nodes in
    let graph = dependencies_by_node d in
    let loop : List DagError = if has_cycle graph then cycle_detected ∷ [] else [] in
    let missing = missing_dependencies ids graph ++ loop in
    let errors : dag_errors d ≡ [] = ground (arith, h) in
    let a =
      append-nil_left (policy_errors d.nodes)
        (map duplicate_node (duplicate_ids [] [] d.nodes) ++ (edge_errors ids d.edges ++ missing))
        errors in
    let b =
      append-nil_left (map duplicate_node (duplicate_ids [] [] d.nodes))
        (edge_errors ids d.edges ++ missing) a.1 in
    let c = append-nil_left (edge_errors ids d.edges) missing b.1 in
    let f = append-nil_left (missing_dependencies ids graph) loop c.1 in
    (map-nil duplicate_node (duplicate_ids [] [] d.nodes) b.0, c.0, f.0, f.1)

-- The edges, the dependencies that the code collects, and their ways.
pub validate_dag_sound :
    (rt : Runtime) (d : Dag) (x : String)
    → validate_dag rt d ≡ []
    → All (IsLinked (node_ids [] d.nodes)) d.edges
      × All
          (λ (e : String × List String). All (λ t. includes t (node_ids [] d.nodes) ≡ true) e.1)
          (dependencies_by_node d)
      × (¬ Way (dependencies_by_node d) x x)
validate_dag_sound rt d x h =
    let ids = node_ids [] d.nodes in
    let graph = dependencies_by_node d in
    let parts = validate_dag_parts rt d h in
    (
      edges-IsLinked ids d.edges parts.1,
      missing_dependencies-nil ids graph parts.2,
      λ w. cc (rw ((has_cycle_iff graph).1 ∣ (x, w) ∣₁) at parts.3),
    )
