-- ===== src/Orchestration/DagCompiler/Guarantees.antt =====
-- What a DAG that the compiler returns is like (src/orchestration/dagCompiler.ts).
use rector.Prelude.{false, String, [], Json, All, ◌≡◌, ◌≢◌, Member, occurs, lower}
use rector.Protocol.Event.{Runtime}
use rector.Protocol.Dag.{shell_command, DagEdge, DagNode, Dag}
use rector.Orchestration.DagCompiler.Check.{validate_compiled_dag}

module _ (rt : Runtime) (string_of : Json → String) where
  abbrev Valid : Dag → Type 0
  Valid dag = validate_compiled_dag rt string_of dag ≡ []

-- A node is no shell command and no permission of it speaks of a shell; each of its dependencies has an
-- edge to it.
abbrev pub IsGoverned : Dag → DagNode → Type 0
IsGoverned dag n =
    (n.type ≢ shell_command)
    × All (λ p. occurs (lower "shell") (lower p) ≡ false) n.tool_permissions
    × All (λ d. (e : DagEdge) × Member e dag.edges × (e.from ≡ d) × (e.to ≡ n.id)) n.depends_on
