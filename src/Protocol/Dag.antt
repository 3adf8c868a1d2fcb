-- ===== src/Protocol/Dag.antt =====
-- DAGs of a run and their validation (src/protocol/dag.ts). A DAG here has the types of `DagSchema`;
-- the texts of the schema's issues are one error.
pub mod Cycle
pub mod Validation
pub mod Dependencies
pub mod Acyclic
mod Tests
use rector.Prelude.{
  ℕ, zero, suc, ◌+◌, Bool, true, false, not, ◌&&◌, ◌||◌, String, Option, none, some, List, [], ◌∷◌,
  ◌++◌, map, Dict, lookup, insert, has, includes, keep_if, length, all, Metadata, if◌then◌else◌,
  ltb, leb, str_eq,
}

pub data DagNodeType : Type 0 where
  llm_execution validation file_operation shell_command merge conditional : DagNodeType

pub record RetryPolicy : Type 0 where
  pub max_attempts : ℕ
  pub backoff_ms : ℕ
  pub max_backoff_ms : Option ℕ

pub record DagEdge : Type 0 where
  pub from : String
  pub to : String

pub record DagNode : Type 0 where
  pub id : String
  pub type : DagNodeType
  pub label : Option String
  pub depends_on : List String
  pub provider : Option String
  pub tool_permissions : List String
  pub input : Option Metadata
  pub expected_outputs : List String
  pub retry_policy : Option RetryPolicy
  pub timeout_ms : Option ℕ
  pub metadata : Option Metadata

pub record Dag : Type 0 where
  pub id : String
  pub run_id : String
  pub version : String
  pub nodes : List DagNode
  pub edges : List DagEdge
  pub validation_policy : Option Metadata
  pub budget_policy : Option Metadata
  pub metadata : Option Metadata
  pub created_at : String

pub data DagError : Type 0 where
  schema_issue : DagError
  timeout_not_positive attempts_not_positive max_backoff_below_backoff : String → DagError
  duplicate_node self_loop missing_dependency_of_edge missing_node_of_edge : String → DagError
  missing_dependency : String → String → DagError
  cycle_detected : DagError

-- What `has_cycle` keeps: the nodes on the way to the present one, and those that are done.
pub record Marks : Type 0 where
  pub visiting : List String
  pub visited : List String

pub data Visit : Type 0 where
  clear : Marks → Visit
  cycle out_of_fuel : Visit

abbrev pub or_empty : Option (List String) → List String
or_empty none = []
or_empty (some ds) = ds

-- `Set.add` and `Set.delete`.
unfoldable pub set_add : String → List String → List String
set_add x xs = if includes x xs then xs else xs ++ x ∷ []

abbrev pub set_delete : String → List String → List String
set_delete x xs = keep_if (λ y. not (str_eq y x)) xs

abbrev pub and_then : Visit → (Marks → Visit) → Visit
and_then (clear marks) next = next marks
and_then cycle next = cycle
and_then out_of_fuel next = out_of_fuel

-- The loop over dependencies or keys: it ends at the first cycle.
unfoldable pub visit_each : (String → Marks → Visit) → List String → Marks → Visit
visit_each visit [] marks = clear marks
visit_each visit (id ∷ ids) marks =
    and_then (visit id marks) (λ marks'. visit_each visit ids marks')

abbrev pub finish : String → Visit → Visit
finish id (clear marks) =
    clear (record { visiting = set_delete id marks.visiting; visited = set_add id marks.visited })
finish id cycle = cycle
finish id out_of_fuel = out_of_fuel

-- The dependencies of a node that are nodes.
abbrev pub known_dependencies : Dict (List String) → String → List String
known_dependencies m id = keep_if (λ d. has d m) (or_empty (lookup id m))

unfoldable pub visit : ℕ → Dict (List String) → String → Marks → Visit
visit zero m id marks = out_of_fuel
visit (suc fuel) m id marks =
    let below =
      visit_each (visit fuel m) (known_dependencies m id)
        (record { visiting = set_add id marks.visiting; visited = marks.visited }) in
    if includes id marks.visited
    then clear marks
    else if includes id marks.visiting
    then cycle
    else finish id below

abbrev pub keys : Dict (List String) → List String
keys m = map (λ (e : String × List String). e.0) m

abbrev pub no_marks : Marks
no_marks = record { visiting = []; visited = [] }

-- The walk from every node. No way without repetition is longer than the number of nodes.
unfoldable pub visit_nodes : Dict (List String) → Visit
visit_nodes m = visit_each (visit (suc (length m)) m) (keys m) no_marks

abbrev pub is_cycle : Visit → Bool
is_cycle (clear marks) = false
is_cycle cycle = true
is_cycle out_of_fuel = false

unfoldable pub has_cycle : Dict (List String) → Bool
has_cycle m = is_cycle (visit_nodes m)
