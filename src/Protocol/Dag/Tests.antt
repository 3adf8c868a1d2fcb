-- ===== src/Protocol/Dag/Tests.antt =====
-- Runs of the validation on small graphs (src/protocol/dag.ts).
use rector.Prelude.{
  true, String, none, some, List, [], ◌∷◌, Dict, ◌≡◌, ◌≢◌, ◌↔◌, refl, includes, has, lookup, insert,
  inl, inr,
}
use rector.Protocol.Event.{Runtime}
use rector.Protocol.Dag.{
  DagNodeType, DagNode, Dag, set_add, has_cycle, visit_nodes, out_of_fuel, visit, visit_each,
}
use rector.Protocol.Dag.Cycle.{Way, has_cycle_iff, visit_nodes-ends}
use rector.Protocol.Dag.Dependencies.{Leads, at_once, further, IsNode}
use rector.Protocol.Dag.Acyclic.{validate_dag-Leads}
use rector.Protocol.Dag.Validation.{
  node_ids, is_dag, policy_errors, duplicate_ids, edge_errors, missing_dependencies, linked,
  declared, missing_of, set_of, validate_dag,
}

abbrev looped : Dict (List String)
looped = ("a", "b" ∷ []) ∷ ("b", "a" ∷ "z" ∷ []) ∷ []

has_cycle_iff_example : (has_cycle looped ≡ true) ↔ ∥ ((x : String) × Way looped x x) ∥₁
has_cycle_iff_example = has_cycle_iff looped

visit_nodes-ends_example : visit_nodes looped ≢ out_of_fuel
visit_nodes-ends_example = visit_nodes-ends looped

looped-cycle : has_cycle looped ≡ true
unfolding has_cycle visit_nodes visit visit_each set_add has lookup includes
looped-cycle = refl

abbrev rt : Runtime
rt = record { is_datetime = λ _. true; text_length = λ _. 1; json_length = λ _. 1 }

abbrev node : String → List String → DagNode
node id depends_on = record {
  id = id;
  type = DagNodeType.validation;
  label = none;
  depends_on = depends_on;
  provider = none;
  tool_permissions = [];
  input = none;
  expected_outputs = [];
  retry_policy = some (record { max_attempts = 1; backoff_ms = 0; max_backoff_ms = some 0 });
  timeout_ms = some 1000;
  metadata = none;
}

abbrev chain : Dag
chain = record {
  id = "dag-1";
  run_id = "run-1";
  version = "1";
  nodes = node "a" [] ∷ node "b" ("a" ∷ []) ∷ node "c" [] ∷ [];
  edges = record { from = "b"; to = "c" } ∷ [];
  validation_policy = none;
  budget_policy = none;
  metadata = none;
  created_at = "2026-01-01T00:00:00.000Z";
}

chain-valid : validate_dag rt chain ≡ []
unfolding validate_dag is_dag policy_errors duplicate_ids includes set_add edge_errors node_ids
    missing_dependencies linked lookup declared insert missing_of set_of has has_cycle visit_nodes
    visit_each visit
chain-valid = refl

abbrev c_name : String
c_name = "c"

abbrev a_name : String
a_name = "a"

c-leads-a : Leads chain "c" "a"
c-leads-a =
    further (at_once (inr (record { from = "b"; to = "c" }, inl refl, refl, refl)))
      (inl (node "b" ("a" ∷ []), inr (inl refl), refl, inl refl))

validate_dag-Leads_example : IsNode chain "c" × IsNode chain "a" × (c_name ≢ a_name)
validate_dag-Leads_example = validate_dag-Leads rt chain chain-valid "c" "a" c-leads-a
