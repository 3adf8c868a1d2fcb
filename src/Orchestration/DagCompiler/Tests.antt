-- ===== src/Orchestration/DagCompiler/Tests.antt =====
-- Small plans, one that can be ordered and one with a cycle, and the theorems at them.
use rector.Prelude.{
  ℕ, ◌<◌, true, false, String, none, List, [], ◌∷◌, ◌≡◌, ◌≢◌, refl, lookup, insert, remove,
  includes, arith, Bool-cases, inl, inr, if◌then◌else◌, str_eq, eq_iff,
}
use rector.Orchestration.Planner.{low, PlannerDependency, PlannerTask, PlannerOutput}
use rector.Orchestration.DagCompiler.{
  Compiled, ok, err, dependency_cycle, out_of_fuel, set_of, dependency_task_map, insert_sorted,
  sort, topological_tasks, ordered_tasks, all_dependencies, plan_dependencies, task_dependencies,
}
use rector.Orchestration.DagCompiler.Order.{plan_deps}
use rector.Orchestration.DagCompiler.Termination.{ordered_tasks-ends}
use rector.Orchestration.DagCompiler.Cycles.{IsStuck, ordered_tasks-IsStuck, ordered_tasks-acyclic}

abbrev task : String → List String → PlannerTask
task id dependencies = record {
  id = id;
  title = id;
  description = "work";
  dependencies = dependencies;
  expected_artifacts = "file" ∷ [];
  validation = "run the tests" ∷ [];
  risk = low;
  approval_required = false;
}

abbrev plan_of : List PlannerTask → List PlannerDependency → PlannerOutput
plan_of tasks dependencies = record {
  goal = "ship";
  assumptions = [];
  tasks = tasks;
  dependencies = dependencies;
  validation = record { summary = "all green"; checks = "tests" ∷ [] };
  risk_level = low;
  approval_gates = [];
  requested_skills = [];
}

-- Written last to first, with one dependency that only the plan states.
abbrev staged : PlannerOutput
staged =
    plan_of (task "c" ("b" ∷ []) ∷ task "b" [] ∷ task "a" [] ∷ [])
      (record { from = "a"; to = "b"; reason = none } ∷ [])

abbrev in_order : List PlannerTask
in_order = task "a" [] ∷ task "b" [] ∷ task "c" ("b" ∷ []) ∷ []

abbrev circular : PlannerOutput
circular = plan_of (task "a" ("b" ∷ []) ∷ task "b" ("a" ∷ []) ∷ []) []

staged_order : ordered_tasks staged ≡ ok in_order
unfolding ordered_tasks dependency_task_map all_dependencies plan_dependencies task_dependencies
    insert rector.Orchestration.DagCompiler.first_missing set_of
    rector.Orchestration.DagCompiler.set_add includes topological_tasks
    rector.Orchestration.DagCompiler.topological_loop rector.Orchestration.DagCompiler.remaining_of
    sort rector.Orchestration.DagCompiler.ready_ids lookup insert_sorted
    rector.Orchestration.DagCompiler.take_ready rector.Orchestration.DagCompiler.add_all
    rector.Orchestration.DagCompiler.check_dependencies
    rector.Orchestration.DagCompiler.drop_dependency rector.Orchestration.DagCompiler.tasks_by_id
    remove
staged_order = refl

circular_order : ordered_tasks circular ≡ err dependency_cycle
unfolding ordered_tasks dependency_task_map all_dependencies plan_dependencies task_dependencies
    insert rector.Orchestration.DagCompiler.first_missing set_of
    rector.Orchestration.DagCompiler.set_add includes topological_tasks
    rector.Orchestration.DagCompiler.topological_loop rector.Orchestration.DagCompiler.remaining_of
    sort rector.Orchestration.DagCompiler.ready_ids lookup
circular_order = refl

ordered_tasks-ends_example : ordered_tasks circular ≢ err out_of_fuel
ordered_tasks-ends_example = ordered_tasks-ends circular

ordered_tasks-IsStuck_example :
    (stuck : List (String × List String)) × IsStuck (plan_deps circular) stuck
ordered_tasks-IsStuck_example = ordered_tasks-IsStuck circular circular_order

-- The place of a task of `staged`.
abbrev place : String → ℕ
place id = if str_eq "c" id then 2 else if str_eq "b" id then 1 else 0

staged_deps :
    (id : String)
    → plan_deps staged id
      ≡ (if str_eq "c" id then "b" ∷ [] else if str_eq "b" id then "a" ∷ [] else [])
unfolding all_dependencies plan_dependencies task_dependencies set_of lookup insert includes
    rector.Orchestration.DagCompiler.add_all rector.Orchestration.DagCompiler.set_add
staged_deps id = ground arith

place-of : (d x : String) (n : ℕ) → place x ≡ n → includes d (x ∷ []) ≡ true → place d ≡ n
unfolding includes
place-of d x n p h = let same : x ≡ d = (eq_iff x d).0 (ground arith) in cc

place-falls : (id d : String) → includes d (plan_deps staged id) ≡ true → place d < place id
unfolding includes
place-falls id d h = elim (Bool-cases (str_eq "c" id)) [
  | inl c ↦
      let p : place d ≡ 1 = place-of d "b" 1 refl (rw (staged_deps id, c) at h) in
      rw (p, c) (omega arith)
  | inr other ↦ elim (Bool-cases (str_eq "b" id)) [
    | inl b ↦
        let p : place d ≡ 0 = place-of d "a" 0 refl (rw (staged_deps id, other, b) at h) in
        rw (p, other, b) (omega arith)
    | inr none' ↦ cc (rw (staged_deps id, other, none', includes) at h)
  ]
]

ordered_tasks-acyclic_example : ordered_tasks staged ≢ err dependency_cycle
ordered_tasks-acyclic_example = ordered_tasks-acyclic staged place place-falls
