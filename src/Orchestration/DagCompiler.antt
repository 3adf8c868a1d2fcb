-- ===== src/Orchestration/DagCompiler.antt =====
-- The order of the tasks in the DAG compiler (src/orchestration/dagCompiler.ts). A `Set` of texts is
-- a list without repetitions in insertion order. `sort` compares texts by code points.
pub mod Nodes
pub mod Check
pub mod Compile
pub mod Guarantees
mod Runs
pub mod Order
pub mod Termination
pub mod Cycles
mod Tests
use Prim.Native.Nat.{Ordering}
use Prim.Native.String.{compare}
use rector.Prelude.{
  ℕ, zero, suc, Bool, true, false, not, String, Option, none, some, List, [], ◌∷◌, ◌++◌, map, Dict,
  lookup, insert, remove, includes, keep_if, length, all, if◌then◌else◌, str_eq,
}
use rector.Orchestration.Planner.{PlannerDependency, PlannerTask, PlannerOutput}

pub data CompilerError : Type 0 where
  missing_dependency : String → String → CompilerError
  dependency_cycle : CompilerError
  out_of_fuel : CompilerError

pub data Compiled {ℓ} (A : Type ℓ) : Type ℓ where
  ok : A → Compiled A
  err : CompilerError → Compiled A

-- `Set.add` and `new Set(values)`.
pub set_add : String → List String → List String
set_add x xs = if includes x xs then xs else xs ++ x ∷ []

add_all : List String → List String → List String
add_all [] set = set
add_all (x ∷ xs) set = add_all xs (set_add x set)

pub set_of : List String → List String
unfolding add_all
set_of xs = add_all xs []

abbrev pub or_none : Option (List String) → List String
or_none none = []
or_none (some xs) = xs

-- The three loops of `dependencyTaskMap`.
task_dependencies : List PlannerTask → Dict (List String) → Dict (List String)
task_dependencies [] m = m
task_dependencies (t ∷ ts) m = task_dependencies ts (insert t.id (set_of t.dependencies) m)

plan_dependencies : List PlannerDependency → Dict (List String) → Dict (List String)
plan_dependencies [] m = m
plan_dependencies (d ∷ ds) m =
    plan_dependencies ds (insert d.to (set_add d.from (or_none (lookup d.to m))) m)

first_missing : List String → List String → Option String
first_missing ids [] = none
first_missing ids (d ∷ ds) = if includes d ids then first_missing ids ds else some d

check_dependencies : List String → Dict (List String) → Option CompilerError
check_dependencies ids [] = none
check_dependencies ids ((t, ds) ∷ m) = elim (first_missing ids ds) [
  | none ↦ check_dependencies ids m
  | some d ↦ some (missing_dependency t d)
]

-- The map of the first two loops, before the check of the third.
pub all_dependencies : PlannerOutput → Dict (List String)
all_dependencies plan = plan_dependencies plan.dependencies (task_dependencies plan.tasks [])

abbrev pub task_ids : PlannerOutput → List String
task_ids plan = map (λ t. t.id) plan.tasks

pub dependency_task_map : PlannerOutput → Compiled (Dict (List String))
unfolding check_dependencies
dependency_task_map plan = elim (check_dependencies (task_ids plan) (all_dependencies plan)) [
  | none ↦ ok (all_dependencies plan)
  | some e ↦ err e
]

abbrev pub text_leb : String → String → Bool
text_leb a b = elim (compare a b) [ Ordering.gt ↦ false | _ ↦ true ]

pub insert_sorted : String → List String → List String
insert_sorted x [] = x ∷ []
insert_sorted x (y ∷ ys) = if text_leb x y then x ∷ y ∷ ys else y ∷ insert_sorted x ys

pub sort : List String → List String
sort [] = []
sort (x ∷ xs) = insert_sorted x (sort xs)

abbrev is_empty : List String → Bool
is_empty [] = true
is_empty (_ ∷ _) = false

-- The tasks with no dependency left, in the order of the map.
ready_ids : Dict (List String) → List String
ready_ids [] = []
ready_ids ((id, ds) ∷ m) = let rest = ready_ids m in if is_empty ds then id ∷ rest else rest

-- `dependencyIds.delete(taskId)` for every set that remains.
drop_dependency : String → Dict (List String) → Dict (List String)
drop_dependency id [] = []
drop_dependency id ((t, ds) ∷ m) = (t, keep_if (λ d. not (str_eq d id)) ds) ∷ drop_dependency id m

abbrev push_if_known : Option PlannerTask → List PlannerTask → List PlannerTask
push_if_known none ordered = ordered
push_if_known (some t) ordered = ordered ++ t ∷ []

-- The loop over the ready tasks: what is ordered and what remains after it.
take_ready :
    Dict PlannerTask
    → List String
    → List PlannerTask
    → Dict (List String)
    → List PlannerTask × Dict (List String)
take_ready by_id [] ordered remaining = (ordered, remaining)
take_ready by_id (id ∷ ids) ordered remaining =
    take_ready by_id ids (push_if_known (lookup id by_id) ordered)
      (drop_dependency id (remove id remaining))

-- The `while` loop; every round takes a task, so the number of tasks is enough fuel.
topological_loop :
    ℕ → Dict PlannerTask → List PlannerTask → Dict (List String) → Compiled (List PlannerTask)
topological_loop fuel by_id ordered [] = ok ordered
topological_loop zero by_id ordered (e ∷ m) = err out_of_fuel
topological_loop (suc fuel) by_id ordered (e ∷ m) = elim (sort (ready_ids (e ∷ m))) [
  | [] ↦ err dependency_cycle
  | id ∷ ids ↦
      let (ordered', remaining') = take_ready by_id (id ∷ ids) ordered (e ∷ m) in
      topological_loop fuel by_id ordered' remaining'
]

tasks_by_id : List PlannerTask → Dict PlannerTask → Dict PlannerTask
tasks_by_id [] m = m
tasks_by_id (t ∷ ts) m = tasks_by_id ts (insert t.id t m)

-- `new Map(tasks.map((task) => [task.id, new Set(dependencies.get(task.id) ?? [])]))`.
remaining_of : Dict (List String) → List PlannerTask → Dict (List String) → Dict (List String)
remaining_of deps [] m = m
remaining_of deps (t ∷ ts) m = remaining_of deps ts (insert t.id (or_none (lookup t.id deps)) m)

pub topological_tasks : List PlannerTask → Dict (List String) → Compiled (List PlannerTask)
topological_tasks tasks deps =
    let remaining = remaining_of deps tasks [] in
    topological_loop (length remaining) (tasks_by_id tasks []) [] remaining

-- The two steps that `compileAcceptedPlanToDag` makes.
pub ordered_tasks : PlannerOutput → Compiled (List PlannerTask)
ordered_tasks plan = elim (dependency_task_map plan) [
  | ok deps ↦ topological_tasks plan.tasks deps
  | err e ↦ err e
]
