-- ===== src/Orchestration/DagCompiler/Termination.antt =====
-- Every round of the ordering loop takes a task, so the number of tasks is enough fuel.
use rector.Prelude.{
  ℕ, zero, suc, ◌≤◌, ◌<◌, true, String, List, [], ◌∷◌, Dict, some, lookup, remove, has, length, ◌≡◌,
  ◌≢◌, refl, inl, inr, arith, List-cases, Option-cases, All, All-imp, eq_iff,
}
use rector.Orchestration.Planner.{PlannerTask, PlannerOutput}
use rector.Orchestration.DagCompiler.{
  err, out_of_fuel, take_ready, push_if_known, drop_dependency, ready_ids, sort, topological_loop,
  topological_tasks, tasks_by_id, remaining_of, task_ids, dependency_task_map, check_dependencies,
  ordered_tasks, all_dependencies,
}
use rector.Orchestration.DagCompiler.Order.{sort-All}

length-drop : (id : String) (m : Dict (List String)) → length (drop_dependency id m) ≡ length m
unfolding drop_dependency
length-drop id [] = refl
length-drop id ((t, ds) ∷ m) = omega (arith, length-drop id m)

length-remove-le : (id : String) (m : Dict (List String)) → length (remove id m) ≤ length m
unfolding remove
length-remove-le id [] = omega arith
length-remove-le id ((t, ds) ∷ m) = ground (arith, length-remove-le id m)

length-remove-lt :
    (id : String) (m : Dict (List String)) → has id m ≡ true → length (remove id m) < length m
unfolding remove has
length-remove-lt id [] h = cc
length-remove-lt id ((t, ds) ∷ m) h = ground (arith, length-remove-le id m, length-remove-lt id m)

length-take_ready-le :
    (by_id : Dict PlannerTask) (ids : List String) (ordered : List PlannerTask)
    (m : Dict (List String))
    → length (take_ready by_id ids ordered m).1 ≤ length m
unfolding take_ready
length-take_ready-le by_id [] ordered m = omega arith
length-take_ready-le by_id (id ∷ ids) ordered m = omega (
  arith,
  length-take_ready-le by_id ids (push_if_known (lookup id by_id) ordered)
      (drop_dependency id (remove id m)),
  length-drop id (remove id m),
  length-remove-le id m,
)

length-take_ready-lt :
    (by_id : Dict PlannerTask) (id : String) (ids : List String) (ordered : List PlannerTask)
    (m : Dict (List String))
    → has id m ≡ true
    → length (take_ready by_id (id ∷ ids) ordered m).1 < length m
unfolding take_ready
length-take_ready-lt by_id id ids ordered m h = omega (
  arith,
  length-take_ready-le by_id ids (push_if_known (lookup id by_id) ordered)
      (drop_dependency id (remove id m)),
  length-drop id (remove id m),
  length-remove-lt id m h,
)

has-cons :
    (id t : String) (ds : List String) (m : Dict (List String))
    → has id m ≡ true
    → has id ((t, ds) ∷ m) ≡ true
unfolding has
has-cons id t ds m h = ground arith

has_self : (t : String) (ds : List String) (m : Dict (List String)) → has t ((t, ds) ∷ m) ≡ true
unfolding has
has_self t ds m = ground (arith, eq_iff t t)

ready_ids-has : (m : Dict (List String)) → All (λ id. has id m ≡ true) (ready_ids m)
unfolding ready_ids
ready_ids-has [] = tt
ready_ids-has ((t, []) ∷ m) =
    (has_self t [] m, All-imp (ready_ids m) (λ id h. has-cons id t [] m h) (ready_ids-has m))
ready_ids-has ((t, d ∷ ds) ∷ m) =
    All-imp (ready_ids m) (λ id h. has-cons id t (d ∷ ds) m h) (ready_ids-has m)

loop-fuel :
    (fuel : ℕ) (by_id : Dict PlannerTask) (ordered : List PlannerTask) (m : Dict (List String))
    → length m ≤ fuel
    → topological_loop fuel by_id ordered m ≢ err out_of_fuel
unfolding topological_loop
loop-fuel fuel by_id ordered [] small h = cc
loop-fuel zero by_id ordered (e ∷ m) small h = absurd (omega arith)
loop-fuel (suc fuel) by_id ordered (e ∷ m) small h = elim (List-cases (sort (ready_ids (e ∷ m)))) [
  | inl stuck ↦ cc (rw (stuck, topological_loop) at h)
  | inr (id, ids, more) ↦
      let present =
        rw more at
          (sort-All (λ i. has i (e ∷ m) ≡ true) (ready_ids (e ∷ m)) (ready_ids-has (e ∷ m))) in
      loop-fuel fuel by_id (take_ready by_id (id ∷ ids) ordered (e ∷ m)).0
        (take_ready by_id (id ∷ ids) ordered (e ∷ m)).1
        (omega (arith, length-take_ready-lt by_id id ids ordered (e ∷ m) present.0))
        (rw (more, topological_loop) at h)
]

check-fuel :
    (ids : List String) (m : Dict (List String)) → check_dependencies ids m ≢ some out_of_fuel
unfolding check_dependencies
check-fuel ids [] h = cc
check-fuel ids ((t, ds) ∷ m) h = ground (arith, check-fuel ids m)

-- Ordering the tasks of a plan ends: the fuel given is enough for every plan.
pub ordered_tasks-ends : (plan : PlannerOutput) → ordered_tasks plan ≢ err out_of_fuel
unfolding ordered_tasks dependency_task_map topological_tasks
ordered_tasks-ends plan h =
    elim (Option-cases (check_dependencies (task_ids plan) (all_dependencies plan))) [
      | inl closed ↦
          loop-fuel (length (remaining_of (all_dependencies plan) plan.tasks []))
            (tasks_by_id plan.tasks []) [] (remaining_of (all_dependencies plan) plan.tasks [])
            (omega arith) (rw (closed, ordered_tasks, dependency_task_map) at h)
      | inr (e, missing) ↦
          check-fuel (task_ids plan) (all_dependencies plan)
            (cc (missing, rw (missing, ordered_tasks, dependency_task_map) at h))
    ]
