-- ===== src/Orchestration/DagCompiler/Cycles.antt =====
-- The compiler reports a cycle exactly where there is one.
use rector.Prelude.{
  ℕ, zero, suc, ◌<◌, Bool, true, false, not, String, none, some, List, [], ◌∷◌, Dict, lookup,
  insert, remove, has, includes, keep_if, map, length, str_eq, ◌≡◌, ◌≢◌, ◌⊎◌, subst, refl, inl, inr,
  arith, Bool-cases, List-cases, Option-cases, All, All-remove, All-insert, All-lookup,
  All-includes, All-at, eq_iff,
}
use rector.Orchestration.Planner.{PlannerTask, PlannerOutput}
use rector.Orchestration.DagCompiler.{
  err, dependency_cycle, take_ready, push_if_known, drop_dependency, ready_ids, sort, insert_sorted,
  topological_loop, topological_tasks, dependency_task_map, check_dependencies, first_missing,
  ordered_tasks, all_dependencies, remaining_of, tasks_by_id, task_ids,
}
use rector.Orchestration.DagCompiler.Order.{deps_in, plan_deps}

-- A set that remains holds only dependencies of its task, all of which are keys of `whole`.
abbrev Inside : (String → List String) → Dict (List String) → String × List String → Type 0
Inside deps whole e = All (λ d. (includes d (deps e.0) ≡ true) × (has d whole ≡ true)) e.1

All-keep_if {ℓ κ} :
    {A : Type ℓ} (P : A → Type κ) (Q : A → Type κ) (p : A → Bool) (xs : List A)
    → ((a : A) → p a ≡ true → P a → Q a)
    → All P xs
    → All Q (keep_if p xs)
All-keep_if P Q p [] f h = tt
All-keep_if P Q p (x ∷ xs) f h = elim (Bool-cases (p x)) [
  | inl yes' ↦ rw yes' (f x yes' h.0, All-keep_if P Q p xs f h.1)
  | inr no' ↦ rw no' (All-keep_if P Q p xs f h.1)
]

has-drop : (d id : String) (m : Dict (List String)) → has d (drop_dependency id m) ≡ has d m
unfolding has drop_dependency
has-drop d id [] = refl
has-drop d id ((t, ds) ∷ m) = rw (has-drop d id m)

has-remove :
    (d id : String) (m : Dict (List String))
    → str_eq d id ≡ false
    → has d m ≡ true
    → has d (remove id m) ≡ true
unfolding has remove
has-remove d id [] ne h = cc
has-remove d id ((t, ds) ∷ m) ne h =
    ground (arith, has-remove d id m, eq_iff t id, eq_iff t d, eq_iff d id)

-- Taking one task keeps the sets inside the keys.
drop-Inside :
    (deps : String → List String) (id : String) (whole : Dict (List String))
    (m : Dict (List String))
    → All (Inside deps whole) m
    → All (Inside deps (drop_dependency id (remove id whole))) (drop_dependency id m)
unfolding drop_dependency
drop-Inside deps id whole [] h = tt
drop-Inside deps id whole ((t, ds) ∷ m) h = (
  All-keep_if (λ d. (includes d (deps t) ≡ true) × (has d whole ≡ true))
      (λ d. (includes d (deps t) ≡ true) × (has d (drop_dependency id (remove id whole)) ≡ true))
      (λ d. not (str_eq d id)) ds
      (λ d ne k.
        let other : str_eq d id ≡ false = ground arith in
        (k.0, rw has-drop (has-remove d id whole other k.1)))
      h.0,
  drop-Inside deps id whole m h.1,
)

take-Inside :
    (deps : String → List String) (by_id : Dict PlannerTask) (ids : List String)
    (ordered : List PlannerTask) (m : Dict (List String))
    → All (Inside deps m) m
    → All (Inside deps (take_ready by_id ids ordered m).1) (take_ready by_id ids ordered m).1
unfolding take_ready
take-Inside deps by_id [] ordered m h = h
take-Inside deps by_id (id ∷ ids) ordered m h =
    take-Inside deps by_id ids (push_if_known (lookup id by_id) ordered)
      (drop_dependency id (remove id m))
      (drop-Inside deps id m (remove id m) (All-remove (Inside deps m) id m h))

insert_sorted-ne-nil : (x : String) (xs : List String) → insert_sorted x xs ≢ []
unfolding insert_sorted
insert_sorted-ne-nil x [] h = cc
insert_sorted-ne-nil x (y ∷ ys) h = ground arith

sort-nil : (xs : List String) → sort xs ≡ [] → xs ≡ []
unfolding sort
sort-nil [] h = refl
sort-nil (x ∷ xs) h = absurd (insert_sorted-ne-nil x (sort xs) h)

-- A task that waits for another one of the same set.
abbrev pub Waits : (String → List String) → Dict (List String) → String → Type 0
Waits deps stuck id = (d : String) × (includes d (deps id) ≡ true) × (has d stuck ≡ true)

-- A set of tasks, not empty, each of which waits for one of the set.
pub record IsStuck (deps : String → List String) (stuck : Dict (List String)) : Type 0 where
  pub some_task : stuck ≢ []
  pub waits : All (λ e. Waits deps stuck e.0) stuck

not_ready-Waits :
    (deps : String → List String) (whole : Dict (List String)) (m : Dict (List String))
    → All (Inside deps whole) m
    → ready_ids m ≡ []
    → All (λ e. Waits deps whole e.0) m
unfolding ready_ids
not_ready-Waits deps whole [] h r = tt
not_ready-Waits deps whole ((t, []) ∷ m) h r = cc
not_ready-Waits deps whole ((t, d ∷ ds) ∷ m) h r =
    ((d, h.0.0.0, h.0.0.1), not_ready-Waits deps whole m h.1 r)

loop-IsStuck :
    (deps : String → List String) (fuel : ℕ) (by_id : Dict PlannerTask) (ordered : List PlannerTask)
    (m : Dict (List String))
    → All (Inside deps m) m
    → topological_loop fuel by_id ordered m ≡ err dependency_cycle
    → (stuck : Dict (List String)) × IsStuck deps stuck
unfolding topological_loop
loop-IsStuck deps fuel by_id ordered [] h e = cc
loop-IsStuck deps zero by_id ordered (x ∷ m) h e = cc
loop-IsStuck deps (suc fuel) by_id ordered (x ∷ m) h e =
    elim (List-cases (sort (ready_ids (x ∷ m)))) [
      | inl none_ready ↦ (
        x ∷ m,
        record {
          some_task = λ n. cc;
          waits = not_ready-Waits deps (x ∷ m) (x ∷ m) h (sort-nil (ready_ids (x ∷ m)) none_ready);
        },
      )
      | inr (id, ids, more) ↦
          loop-IsStuck deps fuel by_id (take_ready by_id (id ∷ ids) ordered (x ∷ m)).0
            (take_ready by_id (id ∷ ids) ordered (x ∷ m)).1
            (take-Inside deps by_id (id ∷ ids) ordered (x ∷ m) h) (rw (more, topological_loop) at e)
    ]

All-has {ℓ} :
    (P : String → Type ℓ) (id : String) (m : Dict (List String))
    → All (λ e. P e.0) m
    → has id m ≡ true
    → P id
unfolding has
All-has P id [] h i = cc
All-has P id ((t, ds) ∷ m) h i = elim (Bool-cases (str_eq t id)) [
  | inl same ↦ subst P ((eq_iff t id).0 same) h.0
  | inr other ↦ All-has P id m h.1 (rw other at i)
]

has-insert :
    (d k : String) (ds : List String) (m : Dict (List String))
    → (str_eq k d ≡ true) ⊎ (has d m ≡ true)
    → has d (insert k ds m) ≡ true
unfolding has insert
has-insert d k ds [] h = ground (arith, eq_iff k d)
has-insert d k ds ((t, us) ∷ m) h =
    ground (arith, eq_iff k d, eq_iff t k, eq_iff t d, has-insert d k ds m)

has-remaining_of :
    (deps : Dict (List String)) (d : String) (ts : List PlannerTask) (m : Dict (List String))
    → (includes d (map (λ t. t.id) ts) ≡ true) ⊎ (has d m ≡ true)
    → has d (remaining_of deps ts m) ≡ true
unfolding remaining_of includes
has-remaining_of deps d [] m (inl h) = cc
has-remaining_of deps d [] m (inr h) = h
has-remaining_of deps d (t ∷ ts) m h =
    has-remaining_of deps d ts (insert t.id (deps_in deps t.id) m)
      (ground (arith, has-insert d t.id (deps_in deps t.id) m))

-- What the check of the third loop of `dependencyTaskMap` establishes.
abbrev IsKnown : List String → List String → Type 0
IsKnown ids ds = All (λ d. includes d ids ≡ true) ds

first_missing-IsKnown : (ids ds : List String) → first_missing ids ds ≡ none → IsKnown ids ds
unfolding first_missing
first_missing-IsKnown ids [] h = tt
first_missing-IsKnown ids (d ∷ ds) h = elim (Bool-cases (includes d ids)) [
  | inl known ↦ (known, first_missing-IsKnown ids ds (rw (known, first_missing) at h))
  | inr missing ↦ cc (rw (missing, first_missing) at h)
]

check-IsKnown :
    (ids : List String) (m : Dict (List String))
    → check_dependencies ids m ≡ none
    → All (λ e. IsKnown ids e.1) m
unfolding check_dependencies
check-IsKnown ids [] h = tt
check-IsKnown ids ((t, ds) ∷ m) h = elim (Option-cases (first_missing ids ds)) [
  | inl known ↦ (
    first_missing-IsKnown ids ds known,
    check-IsKnown ids m (rw (known, check_dependencies) at h),
  )
  | inr (d, missing) ↦ cc (rw (missing, check_dependencies) at h)
]

IsKnown-deps_in :
    (ids : List String) (m : Dict (List String)) (id : String)
    → All (λ e. IsKnown ids e.1) m
    → IsKnown ids (deps_in m id)
IsKnown-deps_in ids m id h = elim (Option-cases (lookup id m)) [
  | inl missing ↦ rw missing tt
  | inr (ds, found) ↦ rw found (All-lookup (λ e. IsKnown ids e.1) id m h found)
]

remaining-Inside :
    (deps : Dict (List String)) (whole : Dict (List String)) (ts : List PlannerTask)
    (m : Dict (List String))
    → ((id d : String) → includes d (deps_in deps id) ≡ true → has d whole ≡ true)
    → All (Inside (deps_in deps) whole) m
    → All (Inside (deps_in deps) whole) (remaining_of deps ts m)
unfolding remaining_of
remaining-Inside deps whole [] m k h = h
remaining-Inside deps whole (t ∷ ts) m k h =
    remaining-Inside deps whole ts (insert t.id (deps_in deps t.id) m) k (
      All-insert (Inside (deps_in deps) whole) t.id (deps_in deps t.id) m
        (All-includes (deps_in deps t.id) (λ d i. (i, k t.id d i))) h)

topological_tasks-IsStuck :
    (tasks : List PlannerTask) (deps : Dict (List String))
    → check_dependencies (map (λ t. t.id) tasks) deps ≡ none
    → topological_tasks tasks deps ≡ err dependency_cycle
    → (stuck : Dict (List String)) × IsStuck (deps_in deps) stuck
unfolding topological_tasks
topological_tasks-IsStuck tasks deps closed h =
    let ids = map (λ (t : PlannerTask). t.id) tasks in
    let whole = remaining_of deps tasks [] in
    loop-IsStuck (deps_in deps) (length whole) (tasks_by_id tasks []) [] whole
      (remaining-Inside deps whole tasks []
        (λ id d i. has-remaining_of deps d tasks [] (
          inl (
            All-at (λ x. includes x ids ≡ true) d (deps_in deps id)
              (IsKnown-deps_in ids deps id (check-IsKnown ids deps closed)) i)))
        tt)
      h

check-no_cycle :
    (ids : List String) (m : Dict (List String)) → check_dependencies ids m ≢ some dependency_cycle
unfolding check_dependencies
check-no_cycle ids [] h = cc
check-no_cycle ids ((t, ds) ∷ m) h = ground (arith, check-no_cycle ids m)

-- Where the compiler reports a dependency cycle, the plan has a set of tasks, not empty, each of
-- which depends on a task of the set.
pub ordered_tasks-IsStuck :
    (plan : PlannerOutput)
    → ordered_tasks plan ≡ err dependency_cycle
    → (stuck : Dict (List String)) × IsStuck (plan_deps plan) stuck
unfolding ordered_tasks dependency_task_map
ordered_tasks-IsStuck plan h =
    elim (Option-cases (check_dependencies (task_ids plan) (all_dependencies plan))) [
      | inl closed ↦
          topological_tasks-IsStuck plan.tasks (all_dependencies plan) closed
            (rw (closed, ordered_tasks, dependency_task_map) at h)
      | inr (e, missing) ↦ absurd (
          check-no_cycle (task_ids plan) (all_dependencies plan)
            (cc (missing, rw (missing, ordered_tasks, dependency_task_map) at h)))
    ]

descent :
    (deps : String → List String) (stuck : Dict (List String)) (rank : String → ℕ)
    → ((id d : String) → includes d (deps id) ≡ true → rank d < rank id)
    → All (λ e. Waits deps stuck e.0) stuck
    → (n : ℕ) (id : String) → rank id < n
    → has id stuck ≡ true
    → ⊥
descent deps stuck rank falls w zero id small h = omega arith
descent deps stuck rank falls w (suc n) id small h =
    let (d, i, k) = All-has (Waits deps stuck) id stuck w h in
    descent deps stuck rank falls w n d (omega (arith, falls id d i)) k

no_rank :
    (deps : String → List String) (rank : String → ℕ)
    → ((id d : String) → includes d (deps id) ≡ true → rank d < rank id)
    → (stuck : Dict (List String)) → IsStuck deps stuck
    → ⊥
unfolding has
no_rank deps rank falls [] s = s.some_task refl
no_rank deps rank falls ((t, ds) ∷ m) s =
    descent deps ((t, ds) ∷ m) rank falls s.waits (suc (rank t)) t (omega arith)
      (ground (arith, eq_iff t t))

-- A plan whose tasks can be ranked so that every dependency ranks below its task is not reported as
-- cyclic.
pub ordered_tasks-acyclic :
    (plan : PlannerOutput) (rank : String → ℕ)
    → ((id d : String) → includes d (plan_deps plan id) ≡ true → rank d < rank id)
    → ordered_tasks plan ≢ err dependency_cycle
ordered_tasks-acyclic plan rank falls h =
    let (stuck, s) = ordered_tasks-IsStuck plan h in no_rank (plan_deps plan) rank falls stuck s
