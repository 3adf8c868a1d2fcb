-- ===== src/Orchestration/DagCompiler/Order.antt =====
-- What the order of the tasks and its cycles share: sorted texts, and the dependencies of a task.
use rector.Prelude.{String, List, [], ◌∷◌, Dict, lookup, inl, inr, Bool-cases, All}
use rector.Orchestration.Planner.{PlannerOutput}
use rector.Orchestration.DagCompiler.{text_leb, sort, insert_sorted, or_none, all_dependencies}

insert_sorted-All {ℓ} :
    (P : String → Type ℓ) (x : String) (xs : List String)
    → P x
    → All P xs
    → All P (insert_sorted x xs)
unfolding insert_sorted
insert_sorted-All P x [] p h = (p, tt)
insert_sorted-All P x (y ∷ ys) p h = elim (Bool-cases (text_leb x y)) [
  | inl first ↦ rw first (p, (h.0, h.1))
  | inr later ↦ rw later (h.0, insert_sorted-All P x ys p h.1)
]

pub sort-All {ℓ} : (P : String → Type ℓ) (xs : List String) → All P xs → All P (sort xs)
unfolding sort
sort-All P [] h = tt
sort-All P (x ∷ xs) h = insert_sorted-All P x (sort xs) h.0 (sort-All P xs h.1)

abbrev pub deps_in : Dict (List String) → String → List String
deps_in deps id = or_none (lookup id deps)

-- The dependencies of a task in a plan, its own and those that the plan adds.
abbrev pub plan_deps : PlannerOutput → String → List String
plan_deps plan = deps_in (all_dependencies plan)
