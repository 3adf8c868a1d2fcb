-- ===== src/Security/Budget/Tests.antt =====
-- Budget decisions of the sample run, and the theorems at those inputs.
use rector.Prelude.{some, none, Num, ◌≡◌, ◌≤◌, ◌↔◌, refl}
use rector.Store.Samples.{sample_run, sample_budget}
use rector.Security.Budget.{
  unit, allowed, denied, BudgetUsage, no_usage, BudgetProjectionInput, SandboxRuntimeSafetyInput,
  normalize_usage, hard_limit_reasons, evaluate_budget, non_negative_number_from,
}
use rector.Security.Budget.Limits.{Verdict, evaluate_budget-Verdict}
use rector.Security.Budget.Safety.{gate, evaluate_sandbox_runtime_safety-infinite}

abbrev costly : BudgetUsage
costly = record no_usage { estimated_usd = some (Num.fin 1000001); provider = some "other" }

costly_denied : (evaluate_budget sample_run costly).status ≡ denied
unfolding evaluate_budget hard_limit_reasons normalize_usage non_negative_number_from
costly_denied = refl

evaluate_budget-Verdict_example :
    Verdict sample_budget
      (normalize_usage sample_run costly)
      (evaluate_budget sample_run costly).status
evaluate_budget-Verdict_example = evaluate_budget-Verdict sample_run costly

abbrev spent : BudgetProjectionInput
spent = record { estimated_usd = some (Num.fin 600000); model_calls = some (Num.fin 9000000) }

abbrev next_call : BudgetProjectionInput
next_call = record { estimated_usd = some (Num.fin 400000); model_calls = some (Num.fin 1000000) }

abbrev backwards : SandboxRuntimeSafetyInput
backwards = record {
  runtime_ms = Num.neg 4;
  max_runtime_ms = Num.fin 5000000;
  approval_required_above_ms = none;
}

evaluate_sandbox_runtime_safety-infinite_example :
    ((gate Num.infinity 5000000 none).runtime_ms ≡ 0)
    × (((gate Num.infinity 5000000 none).status ≡ allowed) ↔ (unit ≤ 5000000))
evaluate_sandbox_runtime_safety-infinite_example =
    evaluate_sandbox_runtime_safety-infinite Num.infinity 5000000 none refl
