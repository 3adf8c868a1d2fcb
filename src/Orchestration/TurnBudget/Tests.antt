-- ===== src/Orchestration/TurnBudget/Tests.antt =====
-- A turn of two iterations with a grace call, and the theorems at it.
use rector.Prelude.{◌+◌, ◌≤◌, true, List, [], ◌∷◌, ◌≡◌, refl}
use rector.Orchestration.TurnBudget.{
  TurnBudgetConfig, new_budget, TurnCall, iterate, call_tool, grant, iterations, iterations-bounded,
}

abbrev two_and_grace : TurnBudgetConfig
two_and_grace = record { max_iterations = 2; max_tool_calls = 1; grace_call_on_exhaustion = true }

abbrev turn : List TurnCall
turn = iterate ∷ call_tool ∷ iterate ∷ grant ∷ iterate ∷ call_tool ∷ grant ∷ iterate ∷ []

three_granted : iterations turn (new_budget two_and_grace) ≡ 3
three_granted = refl

iterations-bounded_example : iterations turn (new_budget two_and_grace) ≤ 2 + 1
iterations-bounded_example = iterations-bounded two_and_grace turn
