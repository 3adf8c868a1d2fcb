-- ===== src/Security/Budget/Limits.antt =====
-- The budget decision against the limits stated one by one.
use rector.Prelude.{
  ℕ, ◌≤◌, ◌<◌, true, false, String, Option, none, some, List, [], ◌∷◌, ◌++◌, includes, ltb, ◌≡◌,
  refl, ◌⊎◌, ◌↔◌, inl, inr, arith, Bool-cases, tests, eq_iff,
}
use rector.Store.Schemas.{Budget, Run}
use rector.Security.Budget.{
  BudgetDecisionStatus, allowed, needs_decision, denied, BudgetUsage, NormalizedUsage, Reason,
  cost_exceeds, input_tokens_exceed, output_tokens_exceed, model_calls_exceed, runtime_exceeds,
  healing_attempts_exceed, normalize_usage, cost_of, when, provider_reasons, hard_limit_reasons,
  approval_reasons_for, decide_budget, evaluate_budget, BudgetProjectionInput, projected_usd,
  projected_model_calls, enforce_max_per_run_budget,
}

-- A provider that a budget admits: none is named, or no list is given, or it is in the list.
abbrev pub Admits : Budget → Option String → Type 0
Admits b none = Unit
Admits b (some p) = (p ≡ "") ⊎ (b.allowed_providers ≡ []) ⊎ (includes p b.allowed_providers ≡ true)

-- No hard limit is passed.
pub record IsWithin (b : Budget) (u : NormalizedUsage) : Type 0 where
  pub cost : cost_of u ≤ b.max_usd
  pub input_tokens : u.input_tokens ≤ b.max_input_tokens
  pub output_tokens : u.output_tokens ≤ b.max_output_tokens
  pub model_calls : u.model_calls ≤ b.max_model_calls
  pub runtime_ms : u.runtime_ms ≤ b.max_runtime_ms
  pub healing_attempts : u.healing_attempts ≤ b.max_healing_attempts
  pub provider : Admits b u.provider

-- What each status says of the budget and the usage; the three exclude one another.
pub data Verdict (b : Budget) (u : NormalizedUsage) : BudgetDecisionStatus → Type 0 where
  is_allowed :
      IsWithin b u
      → (b.approval_required_above_usd ≡ 0) ⊎ (cost_of u ≤ b.approval_required_above_usd)
      → Verdict b u allowed
  is_needs_decision :
      IsWithin b u
      → 0 < b.approval_required_above_usd
      → b.approval_required_above_usd < cost_of u
      → Verdict b u needs_decision
  is_denied : ¬ (IsWithin b u) → Verdict b u denied

Admits-no_reason : (b : Budget) (p : Option String) → provider_reasons b p ≡ [] → Admits b p
unfolding provider_reasons
Admits-no_reason b none h = tt
Admits-no_reason b (some p) h = ground (arith, eq_iff p "")

no_reason-Admits : (b : Budget) (p : Option String) → Admits b p → provider_reasons b p ≡ []
unfolding provider_reasons
no_reason-Admits b none h = refl
no_reason-Admits b (some p) h = ground (arith, eq_iff p "")

-- A list of guarded reasons is empty only if its first test fails.
when-append-nil :
    (n m : ℕ) (r : Reason) (rest : List Reason)
    → when (ltb m n) r ++ rest ≡ []
    → (n ≤ m) × (rest ≡ [])
when-append-nil n m r rest h = elim (Bool-cases (ltb m n)) [
  | inl over ↦ cc (rw over at h)
  | inr under ↦ (omega (tests, under), rw under at h)
]

no_reasons-IsWithin :
    (b : Budget) (u : NormalizedUsage) → hard_limit_reasons b u ≡ [] → IsWithin b u
unfolding hard_limit_reasons
no_reasons-IsWithin b u h₀ =
    let (t₁, h₁) =
      when-append-nil (cost_of u) b.max_usd (cost_exceeds (cost_of u) b.max_usd) _ h₀ in
    let (t₂, h₂) =
      when-append-nil u.input_tokens b.max_input_tokens
        (input_tokens_exceed u.input_tokens b.max_input_tokens) _ h₁ in
    let (t₃, h₃) =
      when-append-nil u.output_tokens b.max_output_tokens
        (output_tokens_exceed u.output_tokens b.max_output_tokens) _ h₂ in
    let (t₄, h₄) =
      when-append-nil u.model_calls b.max_model_calls
        (model_calls_exceed u.model_calls b.max_model_calls) _ h₃ in
    let (t₅, h₅) =
      when-append-nil u.runtime_ms b.max_runtime_ms (runtime_exceeds u.runtime_ms b.max_runtime_ms)
        _ h₄ in
    let (t₆, h₆) =
      when-append-nil u.healing_attempts b.max_healing_attempts
        (healing_attempts_exceed u.healing_attempts b.max_healing_attempts) _ h₅ in
    record {
      cost = t₁;
      input_tokens = t₂;
      output_tokens = t₃;
      model_calls = t₄;
      runtime_ms = t₅;
      healing_attempts = t₆;
      provider = Admits-no_reason b u.provider h₆;
    }

no_test : (a b : ℕ) → a ≤ b → ltb b a ≡ false
no_test a b h = ground arith

IsWithin-no_reasons :
    (b : Budget) (u : NormalizedUsage) → IsWithin b u → hard_limit_reasons b u ≡ []
unfolding hard_limit_reasons
IsWithin-no_reasons b u w =
    rw
      (
        no_test (cost_of u) b.max_usd w.cost,
        no_test u.input_tokens b.max_input_tokens w.input_tokens,
        no_test u.output_tokens b.max_output_tokens w.output_tokens,
        no_test u.model_calls b.max_model_calls w.model_calls,
        no_test u.runtime_ms b.max_runtime_ms w.runtime_ms,
        no_test u.healing_attempts b.max_healing_attempts w.healing_attempts,
      )
      (no_reason-Admits b u.provider w.provider)

decide_budget-Verdict :
    (b : Budget) (u : NormalizedUsage) (hard : List Reason)
    → hard_limit_reasons b u ≡ hard
    → Verdict b u (decide_budget hard (approval_reasons_for b u) u).status
unfolding decide_budget approval_reasons_for
decide_budget-Verdict b u (r ∷ rs) h = is_denied (λ w. cc (h, IsWithin-no_reasons b u w))
decide_budget-Verdict b u [] h = elim (Bool-cases (ltb 0 b.approval_required_above_usd)) [
  | inr off ↦
      rw (off, decide_budget) (is_allowed (no_reasons-IsWithin b u h) (inl (omega (tests, off))))
  | inl on ↦ elim (Bool-cases (ltb b.approval_required_above_usd (cost_of u))) [
    | inl over ↦
        rw (on, over, decide_budget)
          (is_needs_decision (no_reasons-IsWithin b u h) (omega (tests, on)) (omega (tests, over)))
    | inr under ↦
        rw (on, under, decide_budget)
          (is_allowed (no_reasons-IsWithin b u h) (inr (omega (tests, under))))
  ]
]

-- A run is denied exactly if some hard limit is passed or its provider is not admitted, needs a
-- decision exactly if none is and its cost is above a threshold that is set, and is allowed otherwise.
pub evaluate_budget-Verdict :
    (run : Run) (usage : BudgetUsage)
    → Verdict run.budget (normalize_usage run usage) (evaluate_budget run usage).status
unfolding evaluate_budget
evaluate_budget-Verdict run usage =
    decide_budget-Verdict run.budget (normalize_usage run usage)
      (hard_limit_reasons run.budget (normalize_usage run usage)) refl

-- The preflight check allows the next call exactly if the accumulated and the estimated amounts
-- together stay within both ceilings of the run, and denies it otherwise.
pub enforce_max_per_run_budget-allowed :
    (run : Run) (accumulated next : BudgetProjectionInput)
    → ((enforce_max_per_run_budget run accumulated next).status ≡ allowed) ↔ (
        (projected_usd accumulated next ≤ run.budget.max_usd)
        × (projected_model_calls accumulated next ≤ run.budget.max_model_calls))
unfolding enforce_max_per_run_budget
enforce_max_per_run_budget-allowed run accumulated next = (λ h. ground arith, λ h. ground arith)
