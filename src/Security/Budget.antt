-- ===== src/Security/Budget.antt =====
-- Budget decisions (src/security/budget.ts). Money is in millionths of a dollar, tokens, calls and
-- milliseconds are whole numbers. A message is the constructor of `Reason` that carries its numbers;
-- the texts of the runtime gate, which repeat its codes, are left out.
pub mod Limits
pub mod Safety
mod Tests
use rector.Prelude.{
  ℕ, zero, ◌+◌, ◌*◌, ◌/◌, Bool, true, false, not, ◌&&◌, ◌||◌, String, Option, none, some, List, [],
  ◌∷◌, ◌++◌, Num, Json, Metadata, lookup, includes, if◌then◌else◌, ltb, leb, str_eq,
}
use rector.Store.Schemas.{Budget, Run}

pub data BudgetDecisionStatus : Type 0 where
  allowed needs_decision denied : BudgetDecisionStatus

pub record BudgetUsage : Type 0 where
  pub estimated_usd : Option Num
  pub actual_usd : Option Num
  pub input_tokens : Option Num
  pub output_tokens : Option Num
  pub model_calls : Option Num
  pub runtime_ms : Option Num
  pub healing_attempts : Option Num
  pub provider : Option String

abbrev pub no_usage : BudgetUsage
no_usage = record {
  estimated_usd = none;
  actual_usd = none;
  input_tokens = none;
  output_tokens = none;
  model_calls = none;
  runtime_ms = none;
  healing_attempts = none;
  provider = none;
}

-- The usage of a decision, every field of it filled in.
pub record NormalizedUsage : Type 0 where
  pub estimated_usd : ℕ
  pub actual_usd : ℕ
  pub input_tokens : ℕ
  pub output_tokens : ℕ
  pub model_calls : ℕ
  pub runtime_ms : ℕ
  pub healing_attempts : ℕ
  pub provider : Option String

pub data Reason : Type 0 where
  cost_exceeds input_tokens_exceed output_tokens_exceed model_calls_exceed : ℕ → ℕ → Reason
  runtime_exceeds healing_attempts_exceed : ℕ → ℕ → Reason
  provider_not_allowed : String → Reason
  cost_requires_approval : ℕ → ℕ → Reason
  projected_cost_exceeds projected_model_calls_exceed : ℕ → ℕ → Reason

pub record BudgetDecision : Type 0 where
  pub status : BudgetDecisionStatus
  pub reasons : List Reason
  pub usage : NormalizedUsage

-- One unit in the millionths of `Num`.
abbrev pub unit : ℕ
unit = 1000000

abbrev pub json_of : Option Num → Json
json_of none = Json.undefined
json_of (some n) = Json.num n

abbrev pub text_of : Option String → Json
text_of none = Json.undefined
text_of (some s) = Json.str s

abbrev pub json_at : Option Json → Json
json_at none = Json.undefined
json_at (some j) = j

-- `estimate.k`, and `estimate?.k` below.
abbrev pub at : String → Metadata → Json
at k m = json_at (lookup k m)

abbrev pub at_optional : String → Option Metadata → Json
at_optional k none = Json.undefined
at_optional k (some m) = at k m

-- The first value that is a finite number of at least 0, in millionths, or else 0.
unfoldable pub non_negative_number_from : List Json → ℕ
non_negative_number_from [] = 0
non_negative_number_from (Json.num (Num.fin n) ∷ values) = n
non_negative_number_from (_ ∷ values) = non_negative_number_from values

-- `Math.trunc` of it, as a whole number.
unfoldable pub non_negative_int_from : List Json → ℕ
non_negative_int_from values = non_negative_number_from values / unit

unfoldable pub string_from : List Json → Option String
string_from [] = none
string_from (Json.str s ∷ values) = if str_eq s "" then string_from values else some s
string_from (_ ∷ values) = string_from values

abbrev pub or_else : Option String → Option String → Option String
or_else none t = t
or_else (some s) t = some s

unfoldable pub normalize_usage : Run → BudgetUsage → NormalizedUsage
normalize_usage run usage = record {
  estimated_usd =
      non_negative_number_from (json_of usage.estimated_usd ∷ at "usd" run.cost_estimate ∷ []);
  actual_usd =
      non_negative_number_from (json_of usage.actual_usd ∷ at_optional "usd" run.actual_cost ∷ []);
  input_tokens = non_negative_int_from (
      json_of usage.input_tokens
      ∷ at_optional "input" run.actual_tokens
      ∷ at "input" run.token_estimate
      ∷ []);
  output_tokens = non_negative_int_from (
      json_of usage.output_tokens
      ∷ at_optional "output" run.actual_tokens
      ∷ at "output" run.token_estimate
      ∷ []);
  model_calls = non_negative_int_from (
      json_of usage.model_calls
      ∷ at_optional "modelCalls" run.actual_cost
      ∷ at "modelCalls" run.cost_estimate
      ∷ []);
  runtime_ms = non_negative_int_from (
      json_of usage.runtime_ms
      ∷ at_optional "runtimeMs" run.actual_cost
      ∷ at "runtimeMs" run.cost_estimate
      ∷ []);
  healing_attempts =
      non_negative_int_from
        (json_of usage.healing_attempts ∷ Json.num (Num.fin (run.healing_attempts * unit)) ∷ []);
  provider =
      or_else usage.provider (
        string_from
          (at_optional "provider" run.actual_cost ∷ at "provider" run.cost_estimate ∷ []));
}

-- `if (test) reasons.push(reason)`.
abbrev pub when {ℓ} : {A : Type ℓ} → Bool → A → List A
when true a = a ∷ []
when false a = []

unfoldable pub cost_of : NormalizedUsage → ℕ
cost_of usage = if ltb 0 usage.actual_usd then usage.actual_usd else usage.estimated_usd

abbrev is_empty {ℓ} : {A : Type ℓ} → List A → Bool
is_empty [] = true
is_empty (_ ∷ _) = false

pub provider_reasons : Budget → Option String → List Reason
provider_reasons budget none = []
provider_reasons budget (some p) =
    when
      (not (str_eq p "")
        && not (is_empty budget.allowed_providers)
        && not (includes p budget.allowed_providers))
      (provider_not_allowed p)

unfoldable pub hard_limit_reasons : Budget → NormalizedUsage → List Reason
unfolding cost_of provider_reasons
hard_limit_reasons budget usage =
    when (ltb budget.max_usd (cost_of usage)) (cost_exceeds (cost_of usage) budget.max_usd)
    ++ (when (ltb budget.max_input_tokens usage.input_tokens)
          (input_tokens_exceed usage.input_tokens budget.max_input_tokens)
        ++ (when (ltb budget.max_output_tokens usage.output_tokens)
              (output_tokens_exceed usage.output_tokens budget.max_output_tokens)
            ++ (when (ltb budget.max_model_calls usage.model_calls)
                  (model_calls_exceed usage.model_calls budget.max_model_calls)
                ++ (when (ltb budget.max_runtime_ms usage.runtime_ms)
                      (runtime_exceeds usage.runtime_ms budget.max_runtime_ms)
                    ++ (when (ltb budget.max_healing_attempts usage.healing_attempts) (
                          healing_attempts_exceed usage.healing_attempts
                            budget.max_healing_attempts)
                        ++ provider_reasons budget usage.provider)))))

pub approval_reasons_for : Budget → NormalizedUsage → List Reason
unfolding cost_of
approval_reasons_for budget usage =
    when
      (ltb 0 budget.approval_required_above_usd
        && ltb budget.approval_required_above_usd (cost_of usage))
      (cost_requires_approval (cost_of usage) budget.approval_required_above_usd)

pub decide_budget : List Reason → List Reason → NormalizedUsage → BudgetDecision
decide_budget (r ∷ rs) approvals usage = record { status = denied; reasons = r ∷ rs; usage = usage }
decide_budget [] (a ∷ as') usage = record {
  status = needs_decision;
  reasons = a ∷ as';
  usage = usage;
}
decide_budget [] [] usage = record { status = allowed; reasons = []; usage = usage }

unfoldable pub evaluate_budget : Run → BudgetUsage → BudgetDecision
unfolding decide_budget
evaluate_budget run usage =
    let normalized = normalize_usage run usage in
    decide_budget (hard_limit_reasons run.budget normalized)
      (approval_reasons_for run.budget normalized) normalized

pub record BudgetProjectionInput : Type 0 where
  pub estimated_usd : Option Num
  pub model_calls : Option Num

-- The sum of an accumulated and an estimated amount, absent ones counted as 0.
unfoldable pub projected_usd : BudgetProjectionInput → BudgetProjectionInput → ℕ
projected_usd accumulated next =
    non_negative_number_from (json_of accumulated.estimated_usd ∷ [])
    + non_negative_number_from (json_of next.estimated_usd ∷ [])

unfoldable pub projected_model_calls : BudgetProjectionInput → BudgetProjectionInput → ℕ
projected_model_calls accumulated next =
    non_negative_int_from (json_of accumulated.model_calls ∷ [])
    + non_negative_int_from (json_of next.model_calls ∷ [])

pub ceiling_reasons : Budget → ℕ → ℕ → List Reason
ceiling_reasons budget usd calls =
    when (ltb budget.max_usd usd) (projected_cost_exceeds usd budget.max_usd)
    ++ when (ltb budget.max_model_calls calls)
        (projected_model_calls_exceed calls budget.max_model_calls)

pub enforce_max_per_run_budget :
    Run → BudgetProjectionInput → BudgetProjectionInput → BudgetDecision
unfolding ceiling_reasons
enforce_max_per_run_budget run accumulated next =
    let usd = projected_usd accumulated next in
    let calls = projected_model_calls accumulated next in
    let base = evaluate_budget run (record no_usage {
      estimated_usd = some (Num.fin usd);
      model_calls = some (Num.fin (calls * unit));
    }) in
    let reasons = ceiling_reasons run.budget usd calls in
    record {
      status = if is_empty reasons then allowed else denied;
      reasons = reasons;
      usage = base.usage;
    }

pub record SandboxRuntimeSafetyInput : Type 0 where
  pub runtime_ms : Num
  pub max_runtime_ms : Num
  pub approval_required_above_ms : Option Num

pub data SafetyReasonCode : Type 0 where
  sandbox_runtime_budget_exceeded sandbox_runtime_approval_required : SafetyReasonCode

pub record SandboxRuntimeSafetyDecision : Type 0 where
  pub status : BudgetDecisionStatus
  pub reason_codes : List SafetyReasonCode
  pub runtime_ms : ℕ
  pub max_runtime_ms : ℕ
  pub approval_required_above_ms : ℕ

abbrev pub is_negative_finite : Num → Bool
is_negative_finite (Num.neg n) = true
is_negative_finite _ = false

unfoldable pub evaluate_sandbox_runtime_safety :
    SandboxRuntimeSafetyInput → SandboxRuntimeSafetyDecision
unfolding non_negative_int_from non_negative_number_from
evaluate_sandbox_runtime_safety input =
    let runtime = non_negative_int_from (Json.num input.runtime_ms ∷ []) in
    let limit = non_negative_int_from (Json.num input.max_runtime_ms ∷ []) in
    let approval = non_negative_int_from (json_of input.approval_required_above_ms ∷ []) in
    let invalid = is_negative_finite input.runtime_ms || is_negative_finite input.max_runtime_ms in
    let decision = λ (s : BudgetDecisionStatus) (codes : List SafetyReasonCode).
      let d : SandboxRuntimeSafetyDecision = record {
        status = s;
        reason_codes = codes;
        runtime_ms = runtime;
        max_runtime_ms = limit;
        approval_required_above_ms = approval;
      } in
      d in
    if invalid || leb limit 0 || ltb limit runtime
    then decision denied (sandbox_runtime_budget_exceeded ∷ [])
    else if ltb 0 approval && ltb approval runtime
    then decision needs_decision (sandbox_runtime_approval_required ∷ [])
    else decision allowed []
