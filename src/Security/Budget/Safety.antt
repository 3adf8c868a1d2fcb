-- ===== src/Security/Budget/Safety.antt =====
-- The runtime gate in front of sandbox commands.
use rector.Prelude.{ℕ, ◌≤◌, ◌<◌, ◌/◌, Bool, true, false, ◌↔◌, Option, Num, ◌≡◌, ◌⊎◌, arith}
use rector.Security.Budget.{
  allowed, denied, unit, SandboxRuntimeSafetyInput, SandboxRuntimeSafetyDecision,
  evaluate_sandbox_runtime_safety, is_negative_finite,
}

-- The gate at a runtime and a limit in millionths of a millisecond.
abbrev pub gate : Num → ℕ → Option Num → SandboxRuntimeSafetyDecision
gate runtime limit approval = evaluate_sandbox_runtime_safety (record {
  runtime_ms = runtime;
  max_runtime_ms = Num.fin limit;
  approval_required_above_ms = approval;
})

-- A finite runtime passes the gate only under a limit of at least a millisecond that it keeps to,
-- and, where a threshold is set, only up to the threshold.
pub evaluate_sandbox_runtime_safety-allowed :
    (runtime limit : ℕ) (approval : Option Num)
    → (gate (Num.fin runtime) limit approval).status ≡ allowed
    → (0 < limit / unit)
      × (runtime / unit ≤ limit / unit)
      × (((gate (Num.fin runtime) limit approval).approval_required_above_ms ≡ 0)
          ⊎ (runtime / unit ≤ (gate (Num.fin runtime) limit approval).approval_required_above_ms))
unfolding evaluate_sandbox_runtime_safety
evaluate_sandbox_runtime_safety-allowed runtime limit approval h = ground arith

-- A negative runtime or limit is denied, whatever the rest of the input.
pub evaluate_sandbox_runtime_safety-negative :
    (input : SandboxRuntimeSafetyInput)
    → (is_negative_finite input.runtime_ms ≡ true)
      ⊎ (is_negative_finite input.max_runtime_ms ≡ true)
    → (evaluate_sandbox_runtime_safety input).status ≡ denied
unfolding evaluate_sandbox_runtime_safety
evaluate_sandbox_runtime_safety-negative input h = ground arith

abbrev pub is_finite : Num → Bool
is_finite (Num.fin n) = true
is_finite (Num.neg n) = true
is_finite _ = false

-- A runtime that is no finite number counts as 0, so that no limit holds it back: the gate allows it,
-- without an approval and whatever the threshold, exactly under a limit of at least a millisecond.
pub evaluate_sandbox_runtime_safety-infinite :
    (runtime : Num) (limit : ℕ) (approval : Option Num)
    → is_finite runtime ≡ false
    → ((gate runtime limit approval).runtime_ms ≡ 0)
      × (((gate runtime limit approval).status ≡ allowed) ↔ (unit ≤ limit))
unfolding evaluate_sandbox_runtime_safety
evaluate_sandbox_runtime_safety-infinite (Num.fin n) limit approval h = cc
evaluate_sandbox_runtime_safety-infinite (Num.neg n) limit approval h = cc
evaluate_sandbox_runtime_safety-infinite Num.nan limit approval h =
    (ground arith, (λ e. ground arith, λ u. ground arith))
evaluate_sandbox_runtime_safety-infinite Num.infinity limit approval h =
    (ground arith, (λ e. ground arith, λ u. ground arith))
evaluate_sandbox_runtime_safety-infinite Num.neg_infinity limit approval h =
    (ground arith, (λ e. ground arith, λ u. ground arith))
