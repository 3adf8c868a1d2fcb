-- ===== src/Providers/Failover/Retries.antt =====
-- How often a provider is called.
use rector.Prelude.{
  ℕ, suc, ◌+◌, ◌≤◌, Bool, true, false, Option, none, some, List, [], ◌∷◌, ◌++◌, length,
  length-append, ◌≡◌, inl, inr, arith, Bool-cases,
}
use rector.Providers.TurnRetryState.{TurnRetryState, retries_left}
use rector.Providers.CredentialPool.{CredentialPoolEntry}
use rector.Providers.Failover.{
  Thrown, ModelSelection, Environment, CallState, CallInput, Progress, done, thrown, pending,
  try_invoke, with_provider, rotate, provider_id_of, credential_rotated, retry_rate_limit,
  retry_auth, after_rotation, activate_fallback, give_up, and_then, call_with_resilience,
}

-- The invocations made and the retries left.
abbrev cost : CallState → ℕ
cost s = length s.invoked + retries_left s.retry_state

-- The calls of a provider that share one retry state, each with what its environment answers.
abbrev pub call_all : {A : Type 0} → List (Environment A × CallInput) → CallState → CallState
call_all [] s = s
call_all ((env, i) ∷ is) s = call_all is (call_with_resilience env i s).1

module _ {A : Type 0} (env : Environment A) where
  try_invoke-cost :
      (active : ModelSelection) (sub : Bool) (s : CallState)
      → cost (try_invoke env active sub s).1 ≡ suc (cost s)
  try_invoke-cost active sub s = omega (arith, length-append s.invoked (active ∷ []))

  retry_rate_limit-cost :
      (e : Thrown) (active : ModelSelection) (s : CallState)
      → cost (retry_rate_limit env e active s).1 ≤ cost s
  retry_rate_limit-cost e active s = ground (arith, length-append s.invoked (active ∷ []))

  after_rotation-cost :
      (e : Thrown) (active : ModelSelection) (o : Option CredentialPoolEntry) (s : CallState)
      → cost (after_rotation env e active o s).1 ≤ suc (cost s)
  after_rotation-cost e active none s = omega arith
  after_rotation-cost e active (some c) s =
      omega (arith, length-append s.invoked (with_provider env active c.provider ∷ []))

  retry_auth-cost :
      (e : Thrown) (active : ModelSelection) (s : CallState)
      → cost (retry_auth env e active s).1 ≤ cost s
  retry_auth-cost e active s =
      let rotated = rotate env (provider_id_of active) s.credential_pool in
      let after = record s {
        retry_state = record s.retry_state { has_retried_auth = true };
        credential_pool = rotated.1;
        events = s.events ++ credential_rotated ∷ [];
      } in
      elim (Bool-cases s.retry_state.has_retried_auth) [
        | inl used ↦ ground arith
        | inr left ↦ rw left (ground (arith, left, after_rotation-cost e active rotated.0 after))
      ]

  activate_fallback-cost :
      (o : Option ModelSelection) (e : Thrown) (active : ModelSelection) (s : CallState)
      → cost (activate_fallback env o e active s).1 ≤ cost s
  activate_fallback-cost none e active s = omega arith
  activate_fallback-cost (some f) e active s = ground (arith, length-append s.invoked (f ∷ []))

  and_then-cost :
      (n : ℕ) (next : Thrown → ModelSelection → CallState → Progress A × CallState)
      (p : Progress A × CallState)
      → ((e : Thrown) (a : ModelSelection) (s : CallState) → cost (next e a s).1 ≤ cost s)
      → cost p.1 ≤ n
      → cost (and_then env next p).1 ≤ n
  and_then-cost n next (done r, s) f h = h
  and_then-cost n next (thrown e, s) f h = h
  and_then-cost n next (pending e a, s) f h = omega (arith, f e a s)

  call_with_resilience-cost :
      (i : CallInput) (s : CallState) → cost (call_with_resilience env i s).1 ≤ suc (cost s)
  unfolding call_with_resilience
  call_with_resilience-cost i s =
      let n = suc (cost s) in
      let first = try_invoke env i.primary false s in
      let second = and_then env (retry_rate_limit env) first in
      let third = and_then env (retry_auth env) second in
      let fourth = and_then env (activate_fallback env i.fallback) third in
      let first_cost : cost first.1 ≤ n = omega (arith, try_invoke-cost i.primary false s) in
      let second_cost =
        and_then-cost n (retry_rate_limit env) first retry_rate_limit-cost first_cost in
      let third_cost = and_then-cost n (retry_auth env) second retry_auth-cost second_cost in
      let fourth_cost =
        and_then-cost n (activate_fallback env i.fallback) third (activate_fallback-cost i.fallback)
          third_cost in
      and_then-cost n (λ e a t. (give_up env e a, t)) fourth (λ e a t. omega arith) fourth_cost

retries_left-le : (s : TurnRetryState) → retries_left s ≤ 3
retries_left-le s = ground arith

module _ {A : Type 0} where
  call_all-cost :
      (is : List (Environment A × CallInput)) (s : CallState)
      → cost (call_all is s) ≤ length is + cost s
  call_all-cost [] s = omega arith
  call_all-cost ((env, i) ∷ is) s =
      omega (
        arith,
        call_with_resilience-cost env i s,
        call_all-cost is (call_with_resilience env i s).1,
      )

  -- A sequence of provider calls with one retry state makes at most three invocations beyond one for
  -- each call, one for each kind of retry, whatever the provider, the budget and the pool answer, and
  -- however the answers change from call to call.
  pub call_all-invoked :
      (is : List (Environment A × CallInput)) (s : CallState)
      → length (call_all is s).invoked ≤ length s.invoked + (length is + 3)
  call_all-invoked is s = omega (arith, call_all-cost is s, retries_left-le s.retry_state)
