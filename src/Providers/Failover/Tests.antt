-- ===== src/Providers/Failover/Tests.antt =====
-- A provider that answers every invocation with a rate limit, and the theorems at it.
use rector.Prelude.{◌+◌, ◌≤◌, false, none, some, String, [], ◌∷◌, length, ◌≡◌, refl}
use rector.Providers.TurnRetryState.{fresh}
use rector.Providers.CredentialPool.{LlmProvider}
use rector.Providers.Failover.{
  provider_http_error, provider_error, ModelSelection, failed, Environment, CallState, CallInput,
  call_with_resilience, other_error, thrown, preflight_failed,
}
use rector.Providers.Failover.Retries.{call_all, call_all-invoked}

abbrev provider_of : String → LlmProvider
provider_of id = record { id = id; models = ("fast", "small") ∷ [] }

abbrev selection_of : String → ModelSelection
selection_of id = record {
  provider = provider_of id;
  provider_id = none;
  model_route = "fast";
  model = "small";
}

abbrev too_many : Environment String
too_many = record {
  invoke = λ n selection. failed (
      provider_error (record {
        code = provider_http_error;
        provider = selection.provider.id;
        status = some 429;
        message = "slow down";
      }));
  budget_preflight = none;
  is_wait_aborted = false;
  now = 5;
  redact = λ s. s;
}

-- The same provider under a budget check that fails.
abbrev broke : Environment String
broke = record too_many {
  budget_preflight = some (λ stage. preflight_failed (other_error "no database"));
}

abbrev input : CallInput
input = record { primary = selection_of "acme"; fallback = some (selection_of "spare") }

abbrev idle : CallState
idle = record { retry_state = fresh; credential_pool = none; events = []; invoked = [] }

three_invocations : length (call_with_resilience too_many input idle).1.invoked ≡ 3
unfolding call_with_resilience
three_invocations = refl

preflight_error_is_raw :
    (call_with_resilience broke input idle).0 ≡ thrown (other_error "no database")
unfolding call_with_resilience
preflight_error_is_raw = refl

call_all-invoked_example :
    length (call_all ((too_many, input) ∷ (broke, input) ∷ []) idle).invoked ≤ 0 + (2 + 3)
call_all-invoked_example = call_all-invoked ((too_many, input) ∷ (broke, input) ∷ []) idle
