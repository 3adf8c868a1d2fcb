-- ===== src/Providers/Failover.antt =====
-- A provider call with its retries (src/providers/failover.ts). What the environment answers is an
-- argument: the outcome of the n-th invocation, the budget's answers or errors, whether the wait is aborted, and
-- the time. The receiver of the events does not fail. Details of an error and the event's payload
-- beside the providers are left out.
pub mod Retries
pub mod Results
mod Tests
use rector.Prelude.{
  ℕ, zero, suc, ◌+◌, Bool, true, false, not, ◌&&◌, ◌||◌, String, Option, none, some, List, [], ◌∷◌,
  ◌++◌, Dict, lookup, includes, map, length, if◌then◌else◌, ◌==◌,
}
use rector.Providers.TurnRetryState.{
  TurnRetryState, try_mark_retried_429, try_mark_retried_auth, try_mark_activated_fallback,
}
use rector.Providers.CredentialPool.{
  LlmProvider, CredentialPoolEntry, CredentialPool, acquire, mark_cooldown,
}

pub data ProviderErrorCode : Type 0 where
  config_invalid budget_denied network_disabled provider_http_error : ProviderErrorCode
  provider_response_invalid provider_response_too_large aborted : ProviderErrorCode

pub record ProviderError : Type 0 where
  pub code : ProviderErrorCode
  pub provider : String
  pub status : Option ℕ
  pub message : String

-- What can be thrown: an error of a provider, the abort of a fetch, or anything else by its text.
pub data Thrown : Type 0 where
  provider_error : ProviderError → Thrown
  abort_error : String → Thrown
  other_error : String → Thrown

pub record ModelSelection : Type 0 where
  pub provider : LlmProvider
  pub provider_id : Option String
  pub model_route : String
  pub model : String

pub data EventType : Type 0 where
  provider_retry provider_substituted credential_rotated : EventType

pub data Outcome (A : Type 0) : Type 0 where
  returned : A → Outcome A
  failed : Thrown → Outcome A

pub data RetryStage : Type 0 where
  rate_limit auth substitute : RetryStage

-- What the promise of `budgetPreflight` gives: its answer, or the error with which it is rejected.
pub data Preflight : Type 0 where
  admitted refused : Preflight
  preflight_failed : Thrown → Preflight

pub record Environment (A : Type 0) : Type 0 where
  pub invoke : ℕ → ModelSelection → Outcome A
  pub budget_preflight : Option (RetryStage → Preflight)
  pub is_wait_aborted : Bool
  pub now : ℕ
  pub redact : String → String

pub record CallState : Type 0 where
  pub retry_state : TurnRetryState
  pub credential_pool : Option CredentialPool
  pub events : List EventType
  pub invoked : List ModelSelection

pub record CallInput : Type 0 where
  pub primary : ModelSelection
  pub fallback : Option ModelSelection

pub record CallResult (A : Type 0) : Type 0 where
  pub result : A
  pub selection : ModelSelection
  pub substituted : Bool

-- Where a call stands: it has ended, or an error is to be handled under the active selection.
pub data Progress (A : Type 0) : Type 0 where
  done : CallResult A → Progress A
  thrown : Thrown → Progress A
  pending : Thrown → ModelSelection → Progress A

abbrev or_id : String → Option String → String
or_id d none = d
or_id d (some s) = s

abbrev pub provider_id_of : ModelSelection → String
provider_id_of s = or_id s.provider.id s.provider_id

abbrev is_status : ℕ → Option ℕ → Bool
is_status n none = false
is_status n (some s) = s == n

abbrev pub is_rate_limit_error : Thrown → Bool
is_rate_limit_error (provider_error e) = is_status 429 e.status
is_rate_limit_error _ = false

abbrev is_config_invalid : ProviderErrorCode → Bool
is_config_invalid config_invalid = true
is_config_invalid _ = false

abbrev pub is_auth_error : Thrown → Bool
is_auth_error (provider_error e) =
    is_status 401 e.status || (is_status 403 e.status || is_config_invalid e.code)
is_auth_error _ = false

abbrev pub is_aborted_code : ProviderErrorCode → Bool
is_aborted_code aborted = true
is_aborted_code _ = false

abbrev pub abort_of : String → String → Thrown
abort_of provider message =
    provider_error
      (record { code = aborted; provider = provider; status = none; message = message })

-- `throwIfAbort`: what it throws, if it does.
abbrev pub throw_if_abort : Thrown → Option Thrown
throw_if_abort (provider_error e) = if is_aborted_code e.code then some (provider_error e) else none
throw_if_abort (abort_error m) = some (abort_of "provider-resilience" "Provider invocation aborted")
throw_if_abort (other_error m) = none

module _ {A : Type 0} (env : Environment A) where
  abbrev classify_exhausted_error : Thrown → String → Thrown
  classify_exhausted_error (provider_error e) provider = provider_error (record {
    code = provider_http_error;
    provider = e.provider;
    status = e.status;
    message = env.redact e.message;
  })
  classify_exhausted_error (abort_error m) provider = provider_error (record {
    code = provider_http_error;
    provider = provider;
    status = none;
    message = env.redact m;
  })
  classify_exhausted_error (other_error m) provider = provider_error (record {
    code = provider_http_error;
    provider = provider;
    status = none;
    message = env.redact m;
  })

  abbrev pub after_failure : Thrown → ModelSelection → Option Thrown → Progress A
  after_failure error active none = pending error active
  after_failure error active (some abort) = thrown abort

  abbrev pub after_invoke : ModelSelection → Bool → Outcome A → Progress A
  after_invoke active substituted (returned a) =
      done (record { result = a; selection = active; substituted = substituted })
  after_invoke active substituted (failed error) = after_failure error active (throw_if_abort error)

  -- `try { return await input.invoke(active) } catch ... throwIfAbort(error)`.
  abbrev pub try_invoke : ModelSelection → Bool → CallState → Progress A × CallState
  try_invoke active substituted s = (
    after_invoke active substituted (env.invoke (length s.invoked) active),
    record s { invoked = s.invoked ++ active ∷ [] },
  )

  abbrev pub budget_ok : RetryStage → Option (RetryStage → Preflight) → Preflight
  budget_ok stage none = admitted
  budget_ok stage (some preflight) = preflight stage

  abbrev pub give_up : Thrown → ModelSelection → Progress A
  give_up error active = thrown (classify_exhausted_error error active.provider.id)

  -- `if (!(await budgetOk(stage))) throw classifyExhaustedError(...)`, before the next step; an error of
  -- the check itself goes to the caller as it is.
  abbrev pub guarded :
      Preflight
      → Thrown
      → ModelSelection
      → CallState
      → Progress A × CallState
      → Progress A × CallState
  guarded admitted error active s next = next
  guarded refused error active s next = (give_up error active, s)
  guarded (preflight_failed e) error active s next = (thrown e, s)

  abbrev pub emit : EventType → CallState → CallState
  emit e s = record s { events = s.events ++ e ∷ [] }

  abbrev pub retry_rate_limit : Thrown → ModelSelection → CallState → Progress A × CallState
  retry_rate_limit error active s =
      let marked = try_mark_retried_429 s.retry_state in
      let s' = record s { retry_state = marked.1 } in
      let waited = emit provider_retry s' in
      if is_rate_limit_error error && marked.0
      then guarded (budget_ok rate_limit env.budget_preflight) error active s' (
          if env.is_wait_aborted
          then (thrown (abort_of active.provider.id "Provider retry wait aborted"), waited)
          else try_invoke active false waited)
      else (pending error active, s)

  abbrev cool_down : String → Option CredentialPoolEntry → CredentialPool → CredentialPool
  cool_down provider_id none pool = pool
  cool_down provider_id (some entry) pool =
      mark_cooldown provider_id entry.secret_ref (env.now + 60000) pool

  -- The two `acquire` calls around `markCooldown`.
  abbrev pub rotate :
      String → Option CredentialPool → Option CredentialPoolEntry × Option CredentialPool
  rotate provider_id none = (none, none)
  rotate provider_id (some pool) =
      let first = acquire provider_id env.now pool in
      let cooled = cool_down provider_id first.0 first.1 in
      let second = acquire provider_id env.now cooled in (second.0, some second.1)

  abbrev first_model : String → List String → String
  first_model d [] = d
  first_model d (m ∷ ms) = m

  abbrev model_for_rotated_provider : ModelSelection → LlmProvider → String
  model_for_rotated_provider selection provider =
      let models = map (λ (e : String × String). e.1) provider.models in
      if includes selection.model models
      then selection.model
      else or_id (first_model selection.model models) (lookup selection.model_route provider.models)

  abbrev pub with_provider : ModelSelection → Option LlmProvider → ModelSelection
  with_provider active none = active
  with_provider active (some provider) = record active {
    provider = provider;
    model = model_for_rotated_provider active provider;
  }

  abbrev after_rotation :
      Thrown → ModelSelection → Option CredentialPoolEntry → CallState → Progress A × CallState
  after_rotation error active none s = (pending error active, s)
  after_rotation error active (some entry) s =
      try_invoke (with_provider active entry.provider) false s

  abbrev pub retry_auth : Thrown → ModelSelection → CallState → Progress A × CallState
  retry_auth error active s =
      let marked = try_mark_retried_auth s.retry_state in
      let s' = record s { retry_state = marked.1 } in
      let rotated = rotate (provider_id_of active) s.credential_pool in
      let after = emit credential_rotated (record s' { credential_pool = rotated.1 }) in
      if is_auth_error error && marked.0
      then guarded (budget_ok auth env.budget_preflight) error active s'
          (after_rotation error active rotated.0 after)
      else (pending error active, s)

  abbrev pub activate_fallback :
      Option ModelSelection → Thrown → ModelSelection → CallState → Progress A × CallState
  activate_fallback none error active s = (pending error active, s)
  activate_fallback (some fallback) error active s =
      let marked = try_mark_activated_fallback s.retry_state in
      let s' = record s { retry_state = marked.1 } in
      if marked.0
      then guarded (budget_ok substitute env.budget_preflight) error active s'
          (try_invoke fallback true (emit provider_substituted s'))
      else (pending error active, s)

  abbrev pub and_then :
      (Thrown → ModelSelection → CallState → Progress A × CallState)
      → Progress A × CallState
      → Progress A × CallState
  and_then next (done r, s) = (done r, s)
  and_then next (thrown e, s) = (thrown e, s)
  and_then next (pending e active, s) = next e active s

  unfoldable pub call_with_resilience : CallInput → CallState → Progress A × CallState
  call_with_resilience input s =
      and_then (λ error active s'. (give_up error active, s'))
        (and_then (activate_fallback input.fallback)
          (and_then retry_auth (and_then retry_rate_limit (try_invoke input.primary false s))))
