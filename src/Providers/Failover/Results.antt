-- ===== src/Providers/Failover/Results.antt =====
-- How a provider call ends.
use rector.Prelude.{ℕ, String, true, Option, none, some, ◌≡◌, ◌⊎◌}
use rector.Providers.Failover.{
  aborted, provider_http_error, Thrown, provider_error, abort_error, other_error, ModelSelection,
  returned, failed, Environment, CallInput, CallResult, Progress, done, thrown, pending, Preflight,
  preflight_failed, RetryStage, ProviderError, abort_of,
}

abbrev pub message_of : Thrown → String
message_of (provider_error e) = e.message
message_of (abort_error m) = m
message_of (other_error m) = m

abbrev pub status_of : Thrown → Option ℕ
status_of (provider_error e) = e.status
status_of (abort_error m) = none
status_of (other_error m) = none

module _ {A : Type 0} (env : Environment A) where
  abbrev pub HasFailed : Thrown → Type 0
  HasFailed e = (n : ℕ) × (selection : ModelSelection) × (env.invoke n selection ≡ failed e)

  -- An abort of an invocation or of the wait before a retry.
  abbrev pub IsAbort : Thrown → Type 0
  IsAbort t =
      ((e : ProviderError) × (t ≡ provider_error e) × (e.code ≡ aborted) × HasFailed t)
      ⊎ (((m : String) × HasFailed (abort_error m)
            × (t ≡ abort_of "provider-resilience" "Provider invocation aborted"))
          ⊎ ((id : String) × (env.is_wait_aborted ≡ true)
              × (t ≡ abort_of id "Provider retry wait aborted")))

  -- The HTTP error of a provider that stands for the failure of an invocation, with its redacted text
  -- and its status.
  abbrev pub IsWrapped : Thrown → Type 0
  IsWrapped t =
      (w : ProviderError) × (e : Thrown) × HasFailed e
      × (t ≡ provider_error w)
      × (w.code ≡ provider_http_error)
      × (w.message ≡ env.redact (message_of e))
      × (w.status ≡ status_of e)

  -- The error with which the budget's check itself was rejected.
  abbrev pub IsOfBudget : Thrown → Type 0
  IsOfBudget t =
      (check : RetryStage → Preflight) × (stage : RetryStage) × (env.budget_preflight ≡ some check)
      × (check stage ≡ preflight_failed t)

  -- The errors that a caller sees.
  abbrev pub IsSurfaced : Thrown → Type 0
  IsSurfaced t = IsAbort t ⊎ (IsWrapped t ⊎ IsOfBudget t)

module _ {A : Type 0} (env : Environment A) (i : CallInput) where
  -- A result that an invocation of its selection has returned, which is the fallback's if it is marked
  -- as substituted.
  abbrev pub IsEarned : CallResult A → Type 0
  IsEarned r =
      ((n : ℕ) × (env.invoke n r.selection ≡ returned r.result))
      × ((r.substituted ≡ true) → i.fallback ≡ some r.selection)

  -- A call that has ended, with a result that is earned or an error that a caller may see.
  abbrev pub IsEnded : Progress A → Type 0
  IsEnded (done r) = IsEarned r
  IsEnded (thrown e) = IsSurfaced env e
  IsEnded (pending e active) = ⊥

  abbrev IsSound : Progress A → Type 0
  IsSound (done r) = IsEarned r
  IsSound (thrown e) = IsSurfaced env e
  IsSound (pending e active) = HasFailed env e
