-- ===== src/Providers/TurnRetryState.antt =====
-- What a turn has retried already (src/providers/turnRetryState.ts).
use rector.Prelude.{ℕ, ◌+◌, Bool, true, false}

pub record TurnRetryState : Type 0 where
  pub has_retried_429 : Bool
  pub has_retried_auth : Bool
  pub has_activated_fallback : Bool
  pub has_compressed_and_retried : Bool

abbrev pub fresh : TurnRetryState
fresh = record {
  has_retried_429 = false;
  has_retried_auth = false;
  has_activated_fallback = false;
  has_compressed_and_retried = false;
}

abbrev mark : Bool → TurnRetryState → TurnRetryState → Bool × TurnRetryState
mark true s s' = (false, s)
mark false s s' = (true, s')

abbrev pub try_mark_retried_429 : TurnRetryState → Bool × TurnRetryState
try_mark_retried_429 s = mark s.has_retried_429 s (record s { has_retried_429 = true })

abbrev pub try_mark_retried_auth : TurnRetryState → Bool × TurnRetryState
try_mark_retried_auth s = mark s.has_retried_auth s (record s { has_retried_auth = true })

abbrev pub try_mark_activated_fallback : TurnRetryState → Bool × TurnRetryState
try_mark_activated_fallback s =
    mark s.has_activated_fallback s (record s { has_activated_fallback = true })

abbrev pub try_mark_compressed_and_retried : TurnRetryState → Bool × TurnRetryState
try_mark_compressed_and_retried s =
    mark s.has_compressed_and_retried s (record s { has_compressed_and_retried = true })

abbrev pub one_unless : Bool → ℕ
one_unless true = 0
one_unless false = 1

-- How many of the retries that a provider call makes are left.
abbrev pub retries_left : TurnRetryState → ℕ
retries_left s =
    one_unless s.has_retried_429
    + (one_unless s.has_retried_auth + one_unless s.has_activated_fallback)
