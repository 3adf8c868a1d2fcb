-- ===== src/Security/RateLimiter/Hits.antt =====
-- What `check` foretells of `commit`, and what the middleware reads off the hits it is told.
use rector.Prelude.{
  ℕ, ◌-◌, ◌*◌, ◌≤◌, true, false, String, Option, none, some, Num, leb, ◌≡◌, ◌↔◌, refl, arith,
  Bool-cases, inl, inr,
}
use rector.Security.RateLimiter.Keys.{bucket_key, split_bucket_key}
use rector.Security.RateLimiter.Limiter.{
  RateLimitRule, RateLimitPolicy, RateLimitDecision, Bucket, Buckets, rate_limit_rule_for,
  normalize_now, sweep, active_bucket, check, check_bucket, commit, commit_bucket, increment,
  increment_response,
}

-- A checked decision that the commit of the same request confirms, having used up one request.
pub record Foretells (checked committed : RateLimitDecision) : Type 0 where
  pub allowed : checked.allowed ≡ committed.allowed
  pub reset_at : checked.reset_at ≡ committed.reset_at
  pub retry : checked.retry_after_ms ≡ committed.retry_after_ms
  pub remaining : checked.remaining - 1 ≡ committed.remaining

bucket-Foretells :
    (key route : String) (rule : RateLimitRule) (now : ℕ) (m : Buckets) (open' : Option Bucket)
    → Foretells (check_bucket key route rule now open') (commit_bucket key route rule now m open').0
bucket-Foretells key route rule now m none = record {
  allowed = refl;
  reset_at = refl;
  retry = refl;
  remaining = refl;
}
bucket-Foretells key route rule now m (some b) = elim (Bool-cases (leb rule.max_requests b.count)) [
  | inl full ↦ rw full (record { allowed = refl; reset_at = refl; retry = refl; remaining = refl })
  | inr room ↦
      rw room (record { allowed = refl; reset_at = refl; retry = refl; remaining = omega arith })
]

-- `check` answers what a `commit` of the same request at the same moment answers: the same verdict,
-- end of window and waiting time, and one request more that remains.
pub check-Foretells :
    (policy : RateLimitPolicy) (clock : ℕ) (key route : String) (now : Num) (m : Buckets)
    → Foretells (check policy clock key route now m).0 (commit policy clock key route now m).0
unfolding check commit
check-Foretells policy clock key route now m =
    let rule = rate_limit_rule_for policy route in
    let time = normalize_now clock now in
    elim (Bool-cases (leb rule.max_requests 0)) [
      | inl off ↦
          rw off (record { allowed = refl; reset_at = refl; retry = refl; remaining = refl })
      | inr on ↦ rw on (
          bucket-Foretells key route rule time (sweep time m)
            (active_bucket (bucket_key key route) time (sweep time m)))
    ]

bucket-hits :
    (key route : String) (rule : RateLimitRule) (now : ℕ) (m : Buckets) (open' : Option Bucket)
    → 1 ≤ rule.max_requests
    → ((increment_response (commit_bucket key route rule now m open').0).total_hits
        ≤ rule.max_requests)
      ↔ ((commit_bucket key route rule now m open').0.allowed ≡ true)
bucket-hits key route rule now m none pos = (λ h. refl, λ h. omega arith)
bucket-hits key route rule now m (some b) pos = elim (Bool-cases (leb rule.max_requests b.count)) [
  | inl full ↦ rw full (λ h. absurd (omega arith), λ h. absurd cc)
  | inr room ↦ rw room (λ h. refl, λ h. omega arith)
]

-- The middleware rejects a request when the hits that the store reports are above the limit of the
-- request's route: for a limit above 0 these are the requests that the limiter denies.
pub increment-hits :
    (policy : RateLimitPolicy) (clock : ℕ) (key : String) (m : Buckets)
    → 1 ≤ (rate_limit_rule_for policy (split_bucket_key key).0).max_requests
    → ((increment policy clock key m).0.total_hits
        ≤ (rate_limit_rule_for policy (split_bucket_key key).0).max_requests)
      ↔ ((commit policy clock
            (split_bucket_key key).1
            (split_bucket_key key).0
            (Num.fin (clock * 1000000))
            m).0.allowed
          ≡ true)
unfolding increment commit
increment-hits policy clock key m pos =
    let (route, identity) = split_bucket_key key in
    let rule = rate_limit_rule_for policy route in
    let time = normalize_now clock (Num.fin (clock * 1000000)) in
    let on : leb rule.max_requests 0 ≡ false = ground arith in
    rw on (
      bucket-hits identity route rule time (sweep time m)
        (active_bucket (bucket_key identity route) time (sweep time m)) pos)
