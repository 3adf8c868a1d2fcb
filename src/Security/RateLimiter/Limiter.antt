-- ===== src/Security/RateLimiter/Limiter.antt =====
-- The limiter of requests (src/security/rateLimiter.ts). Times are whole milliseconds. A negative
-- `maxRequests` is kept as 0: both switch the limiter off. The clock, which is read where a given time
-- is not finite, is an argument.
use rector.Prelude.{
  ℕ, ◌+◌, ◌-◌, ◌*◌, ◌/◌, Bool, true, false, not, ◌&&◌, ◌||◌, String, Option, none, some, [], ◌∷◌,
  Dict, lookup, insert, Num, if◌then◌else◌, ltb, leb, str_eq,
}
use rector.Security.RateLimiter.Keys.{bucket_key, split_bucket_key}

pub record RateLimitRule : Type 0 where
  pub window_ms : ℕ
  pub max_requests : ℕ
  pub fail_closed : Bool

-- The rules by route, and the entry `general`.
pub record RateLimitPolicy : Type 0 where
  pub fail_closed : Bool
  pub routes : Dict RateLimitRule
  pub general : RateLimitRule

pub record RateLimitDecision : Type 0 where
  pub key : String
  pub route : String
  pub allowed : Bool
  pub limit : ℕ
  pub remaining : ℕ
  pub reset_at : ℕ
  pub retry_after_ms : ℕ
  pub disabled : Bool
  pub reason : Option String

pub record Bucket : Type 0 where
  pub reset_at : ℕ
  pub count : ℕ

-- The buckets by the text that `bucket_key` builds.
abbrev pub Buckets : Type 0
Buckets = Dict Bucket

abbrev or_general : RateLimitRule → Option RateLimitRule → RateLimitRule
or_general general none = general
or_general general (some rule) = rule

unfoldable pub rate_limit_rule_for : RateLimitPolicy → String → RateLimitRule
rate_limit_rule_for policy route = or_general policy.general (lookup route policy.routes)

abbrev millisecond : ℕ
millisecond = 1000000

unfoldable pub normalize_now : ℕ → Num → ℕ
normalize_now clock (Num.fin n) = n / millisecond
normalize_now clock (Num.neg n) = 0
normalize_now clock _ = clock

abbrev pub allowed_decision : String → String → RateLimitRule → ℕ → ℕ → RateLimitDecision
allowed_decision key route rule reset_at remaining = record {
  key = key;
  route = route;
  allowed = true;
  limit = rule.max_requests;
  remaining = remaining;
  reset_at = reset_at;
  retry_after_ms = 0;
  disabled = false;
  reason = none;
}

abbrev pub denied_decision : String → String → RateLimitRule → ℕ → ℕ → RateLimitDecision
denied_decision key route rule reset_at retry_after_ms = record {
  key = key;
  route = route;
  allowed = false;
  limit = rule.max_requests;
  remaining = 0;
  reset_at = reset_at;
  retry_after_ms = retry_after_ms;
  disabled = false;
  reason = some "RATE_LIMITED";
}

abbrev pub disabled_decision : String → String → ℕ → RateLimitDecision
disabled_decision key route now = record {
  key = key;
  route = route;
  allowed = true;
  limit = 0;
  remaining = 0;
  reset_at = now;
  retry_after_ms = 0;
  disabled = true;
  reason = none;
}

abbrev pub decision_for_existing_bucket :
    String → String → RateLimitRule → Bucket → ℕ → RateLimitDecision
decision_for_existing_bucket key route rule bucket now =
    if leb rule.max_requests bucket.count
    then denied_decision key route rule bucket.reset_at (bucket.reset_at - now)
    else allowed_decision key route rule bucket.reset_at (rule.max_requests - bucket.count)

-- The buckets whose window is still open.
unfoldable pub sweep : ℕ → Buckets → Buckets
sweep now [] = []
sweep now ((k, b) ∷ m) =
    let rest = sweep now m in if leb b.reset_at now then rest else (k, b) ∷ rest

abbrev pub open_at : ℕ → Option Bucket → Option Bucket
open_at now none = none
open_at now (some b) = if ltb now b.reset_at then some b else none

abbrev pub active_bucket : String → ℕ → Buckets → Option Bucket
active_bucket k now m = open_at now (lookup k m)

abbrev pub check_bucket : String → String → RateLimitRule → ℕ → Option Bucket → RateLimitDecision
check_bucket key route rule now none =
    allowed_decision key route rule (now + rule.window_ms) rule.max_requests
check_bucket key route rule now (some b) = decision_for_existing_bucket key route rule b now

-- `check` drops the closed buckets and counts nothing.
unfoldable pub check :
    RateLimitPolicy → ℕ → String → String → Num → Buckets → RateLimitDecision × Buckets
check policy clock key route now m =
    let rule = rate_limit_rule_for policy route in
    let time = normalize_now clock now in
    let swept = sweep time m in
    if leb rule.max_requests 0
    then (disabled_decision key route time, m)
    else (check_bucket key route rule time (active_bucket (bucket_key key route) time swept), swept)

abbrev pub commit_bucket :
    String → String → RateLimitRule → ℕ → Buckets → Option Bucket → RateLimitDecision × Buckets
commit_bucket key route rule now m none = (
  allowed_decision key route rule (now + rule.window_ms) (rule.max_requests - 1),
  insert (bucket_key key route) (record { reset_at = now + rule.window_ms; count = 1 }) m,
)
commit_bucket key route rule now m (some b) =
    if leb rule.max_requests b.count
    then (denied_decision key route rule b.reset_at (b.reset_at - now), m)
    else (
      allowed_decision key route rule b.reset_at (rule.max_requests - (b.count + 1)),
      insert (bucket_key key route) (record { reset_at = b.reset_at; count = b.count + 1 }) m,
    )

unfoldable pub commit :
    RateLimitPolicy → ℕ → String → String → Num → Buckets → RateLimitDecision × Buckets
commit policy clock key route now m =
    let rule = rate_limit_rule_for policy route in
    let time = normalize_now clock now in
    let swept = sweep time m in
    if leb rule.max_requests 0
    then (disabled_decision key route time, m)
    else commit_bucket key route rule time swept (active_bucket (bucket_key key route) time swept)

-- Whether an optional text restricts a reset: it is given and not empty.
abbrev is_given : Option String → Bool
is_given none = false
is_given (some s) = not (str_eq s "")

abbrev is_for : Option String → String → Bool
is_for none s = true
is_for (some t) s = str_eq t "" || str_eq s t

-- The loop of `reset`: a bucket goes if it is of the route and of the key that are given.
unfoldable pub drop_matching : Option String → Option String → Buckets → Buckets
drop_matching key route [] = []
drop_matching key route ((k, b) ∷ m) =
    let rest = drop_matching key route m in
    if is_for route (split_bucket_key k).0 && is_for key (split_bucket_key k).1
    then rest
    else (k, b) ∷ rest

unfoldable pub reset : Option String → Option String → Buckets → Buckets
reset key route m =
    if not (is_given key) && not (is_given route) then [] else drop_matching key route m

-- What `RectorRateLimitStore.increment` answers to the middleware.
pub record IncrementResponse : Type 0 where
  pub total_hits : ℕ
  pub reset_time : Option ℕ

abbrev pub increment_response : RateLimitDecision → IncrementResponse
increment_response committed =
    if committed.disabled
    then record { total_hits = 0; reset_time = none }
    else if not committed.allowed
    then record { total_hits = committed.limit + 1; reset_time = some committed.reset_at }
    else record {
      total_hits = committed.limit - committed.remaining;
      reset_time = some committed.reset_at;
    }

unfoldable pub increment : RateLimitPolicy → ℕ → String → Buckets → IncrementResponse × Buckets
increment policy clock key m =
    let (route, identity) = split_bucket_key key in
    let (committed, m') = commit policy clock identity route (Num.fin (clock * millisecond)) m in
    (increment_response committed, m')
