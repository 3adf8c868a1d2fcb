-- ===== src/Security/Quotas.antt =====
-- The quotas of a workspace (src/security/quotas.ts). Money, minutes and megabytes are in millionths.
-- The date is its text in ISO form up to the day and up to the month. A message is the constructor of
-- `QuotaReason` that carries its numbers. The copies that the service takes and hands out are the
-- values themselves, and the validation of a policy, whose fields are numbers of at least 0 here, is left
-- out.
pub mod Limits
mod Tests
use rector.Prelude.{
  ℕ, ◌+◌, Bool, true, false, not, ◌&&◌, ◌||◌, String, Option, none, some, List, [], ◌∷◌, Dict,
  lookup, insert, Num, if◌then◌else◌, ltb, str_eq,
}

pub record QuotaPolicy : Type 0 where
  pub max_runs_per_day : Option ℕ
  pub max_usd_per_day : Option ℕ
  pub max_usd_per_month : Option ℕ
  pub max_provider_calls_per_run : Option ℕ
  pub max_sandbox_minutes_per_day : Option ℕ
  pub max_storage_mb : Option ℕ

abbrev pub no_policy : QuotaPolicy
no_policy = record {
  max_runs_per_day = none;
  max_usd_per_day = none;
  max_usd_per_month = none;
  max_provider_calls_per_run = none;
  max_sandbox_minutes_per_day = none;
  max_storage_mb = none;
}

pub record QuotaUsage : Type 0 where
  pub workspace_id : String
  pub day : String
  pub month : String
  pub runs_today : ℕ
  pub usd_today : ℕ
  pub usd_month : ℕ
  pub sandbox_minutes_today : ℕ
  pub storage_mb : ℕ
  pub provider_calls_by_run : Dict ℕ

pub record Date : Type 0 where
  pub day_key : String
  pub month_key : String

abbrev pub empty_usage : String → Date → QuotaUsage
empty_usage workspace_id date = record {
  workspace_id = workspace_id;
  day = date.day_key;
  month = date.month_key;
  runs_today = 0;
  usd_today = 0;
  usd_month = 0;
  sandbox_minutes_today = 0;
  storage_mb = 0;
  provider_calls_by_run = [];
}

pub data QuotaReason : Type 0 where
  daily_runs daily_usd monthly_usd provider_calls daily_minutes storage : ℕ → ℕ → QuotaReason
  invalid_delta : QuotaReason

pub record QuotaCheck : Type 0 where
  pub allowed : Bool
  pub reason : Option QuotaReason
  pub policy : QuotaPolicy
  pub usage : QuotaUsage

abbrev pub deny : QuotaPolicy → QuotaUsage → QuotaReason → QuotaCheck
deny policy usage reason = record {
  allowed = false;
  reason = some reason;
  policy = policy;
  usage = usage;
}

abbrev pub allow : QuotaPolicy → QuotaUsage → QuotaCheck
allow policy usage = record { allowed = true; reason = none; policy = policy; usage = usage }

-- An absent delta is 0; one that is negative or not finite is none.
abbrev pub non_negative_usage_delta : Option Num → Option ℕ
non_negative_usage_delta none = some 0
non_negative_usage_delta (some (Num.fin n)) = some n
non_negative_usage_delta (some _) = none

pub record QuotaService : Type 0 where
  pub policies : Dict QuotaPolicy
  pub usage_by_workspace : Dict QuotaUsage

abbrev is_current : QuotaUsage → Date → Bool
is_current u date = str_eq u.day date.day_key && str_eq u.month date.month_key

-- The stored usage if it is of the day and month, and else an empty one with the storage kept.
abbrev pub renewed : String → Date → Option QuotaUsage → QuotaUsage
renewed workspace_id date none = empty_usage workspace_id date
renewed workspace_id date (some u) =
    if is_current u date
    then u
    else record (empty_usage workspace_id date) { storage_mb = u.storage_mb }

abbrev set_usage : String → QuotaUsage → QuotaService → QuotaService
set_usage workspace_id u s = record s {
  usage_by_workspace = insert workspace_id u s.usage_by_workspace;
}

unfoldable pub get_current_usage : String → Date → QuotaService → QuotaUsage × QuotaService
get_current_usage workspace_id date s =
    let u = renewed workspace_id date (lookup workspace_id s.usage_by_workspace) in
    (u, set_usage workspace_id u s)

abbrev or_no_policy : Option QuotaPolicy → QuotaPolicy
or_no_policy none = no_policy
or_no_policy (some p) = p

unfoldable pub current_policy : String → QuotaService → QuotaPolicy
current_policy workspace_id s = or_no_policy (lookup workspace_id s.policies)

unfoldable pub set_policy : String → QuotaPolicy → QuotaService → QuotaService
set_policy workspace_id policy s = record s { policies = insert workspace_id policy s.policies }

-- Whether an amount passes a limit, if there is one.
abbrev pub exceeds : Option ℕ → ℕ → Bool
exceeds none n = false
exceeds (some limit) n = ltb limit n

abbrev limit_of : Option ℕ → ℕ
limit_of none = 0
limit_of (some limit) = limit

abbrev pub check_usd : QuotaPolicy → QuotaUsage → ℕ → Option QuotaCheck
check_usd policy usage delta =
    if exceeds policy.max_usd_per_day (usage.usd_today + delta)
    then some
        (deny policy usage (daily_usd (usage.usd_today + delta) (limit_of policy.max_usd_per_day)))
    else if exceeds policy.max_usd_per_month (usage.usd_month + delta)
    then some (
        deny policy usage
          (monthly_usd (usage.usd_month + delta) (limit_of policy.max_usd_per_month)))
    else none

unfoldable pub check_run_creation : String → Date → QuotaService → QuotaCheck × QuotaService
check_run_creation workspace_id date s =
    let policy = current_policy workspace_id s in
    let (usage, s') = get_current_usage workspace_id date s in
    (
      if exceeds policy.max_runs_per_day (usage.runs_today + 1)
          then deny policy usage
              (daily_runs (usage.runs_today + 1) (limit_of policy.max_runs_per_day))
          else allow policy usage,
      s',
    )

-- A record that throws has renewed the usage and nothing else.
abbrev pub record_delta :
    Option ℕ
    → (QuotaUsage → ℕ → QuotaUsage)
    → String
    → QuotaUsage × QuotaService
    → Option QuotaUsage × QuotaService
record_delta none f workspace_id (usage, s) = (none, s)
record_delta (some delta) f workspace_id (usage, s) =
    (some (f usage delta), set_usage workspace_id (f usage delta) s)

unfoldable pub record_run_created :
    String → Option Num → Date → QuotaService → Option QuotaUsage × QuotaService
record_run_created workspace_id estimated_usd date s =
    record_delta (non_negative_usage_delta estimated_usd)
      (λ u delta. record u {
        runs_today = u.runs_today + 1;
        usd_today = u.usd_today + delta;
        usd_month = u.usd_month + delta;
      })
      workspace_id (get_current_usage workspace_id date s)

abbrev or_zero : Option ℕ → ℕ
or_zero none = 0
or_zero (some n) = n

abbrev pub calls_of : String → QuotaUsage → ℕ
calls_of run_id usage = or_zero (lookup run_id usage.provider_calls_by_run)

abbrev or_allow : QuotaPolicy → QuotaUsage → Option QuotaCheck → QuotaCheck
or_allow policy usage none = allow policy usage
or_allow policy usage (some denial) = denial

abbrev pub check_spending : QuotaPolicy → QuotaUsage → Option ℕ → QuotaCheck
check_spending policy usage none = deny policy usage invalid_delta
check_spending policy usage (some delta) = or_allow policy usage (check_usd policy usage delta)

unfoldable pub check_provider_call :
    String → String → Option Num → Date → QuotaService → QuotaCheck × QuotaService
check_provider_call workspace_id run_id estimated_usd date s =
    let policy = current_policy workspace_id s in
    let (usage, s') = get_current_usage workspace_id date s in
    let calls = calls_of run_id usage + 1 in
    (
      if exceeds policy.max_provider_calls_per_run calls
          then deny policy usage (provider_calls calls (limit_of policy.max_provider_calls_per_run))
          else check_spending policy usage (non_negative_usage_delta estimated_usd),
      s',
    )

unfoldable pub record_provider_call :
    String → String → Option Num → Date → QuotaService → Option QuotaUsage × QuotaService
record_provider_call workspace_id run_id estimated_usd date s =
    record_delta (non_negative_usage_delta estimated_usd)
      (λ u delta. record u {
        provider_calls_by_run = insert run_id (calls_of run_id u + 1) u.provider_calls_by_run;
        usd_today = u.usd_today + delta;
        usd_month = u.usd_month + delta;
      })
      workspace_id (get_current_usage workspace_id date s)

abbrev check_amount :
    QuotaPolicy → QuotaUsage → Option ℕ → (ℕ → ℕ) → Option ℕ → (ℕ → ℕ → QuotaReason) → QuotaCheck
check_amount policy usage none total limit reason = deny policy usage invalid_delta
check_amount policy usage (some delta) total limit reason =
    if exceeds limit (total delta)
    then deny policy usage (reason (total delta) (limit_of limit))
    else allow policy usage

unfoldable pub check_sandbox_minutes :
    String → Num → Date → QuotaService → QuotaCheck × QuotaService
check_sandbox_minutes workspace_id minutes date s =
    let policy = current_policy workspace_id s in
    let (usage, s') = get_current_usage workspace_id date s in
    (
      check_amount policy usage (non_negative_usage_delta (some minutes))
          (λ delta. usage.sandbox_minutes_today + delta) policy.max_sandbox_minutes_per_day
          daily_minutes,
      s',
    )

unfoldable pub record_sandbox_minutes :
    String → Num → Date → QuotaService → Option QuotaUsage × QuotaService
record_sandbox_minutes workspace_id minutes date s =
    record_delta (non_negative_usage_delta (some minutes))
      (λ u delta. record u { sandbox_minutes_today = u.sandbox_minutes_today + delta }) workspace_id
      (get_current_usage workspace_id date s)

unfoldable pub check_storage : String → Num → Date → QuotaService → QuotaCheck × QuotaService
check_storage workspace_id storage_mb date s =
    let policy = current_policy workspace_id s in
    let (usage, s') = get_current_usage workspace_id date s in
    (
      check_amount policy usage (non_negative_usage_delta (some storage_mb)) (λ mb. mb)
          policy.max_storage_mb storage,
      s',
    )

unfoldable pub record_storage :
    String → Num → Date → QuotaService → Option QuotaUsage × QuotaService
record_storage workspace_id storage_mb date s =
    record_delta (non_negative_usage_delta (some storage_mb)) (λ u mb. record u { storage_mb = mb })
      workspace_id (get_current_usage workspace_id date s)
