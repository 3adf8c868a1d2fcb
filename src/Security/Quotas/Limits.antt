-- ===== src/Security/Quotas/Limits.antt =====
-- Checking before recording keeps a workspace within its quotas, day by day.
use rector.Prelude.{
  ℕ, ◌+◌, ◌≤◌, true, false, String, Option, none, some, lookup, insert, lookup-insert, Num, str_eq,
  ◌≡◌, refl, inl, inr, arith, eq_iff, Bool-cases,
}
use rector.Security.Quotas.{
  QuotaPolicy, QuotaUsage, Date, QuotaService, renewed, exceeds, calls_of, check_spending,
  current_policy, non_negative_usage_delta, get_current_usage, check_provider_call,
  record_provider_call,
}

-- An amount within a limit, if there is one.
abbrev pub Within : ℕ → Option ℕ → Type 0
Within n none = Unit
Within n (some limit) = n ≤ limit

exceeds-Within : (limit : Option ℕ) (n : ℕ) → exceeds limit n ≡ false → Within n limit
exceeds-Within none n h = tt
exceeds-Within (some limit) n h = ground arith

Within-exceeds : (limit : Option ℕ) (n : ℕ) → Within n limit → exceeds limit n ≡ false
Within-exceeds none n h = refl
Within-exceeds (some limit) n h = ground arith

-- A usage that is within the limits that a provider call is checked against.
pub record IsWithin (policy : QuotaPolicy) (run_id : String) (usage : QuotaUsage) : Type 0 where
  pub usd_today : Within usage.usd_today policy.max_usd_per_day
  pub usd_month : Within usage.usd_month policy.max_usd_per_month
  pub calls : Within (calls_of run_id usage) policy.max_provider_calls_per_run

renewed-again :
    (id : String) (date : Date) (o : Option QuotaUsage)
    → renewed id date (some (renewed id date o)) ≡ renewed id date o
renewed-again id date none =
    ground (arith, eq_iff date.day_key date.day_key, eq_iff date.month_key date.month_key)
renewed-again id date (some u) =
    ground (arith, eq_iff date.day_key date.day_key, eq_iff date.month_key date.month_key)

-- The usage of a moment is stored, so that another reading of it is the same.
get_current_usage-again :
    (id : String) (date : Date) (s : QuotaService)
    → (get_current_usage id date (get_current_usage id date s).1).0
      ≡ (get_current_usage id date s).0
unfolding get_current_usage
get_current_usage-again id date s =
    let self : str_eq id id ≡ true = (eq_iff id id).1 refl in
    rw (lookup-insert, self) (renewed-again id date (lookup id s.usage_by_workspace))

-- What the usage is after a provider call of a cost is recorded.
abbrev pub with_call : String → ℕ → QuotaUsage → QuotaUsage
with_call run_id delta u = record u {
  provider_calls_by_run = insert run_id (calls_of run_id u + 1) u.provider_calls_by_run;
  usd_today = u.usd_today + delta;
  usd_month = u.usd_month + delta;
}

calls_of-with_call :
    (run_id : String) (delta : ℕ) (u : QuotaUsage)
    → calls_of run_id (with_call run_id delta u) ≡ calls_of run_id u + 1
calls_of-with_call run_id delta u =
    let self : str_eq run_id run_id ≡ true = (eq_iff run_id run_id).1 refl in
    rw (lookup-insert, self) refl

-- What an allowed call of a known cost says of the usage that it leads to.
spending-IsWithin :
    (policy : QuotaPolicy) (run_id : String) (u : QuotaUsage) (cost : Option ℕ)
    → exceeds policy.max_provider_calls_per_run (calls_of run_id u + 1) ≡ false
    → (check_spending policy u cost).allowed ≡ true
    → (delta : ℕ) × (cost ≡ some delta) × IsWithin policy run_id (with_call run_id delta u)
spending-IsWithin policy run_id u none few h = cc
spending-IsWithin policy run_id u (some delta) few h =
    elim (Bool-cases (exceeds policy.max_usd_per_day (u.usd_today + delta))) [
      | inl over ↦ cc (rw over at h)
      | inr day ↦ elim (Bool-cases (exceeds policy.max_usd_per_month (u.usd_month + delta))) [
        | inl over ↦ cc (rw (day, over) at h)
        | inr month ↦ (
          delta,
          refl,
          record {
            usd_today = exceeds-Within policy.max_usd_per_day (u.usd_today + delta) day;
            usd_month = exceeds-Within policy.max_usd_per_month (u.usd_month + delta) month;
            calls =
                rw (calls_of-with_call run_id delta u)
                  (exceeds-Within policy.max_provider_calls_per_run (calls_of run_id u + 1) few);
          },
        )
      ]
    ]

-- A provider call that the service allows, and then records at the same moment, leaves the spending
-- of the day and of the month and the calls of the run within their limits.
pub record_provider_call-IsWithin :
    (id run_id : String) (estimate : Option Num) (date : Date) (s : QuotaService)
    → (check_provider_call id run_id estimate date s).0.allowed ≡ true
    → (usage : QuotaUsage) × ((record_provider_call id run_id estimate date
          (check_provider_call id run_id estimate date s).1).0
        ≡ some usage)
      × IsWithin (current_policy id s) run_id usage
unfolding check_provider_call record_provider_call
record_provider_call-IsWithin id run_id estimate date s h =
    let policy = current_policy id s in
    let u = (get_current_usage id date s).0 in
    elim (Bool-cases (exceeds policy.max_provider_calls_per_run (calls_of run_id u + 1))) [
      | inl over ↦ cc (rw over at h)
      | inr few ↦
          let (delta, cost, within) =
            spending-IsWithin policy run_id u (non_negative_usage_delta estimate) few
              (rw few at h) in
          (with_call run_id delta u, rw (cost, get_current_usage-again id date s) refl, within)
    ]

-- A usage of an earlier day is as good as none, also for the month: whatever the workspace spent in the
-- month before today, a call that alone keeps to the limits is allowed as the first of the day.
pub check_provider_call-new_day :
    (id run_id : String) (cost : ℕ) (date : Date) (s : QuotaService) {u : QuotaUsage}
    → lookup id s.usage_by_workspace ≡ some u
    → str_eq u.day date.day_key ≡ false
    → Within 1 (current_policy id s).max_provider_calls_per_run
    → Within cost (current_policy id s).max_usd_per_day
    → Within cost (current_policy id s).max_usd_per_month
    → (check_provider_call id run_id (some (Num.fin cost)) date s).0.allowed ≡ true
unfolding check_provider_call get_current_usage lookup
check_provider_call-new_day id run_id cost date s {u} stored newer calls daily monthly =
    let few = Within-exceeds (current_policy id s).max_provider_calls_per_run 1 calls in
    let day = Within-exceeds (current_policy id s).max_usd_per_day cost daily in
    let month = Within-exceeds (current_policy id s).max_usd_per_month cost monthly in
    let alone : 0 + cost ≡ cost = omega arith in rw (stored, newer, few, alone, day, month) refl
