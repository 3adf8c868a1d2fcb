-- ===== src/Security/Quotas/Tests.antt =====
-- A workspace of ten dollars a month, and the theorems on it.
use rector.Prelude.{true, some, [], ◌∷◌, Num, ◌≡◌, refl, arith, lookup}
use rector.Security.Quotas.{
  QuotaPolicy, no_policy, QuotaUsage, Date, QuotaService, current_policy, check_provider_call,
  record_provider_call, get_current_usage,
}
use rector.Security.Quotas.Limits.{
  IsWithin, record_provider_call-IsWithin, check_provider_call-new_day,
}

abbrev ten_a_month : QuotaPolicy
ten_a_month = record no_policy {
  max_usd_per_month = some 10000000;
  max_provider_calls_per_run = some 3;
}

abbrev second : Date
second = record { day_key = "2026-05-02"; month_key = "2026-05" }

-- All of the month's money was spent on the first.
abbrev spent : QuotaUsage
spent = record {
  workspace_id = "w";
  day = "2026-05-01";
  month = "2026-05";
  runs_today = 1;
  usd_today = 10000000;
  usd_month = 10000000;
  sandbox_minutes_today = 0;
  storage_mb = 0;
  provider_calls_by_run = ("run-1", 3) ∷ [];
}

abbrev service : QuotaService
service = record { policies = ("w", ten_a_month) ∷ []; usage_by_workspace = ("w", spent) ∷ [] }

allowed : (check_provider_call "w" "run-1" (some (Num.fin 4000000)) second service).0.allowed ≡ true
unfolding check_provider_call get_current_usage current_policy lookup
allowed = refl

record_provider_call-IsWithin_example :
    (usage : QuotaUsage) × ((record_provider_call "w" "run-1"
        (some (Num.fin 4000000))
        second
        (check_provider_call "w" "run-1" (some (Num.fin 4000000)) second service).1).0
      ≡ some usage)
    × IsWithin (current_policy "w" service) "run-1" usage
record_provider_call-IsWithin_example =
    record_provider_call-IsWithin "w" "run-1" (some (Num.fin 4000000)) second service allowed

check_provider_call-new_day_example :
    (check_provider_call "w" "run-1" (some (Num.fin 10000000)) second service).0.allowed ≡ true
unfolding current_policy lookup
check_provider_call-new_day_example =
    check_provider_call-new_day "w" "run-1" 10000000 second service refl refl (omega arith) tt
      (omega arith)
