-- ===== src/Security/Approvals/Tests.antt =====
-- A request that times out, and an approval that comes too late.
use rector.Prelude.{some, none, [], All, ◌≡◌, refl, lookup, insert, has, remove}
use rector.Security.Budget.{NormalizedUsage}
use rector.Security.Approvals.{
  approved, denied, decided, Registry, no_approvals, RegistryEvent, create, decide, wait, fire,
  step, is_possible, Reachable, begin, happen,
}
use rector.Security.Approvals.Finality.{status_of, step-final, Told, Reachable-Told}

abbrev usage : NormalizedUsage
usage = record {
  estimated_usd = 700000;
  actual_usd = 0;
  input_tokens = 10;
  output_tokens = 10;
  model_calls = 1;
  runtime_ms = 5;
  healing_attempts = 0;
  provider = none;
}

abbrev asked : Registry
asked = step (wait 1 "b-1") (step (create "b-1" "run-1" [] usage "12:00") no_approvals)

abbrev timed_out : Registry
timed_out = step (fire 1 "b-1" "12:05") asked

timed_out_denied : status_of "b-1" timed_out ≡ some (decided denied)
unfolding step lookup insert has remove
timed_out_denied = refl

abbrev late : RegistryEvent
late = decide "b-1" approved (some "operator") "12:06"

step-final_example : status_of "b-1" (step late timed_out) ≡ some (decided denied)
unfolding is_possible
step-final_example = step-final timed_out late "b-1" refl timed_out_denied

abbrev told_approved : Registry
told_approved = step late asked

reachable : Reachable told_approved
unfolding step is_possible lookup insert has remove
reachable =
    happen (happen (happen begin (create "b-1" "run-1" [] usage "12:00") refl) (wait 1 "b-1") refl)
      late refl

Reachable-Told_example : All (Told told_approved) told_approved.settled
Reachable-Told_example = Reachable-Told reachable
