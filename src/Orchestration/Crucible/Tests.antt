-- ===== src/Orchestration/Crucible/Tests.antt =====
-- Runs of the crucible on small plans (src/orchestration/crucible.ts).
use rector.Prelude.{
  true, false, String, Option, none, some, List, [], ◌∷◌, ◌≡◌, ◌↔◌, refl, All, keep_if, length, Num,
  str_eq, trim, lower, occurs, same_text, includes, first_token, if◌then◌else◌, ◌⊎◌,
}
use rector.Orchestration.Planner.{PlannerOutput, PlannerRiskLevel}
use rector.Orchestration.Skeptic.{
  SkepticFinding, SkepticReview, ReviewVerdict, FindingSeverity, minor, info,
}
use rector.Orchestration.Skills.{SkillManifest, SkillRisk}
use rector.Orchestration.Crucible.{
  accepted, CrucibleVerdict, CrucibleReasonCode, CrucibleDecision, CrucibleInput,
  arbitrate_plan_with_crucible, decided, requires_human_decision, changes_from, skill_findings,
}
use rector.Orchestration.Crucible.SkillPolicy.{
  SkillPolicyContext, evaluate_skill_activations, unique_skill_ids, activations,
}
use rector.Orchestration.Crucible.Verdicts.{
  Clear, Dated, verdict_of, plan_of, arbitrate_plan-accepts_iff,
}
use rector.Orchestration.Crucible.Failure.{Unaskable, arbitrate_plan-fails_iff}
use rector.Orchestration.Crucible.Activation.{
  Permitted, approved_of, evaluate_skill_activations-Permitted,
}

abbrev lint : SkillManifest
lint = record {
  id = "lint";
  frontmatter = record {
    name = "lint";
    description = "Runs the linter";
    prerequisites =
        some (record { commands = some ("npx eslint" ∷ []); env_vars = none; platforms = none });
    metadata = none;
  };
  skill_path = "skills/lint";
  bundled = true;
  files = [];
}

abbrev deploy : SkillManifest
deploy = record {
  id = "deploy";
  frontmatter = record {
    name = "deploy";
    description = "Deploys";
    prerequisites = none;
    metadata = some (record { tags = none; related_skills = none; risk = some SkillRisk.high });
  };
  skill_path = "skills/deploy";
  bundled = true;
  files = [];
}

abbrev shelf : String → Option SkillManifest
shelf id = if str_eq id "lint" then some lint else if str_eq id "deploy" then some deploy else none

abbrev policy : SkillPolicyContext
policy = record {
  catalog = shelf;
  max_skills = some (Num.fin 2000000);
  allowlisted_commands = some ("npx" ∷ []);
  available_env_vars = none;
  platform = "linux";
  redact = λ s. s;
  number = λ n. "2";
}

abbrev plan_with : List String → PlannerOutput
plan_with skills = record {
  goal = "Ship";
  assumptions = [];
  tasks = [];
  dependencies = [];
  validation = record { summary = "Tests pass"; checks = [] };
  risk_level = PlannerRiskLevel.low;
  approval_gates = [];
  requested_skills = skills;
}

abbrev finding_of : FindingSeverity → String → SkepticFinding
finding_of severity recommendation = record {
  id = "f1";
  severity = severity;
  task_id = none;
  category = "validation";
  message = "No test for it";
  evidence = "task t1";
  recommendation = recommendation;
}

abbrev review_of : ReviewVerdict → List SkepticFinding → SkepticReview
review_of verdict findings = record {
  verdict = verdict;
  findings = findings;
  reviewed_plan_id = none;
  plan_goal = some "Ship";
  created_at = "2026-01-01T00:00:00.000Z";
}

abbrev input_of : List String → ReviewVerdict → List SkepticFinding → CrucibleInput
input_of skills verdict findings = record {
  planner_output = plan_with skills;
  skeptic_review = review_of verdict findings;
  round = none;
  prior_rounds = none;
  now = "2026-01-01T00:00:00.000Z";
  is_datetime = λ text. str_eq text "2026-01-01T00:00:00.000Z";
  skill_context = policy;
}

abbrev noted : CrucibleInput
noted = input_of ("lint" ∷ []) ReviewVerdict.needs_revision (finding_of info "Add a test" ∷ [])

abbrev minor_gap : CrucibleInput
minor_gap = input_of [] ReviewVerdict.needs_revision (finding_of minor "Add a test" ∷ [])

abbrev speechless : CrucibleInput
speechless = input_of [] ReviewVerdict.needs_revision (finding_of minor "  " ∷ [])

arbitrate_plan-accepts_iff_example :
    ((verdict_of (arbitrate_plan_with_crucible noted) ≡ some accepted)
      ↔ (Dated noted × Clear noted))
    × ((plan_of (arbitrate_plan_with_crucible noted) ≡ some noted.planner_output)
        ↔ (Dated noted × Clear noted))
arbitrate_plan-accepts_iff_example = arbitrate_plan-accepts_iff noted

noted-accepted : verdict_of (arbitrate_plan_with_crucible noted) ≡ some accepted
unfolding arbitrate_plan_with_crucible decided skill_findings evaluate_skill_activations activations
    unique_skill_ids trim includes first_token
noted-accepted = refl

abbrev gap : SkepticFinding
gap = finding_of minor "Add a test"

abbrev revised : CrucibleDecision
revised = record {
  verdict = CrucibleVerdict.needs_revision;
  reason = "Crucible requests targeted planner revision for 2 MAJOR/MINOR finding(s).";
  accepted_plan = none;
  revision_request =
      some (record { targeted_findings = gap ∷ []; required_changes = "Add a test" ∷ [] });
  escalation = none;
  blocker_findings = [];
  round = 1;
  created_at = "2026-01-01T00:00:00.000Z";
  trace = record {
    reason_code = CrucibleReasonCode.repairable_findings_revision;
    targeted_finding_ids = "f1" ∷ [];
    repairable = true;
    human_decision_required = false;
    exhausted_rounds = false;
    skill_activation = [];
  };
}

minor_gap-revised : arbitrate_plan_with_crucible minor_gap ≡ some revised
unfolding arbitrate_plan_with_crucible decided skill_findings evaluate_skill_activations activations
    unique_skill_ids trim includes first_token requires_human_decision changes_from lower occurs
    same_text
minor_gap-revised = refl

arbitrate_plan-fails_iff_example :
    (arbitrate_plan_with_crucible speechless ≡ none)
    ↔ ((speechless.is_datetime speechless.now ≡ false) ⊎ Unaskable speechless)
arbitrate_plan-fails_iff_example = arbitrate_plan-fails_iff speechless

speechless-fails : arbitrate_plan_with_crucible speechless ≡ none
unfolding arbitrate_plan_with_crucible decided skill_findings evaluate_skill_activations activations
    unique_skill_ids trim includes first_token requires_human_decision changes_from lower occurs
    same_text
speechless-fails = refl

-- Of these the first is approved, the second lacks a gate and the third is over the cap.
abbrev wishes : PlannerOutput
wishes = plan_with ("lint" ∷ "deploy" ∷ "lint" ∷ "review" ∷ [])

evaluate_skill_activations-Permitted_example :
    All (Permitted wishes policy) (keep_if approved_of (evaluate_skill_activations wishes policy))
evaluate_skill_activations-Permitted_example = evaluate_skill_activations-Permitted wishes policy

wishes-approved : length (keep_if approved_of (evaluate_skill_activations wishes policy)) ≡ 1
unfolding evaluate_skill_activations activations unique_skill_ids trim includes first_token
    approved_of
wishes-approved = refl
