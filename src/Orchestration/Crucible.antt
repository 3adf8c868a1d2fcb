-- ===== src/Orchestration/Crucible.antt =====
-- The crucible, which decides on a reviewed plan (src/orchestration/crucible.ts). The schemas that a
-- decision passes at the end hold but for one, the list of required changes, which must not be empty:
-- `none` is the error of that schema. Redaction keeps a text from becoming empty.
pub mod SkillPolicy
pub mod Prerequisites
mod Verdicts
mod Rounds
mod Tests
mod Activation
mod Failure
use rector.Prelude.{
  ℕ, zero, suc, ◌+◌, ◌/◌, min, max, Bool, true, false, not, ◌&&◌, ◌||◌, String, str_append, Option,
  none, some, List, [], ◌∷◌, ◌++◌, map, Num, includes, keep_if, length, lower, occurs, same_text,
  trim, if◌then◌else◌, ltb, str_eq,
}
use rector.Orchestration.Planner.{PlannerOutput}
use rector.Orchestration.Skeptic.{
  FindingSeverity, blocker, major, minor, SkepticFinding, ReviewVerdict, sound, blocked,
  SkepticReview,
}
use rector.Orchestration.Skills.{SkillActivationDecision}
use rector.Orchestration.Crucible.SkillPolicy.{
  SkillPolicyContext, evaluate_skill_activations, is_denied, is_approved,
}

abbrev pub crucible_max_rounds : ℕ
crucible_max_rounds = 2

pub data CrucibleVerdict : Type 0 where
  accepted needs_revision escalated plan_blocked : CrucibleVerdict

pub record CrucibleRevisionRequest : Type 0 where
  pub targeted_findings : List SkepticFinding
  pub required_changes : List String

pub record CrucibleEscalation : Type 0 where
  pub reason : String
  pub findings : List SkepticFinding
  pub exhausted_rounds : Bool

pub data CrucibleReasonCode : Type 0 where
  no_findings_accepted sound_review_accepted blocker_findings_blocked : CrucibleReasonCode
  skeptic_blocked repairable_findings_revision human_decision_escalated : CrucibleReasonCode
  max_rounds_escalated skill_policy_revision : CrucibleReasonCode

pub record CrucibleDecisionTrace : Type 0 where
  pub reason_code : CrucibleReasonCode
  pub targeted_finding_ids : List String
  pub repairable : Bool
  pub human_decision_required : Bool
  pub exhausted_rounds : Bool
  pub skill_activation : List SkillActivationDecision

pub record CrucibleDecision : Type 0 where
  pub verdict : CrucibleVerdict
  pub reason : String
  pub accepted_plan : Option PlannerOutput
  pub revision_request : Option CrucibleRevisionRequest
  pub escalation : Option CrucibleEscalation
  pub blocker_findings : List SkepticFinding
  pub round : ℕ
  pub created_at : String
  pub trace : CrucibleDecisionTrace

pub record CrucibleInput : Type 0 where
  pub planner_output : PlannerOutput
  pub skeptic_review : SkepticReview
  pub round : Option Num
  pub prior_rounds : Option Num
  pub now : String
  pub is_datetime : String → Bool
  pub skill_context : SkillPolicyContext

abbrev unit : ℕ
unit = 1000000

-- `Math.min(2, Math.max(1, Math.trunc(n)))` of a finite number, and 1 of another.
abbrev clamp_round : Num → ℕ
clamp_round (Num.fin n) = min crucible_max_rounds (max 1 (n / unit))
clamp_round _ = 1

-- The number plus 1, where it does not fall below 1; a smaller one counts as 1 in the end.
abbrev plus_one : Num → Num
plus_one (Num.fin n) = Num.fin (n + unit)
plus_one _ = Num.nan

abbrev prior_round : Option Num → ℕ
prior_round none = 1
prior_round (some n) = clamp_round (plus_one n)

abbrev pub bounded_round : CrucibleInput → ℕ
bounded_round input = elim input.round [
  | some n ↦ clamp_round n
  | none ↦ prior_round input.prior_rounds
]

abbrev pub is_blocker : FindingSeverity → Bool
is_blocker blocker = true
is_blocker _ = false

abbrev pub is_repairable : FindingSeverity → Bool
is_repairable major = true
is_repairable minor = true
is_repairable _ = false

abbrev pub blockers : List SkepticFinding → List SkepticFinding
blockers findings = keep_if (λ f. is_blocker f.severity) findings

abbrev pub repairable_findings : List SkepticFinding → List SkepticFinding
repairable_findings findings = keep_if (λ f. is_repairable f.severity) findings

unfoldable pub requires_human_decision : SkepticFinding → Bool
requires_human_decision finding =
    let category = lower finding.category in
    let text = lower (str_append finding.message (str_append " " finding.recommendation)) in
    same_text category (lower "approval")
    || same_text category (lower "clarification")
    || occurs (lower "human") text
    || occurs (lower "operator") text
    || occurs (lower "approval") text
    || occurs (lower "decision") text

abbrev pub add_new : String → List String → List String
add_new x xs = if includes x xs then xs else xs ++ x ∷ []

-- `[...new Set(changes)]` of the trimmed recommendations that are not empty.
unfoldable pub changes_from : List String → List SkepticFinding → List String
changes_from set [] = set
changes_from set (f ∷ fs) =
    let change = trim f.recommendation in
    changes_from (if str_eq change "" then set else add_new change set) fs

abbrev pub required_changes_for : List SkepticFinding → List String
required_changes_for findings = changes_from [] findings

-- The findings made of the denied skills, numbered from 1.
unfoldable pub skill_findings :
    SkillPolicyContext → ℕ → List SkillActivationDecision → List SkepticFinding
skill_findings context n [] = []
skill_findings context n (d ∷ ds) =
    record {
      id = str_append "skill.policy." (context.number (suc n));
      severity = major;
      task_id = none;
      category = "skill";
      message = context.redact (
          str_append "Requested skill "
            (str_append d.skill_id " was denied by crucible skill policy."));
      evidence = context.redact (
          str_append "requestedSkills included "
            (str_append d.skill_id (str_append "; policy reason: " d.reason)));
      recommendation =
          "Remove the skill request, request a known lower-risk skill, or satisfy the required approval/prerequisite gate.";
    }
    ∷ skill_findings context (suc n) ds

abbrev pub skill_findings_for :
    SkillPolicyContext → List SkillActivationDecision → List SkepticFinding
skill_findings_for context decisions =
    skill_findings context 0 (keep_if (λ d. is_denied d.decision) decisions)

abbrev pub is_sound : ReviewVerdict → Bool
is_sound sound = true
is_sound _ = false

abbrev pub is_blocked : ReviewVerdict → Bool
is_blocked blocked = true
is_blocked _ = false

abbrev pub is_nil {ℓ} : {A : Type ℓ} → List A → Bool
is_nil [] = true
is_nil (x ∷ xs) = false

abbrev ids_of : List SkepticFinding → List String
ids_of findings = map (λ (f : SkepticFinding). f.id) findings

-- What the branches have in common: the input, its round and its skills.
pub record Setting : Type 0 where
  pub input : CrucibleInput
  pub round : ℕ
  pub skills : List SkillActivationDecision

abbrev traced :
    Setting → CrucibleReasonCode → List SkepticFinding → Bool → Bool → Bool → CrucibleDecisionTrace
traced s code findings repairable human exhausted = record {
  reason_code = code;
  targeted_finding_ids = ids_of findings;
  repairable = repairable;
  human_decision_required = human;
  exhausted_rounds = exhausted;
  skill_activation = s.skills;
}

abbrev block_plan : Setting → List SkepticFinding → CrucibleDecision
block_plan s found = record {
  verdict = plan_blocked;
  reason =
      if is_nil found
      then "Crucible blocked execution because the skeptic review verdict is BLOCKED."
      else str_append "Crucible blocked execution because " (
          str_append (s.input.skill_context.number (length found))
            " BLOCKER finding(s) must be resolved before planning can continue.");
  accepted_plan = none;
  revision_request = none;
  escalation = none;
  blocker_findings = found;
  round = s.round;
  created_at = s.input.now;
  trace =
      traced s (if is_nil found then skeptic_blocked else blocker_findings_blocked) found false
        false (not (ltb s.round crucible_max_rounds));
}

abbrev accept_plan : Setting → CrucibleReasonCode → String → CrucibleDecision
accept_plan s code reason = record {
  verdict = accepted;
  reason = reason;
  accepted_plan = some s.input.planner_output;
  revision_request = none;
  escalation = none;
  blocker_findings = [];
  round = s.round;
  created_at = s.input.now;
  trace = traced s code [] false false false;
}

abbrev escalate_plan :
    Setting → CrucibleReasonCode → String → List SkepticFinding → Bool → Bool → CrucibleDecision
escalate_plan s code reason found human exhausted = record {
  verdict = escalated;
  reason = reason;
  accepted_plan = none;
  revision_request = none;
  escalation = some (record { reason = reason; findings = found; exhausted_rounds = exhausted });
  blocker_findings = [];
  round = s.round;
  created_at = s.input.now;
  trace = traced s code found false human exhausted;
}

abbrev revise_plan :
    Setting → CrucibleReasonCode → List SkepticFinding → List String → CrucibleDecision
revise_plan s code found changes = record {
  verdict = needs_revision;
  reason =
      str_append "Crucible requests targeted planner revision for "
        (str_append (s.input.skill_context.number (length found)) " MAJOR/MINOR finding(s).");
  accepted_plan = none;
  revision_request = some (record { targeted_findings = found; required_changes = changes });
  escalation = none;
  blocker_findings = [];
  round = s.round;
  created_at = s.input.now;
  trace = traced s code found true false false;
}

-- The cases on the findings, in the order of the source: the blockers, those of skills, those of the
-- review that can be repaired.
abbrev pub arbitrate :
    Setting
    → List SkepticFinding
    → List SkepticFinding
    → List SkepticFinding
    → Option CrucibleDecision
arbitrate s found by_skill by_review =
    let review = s.input.skeptic_review in
    let number = s.input.skill_context.number in
    let revision = by_skill ++ by_review in
    let human = keep_if requires_human_decision by_review in
    if is_blocked review.verdict || not (is_nil found)
    then some (block_plan s found)
    else if is_sound review.verdict && is_nil by_skill
    then some (
        accept_plan s sound_review_accepted
          "Crucible accepted the plan because the skeptic review found it SOUND.")
    else if not (is_nil human)
    then some (
        escalate_plan s human_decision_escalated
          (str_append "Crucible escalated because " (
            str_append (number (length human))
              " finding(s) require an explicit human/operator decision."))
          human true false)
    else if not (is_nil revision) && ltb s.round crucible_max_rounds
    then (if is_nil (required_changes_for revision)
        then none
        else some (
            revise_plan s
              (if is_nil by_skill then repairable_findings_revision else skill_policy_revision)
              revision (required_changes_for revision)))
    else if not (is_nil revision)
    then some (
        escalate_plan s max_rounds_escalated
          "Crucible escalated because max revision rounds (2) were exhausted with unresolved MAJOR/MINOR finding(s)."
          revision false true)
    else some (
        accept_plan s no_findings_accepted
          "Crucible accepted the plan because there are no blocker, major, or minor findings.")

-- The decision that the branches make, before its schema looks at the time.
unfoldable pub decided : CrucibleInput → Option CrucibleDecision
decided input =
    let skills = evaluate_skill_activations input.planner_output input.skill_context in
    let findings = input.skeptic_review.findings in
    arbitrate (record { input = input; round = bounded_round input; skills = skills })
      (blockers findings) (skill_findings_for input.skill_context skills)
      (repairable_findings findings)

-- `CrucibleDecisionSchema` rejects every decision whose time is not a datetime.
unfoldable pub arbitrate_plan_with_crucible : CrucibleInput → Option CrucibleDecision
unfolding decided
arbitrate_plan_with_crucible input = if input.is_datetime input.now then decided input else none

abbrev pub approved_skill_ids_from_decision : CrucibleDecision → List String
approved_skill_ids_from_decision d =
    map (λ (a : SkillActivationDecision). a.skill_id)
      (keep_if (λ a. is_approved a.decision) d.trace.skill_activation)
