-- ===== src/Orchestration/Crucible/SkillPolicy.antt =====
-- Which of the skills that a plan asks for are activated (src/orchestration/crucible.ts).
use rector.Prelude.{
  ℕ, suc, ◌/◌, max, Bool, true, false, not, ◌&&◌, ◌||◌, String, str_append, Option, none, some,
  List, [], ◌∷◌, Num, includes, keep_if, any, lower, same_text, trim, first_token, join,
  if◌then◌else◌, leb, str_eq,
}
use rector.Orchestration.Planner.{PlannerTask, ApprovalGate, PlannerOutput}
use rector.Orchestration.Skills.{
  SkillRisk, high, SkillPrerequisites, SkillManifest, ActivationStatus, approved, denied, deferred,
  SkillActivationDecision, skill_risk_of,
}

-- The catalog as the function that looks an id up; `redact` and the text of a number are arguments.
pub record SkillPolicyContext : Type 0 where
  pub catalog : String → Option SkillManifest
  pub max_skills : Option Num
  pub allowlisted_commands : Option (List String)
  pub available_env_vars : Option (List String)
  pub platform : String
  pub redact : String → String
  pub number : ℕ → String

abbrev unit : ℕ
unit = 1000000

-- `Math.max(1, Math.trunc(maxSkills ?? 5))`; none if nothing is above it or the comparison never holds.
abbrev pub skill_cap : Option Num → Option ℕ
skill_cap none = some 5
skill_cap (some (Num.fin n)) = some (max 1 (n / unit))
skill_cap (some (Num.neg n)) = some 1
skill_cap (some Num.neg_infinity) = some 1
skill_cap (some Num.nan) = none
skill_cap (some Num.infinity) = none

abbrev pub is_capped : Option ℕ → ℕ → Bool
is_capped none index = false
is_capped (some cap) index = leb cap index

-- The loop of `uniqueRequestedSkillIds`.
unfoldable pub unique_skill_ids : List String → List String → List String
unique_skill_ids seen [] = []
unique_skill_ids seen (v ∷ values) =
    let id = trim v in
    let skipped = unique_skill_ids seen values in
    let kept = unique_skill_ids (id ∷ seen) values in
    if str_eq id "" || includes id seen then skipped else id ∷ kept

abbrev pub plan_has_required_approval_gate : PlannerOutput → Bool
plan_has_required_approval_gate plan =
    any (λ (g : ApprovalGate). g.required) plan.approval_gates
    || any (λ (t : PlannerTask). t.approval_required) plan.tasks

unfoldable pub command_allowed : String → List String → Bool
command_allowed command allowed =
    includes command allowed || includes (first_token (trim command)) allowed

unfoldable pub platform_matches : String → String → Bool
platform_matches candidate current =
    let normalized = lower (trim candidate) in
    let platform = lower current in
    same_text normalized platform
    || (same_text normalized (lower "windows") && same_text platform (lower "win32"))
    || (same_text normalized (lower "macos") && same_text platform (lower "darwin"))
    || (same_text normalized (lower "linux") && same_text platform (lower "linux"))

abbrev pub or_no_texts : Option (List String) → List String
or_no_texts none = []
or_no_texts (some xs) = xs

abbrev is_nil {ℓ} : {A : Type ℓ} → List A → Bool
is_nil [] = true
is_nil (x ∷ xs) = false

-- A refusal, if there is one: the status and the reason.
abbrev pub Refusal : Type 0
Refusal = Option (ActivationStatus × String)

abbrev pub first_refusal : Refusal → Refusal → Refusal
first_refusal none later = later
first_refusal (some r) later = some r

abbrev pub platform_refusal : List String → String → Refusal
platform_refusal platforms platform =
    if not (is_nil platforms) && not (any (λ c. platform_matches c platform) platforms)
    then some (
      denied,
      str_append "Skill platform prerequisite is not satisfied for " (str_append platform "."),
    )
    else none

abbrev pub missing_refusal : List String → String → Refusal
missing_refusal missing text =
    if is_nil missing
    then none
    else some (denied, str_append text (str_append (join ", " missing) "."))

abbrev pub command_refusal : List String → Option (List String) → Refusal
command_refusal [] allowed = none
command_refusal (c ∷ cs) none = some (
  deferred,
  "Command prerequisites require sandbox allowlist data that is not available for this run.",
)
command_refusal (c ∷ cs) (some allowed) =
    missing_refusal (keep_if (λ x. not (command_allowed x allowed)) (c ∷ cs))
      "Command prerequisites are not allowed by sandbox policy: "

abbrev pub env_refusal : List String → Option (List String) → Refusal
env_refusal [] available = none
env_refusal (v ∷ vs) none = some (
  deferred,
  "Environment prerequisites require UI-managed readiness data that is not available for this run.",
)
env_refusal (v ∷ vs) (some available) =
    missing_refusal (keep_if (λ x. not (includes x available)) (v ∷ vs))
      "Environment prerequisites are not marked ready: "

abbrev pub refusal_of : Option SkillPrerequisites → SkillPolicyContext → Refusal
refusal_of none context = none
refusal_of (some p) context =
    first_refusal (platform_refusal (or_no_texts p.platforms) context.platform) (
      first_refusal (command_refusal (or_no_texts p.commands) context.allowlisted_commands)
        (env_refusal (or_no_texts p.env_vars) context.available_env_vars))

unfoldable pub evaluate_prerequisites : SkillManifest → SkillPolicyContext → Refusal
unfolding command_allowed platform_matches
evaluate_prerequisites manifest context = refusal_of manifest.frontmatter.prerequisites context

abbrev pub skill_decision :
    SkillPolicyContext → String → ActivationStatus → String → SkillActivationDecision
skill_decision context id decision reason = record {
  skill_id = context.redact id;
  decision = decision;
  reason = context.redact reason;
}

abbrev pub is_high : SkillRisk → Bool
is_high high = true
is_high _ = false

abbrev pub decision_of_refusal : SkillPolicyContext → String → Refusal → SkillActivationDecision
decision_of_refusal context id (some (status, reason)) = skill_decision context id status reason
decision_of_refusal context id none =
    skill_decision context id approved "Skill exists and policy prerequisites are satisfied."

abbrev cap_text : (ℕ → String) → Option ℕ → String
cap_text number none = ""
cap_text number (some n) = number n

abbrev pub decision_of_manifest :
    PlannerOutput → SkillPolicyContext → String → Option SkillManifest → SkillActivationDecision
decision_of_manifest plan context id none =
    skill_decision context id denied "Unknown skill id requested by planner."
decision_of_manifest plan context id (some manifest) =
    if is_high (skill_risk_of manifest) && not (plan_has_required_approval_gate plan)
    then skill_decision context id denied
        "High-risk skill requires an explicit required approval gate in the plan."
    else decision_of_refusal context id (evaluate_prerequisites manifest context)

-- The body of the loop, at the index of the id.
unfoldable pub activation :
    PlannerOutput → SkillPolicyContext → ℕ → String → SkillActivationDecision
unfolding evaluate_prerequisites
activation plan context index id =
    if is_capped (skill_cap context.max_skills) index
    then skill_decision context id denied (
        str_append "Skill cap exceeded: at most " (
          str_append (cap_text context.number (skill_cap context.max_skills))
            " skill(s) may be activated per run."))
    else decision_of_manifest plan context id (context.catalog id)

unfoldable pub activations :
    PlannerOutput → SkillPolicyContext → ℕ → List String → List SkillActivationDecision
unfolding activation
activations plan context index [] = []
activations plan context index (id ∷ ids) =
    activation plan context index id ∷ activations plan context (suc index) ids

unfoldable pub evaluate_skill_activations :
    PlannerOutput → SkillPolicyContext → List SkillActivationDecision
evaluate_skill_activations plan context =
    activations plan context 0 (unique_skill_ids [] plan.requested_skills)

abbrev pub is_approved : ActivationStatus → Bool
is_approved approved = true
is_approved _ = false

abbrev pub is_denied : ActivationStatus → Bool
is_denied denied = true
is_denied _ = false
