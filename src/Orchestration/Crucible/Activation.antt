-- ===== src/Orchestration/Crucible/Activation.antt =====
-- Which skills the crucible lets a plan activate (src/orchestration/crucible.ts).
use rector.Prelude.{
  ℕ, suc, ◌-◌, ◌≤◌, ◌&&◌, Bool, true, false, not, String, Option, none, some, List, [], ◌∷◌, ◌≡◌,
  ◌≢◌, ◌⊎◌, inl, inr, refl, All, keep_if, length, Bool-cases, arith,
}
use rector.Orchestration.Planner.{PlannerOutput}
use rector.Orchestration.Skills.{
  high, SkillPrerequisites, SkillManifest, SkillActivationDecision, skill_risk_of,
}
use rector.Orchestration.Crucible.Prerequisites.{
  Satisfied, Gated, refusal_of-Satisfied, gate-Gated, not_high,
}
use rector.Orchestration.Crucible.SkillPolicy.{
  SkillPolicyContext, skill_cap, is_capped, is_high, is_approved, activation, activations,
  decision_of_manifest, decision_of_refusal, first_refusal, platform_refusal, command_refusal,
  env_refusal, or_no_texts, refusal_of, Refusal, evaluate_prerequisites, evaluate_skill_activations,
  unique_skill_ids, plan_has_required_approval_gate,
}

unfoldable pub approved_of : SkillActivationDecision → Bool
approved_of a = is_approved a.decision

-- Why a skill may be activated: the catalog has it, its prerequisites hold, and the plan is gated if
-- the skill is of high risk.
abbrev pub Permitted : PlannerOutput → SkillPolicyContext → SkillActivationDecision → Type 0
Permitted plan context a =
    (id : String) × (manifest : SkillManifest) × (a.skill_id ≡ context.redact id)
    × (context.catalog id ≡ some manifest)
    × Satisfied manifest.frontmatter.prerequisites context
    × ((skill_risk_of manifest ≢ high) ⊎ Gated plan)

not_both : (a b : Bool) → a && not b ≡ false → (a ≡ false) ⊎ (b ≡ true)
not_both false b h = inl refl
not_both true b h = inr (ground arith)

-- A refusal does not approve.
abbrev refuses : Refusal → Bool
refuses none = true
refuses (some (status, reason)) = not (is_approved status)

first_refusal-refuses :
    (a b : Refusal) → refuses a ≡ true → refuses b ≡ true → refuses (first_refusal a b) ≡ true
first_refusal-refuses none b h k = k
first_refusal-refuses (some (status, reason)) b h k = h

platform_refusal-refuses :
    (platforms : List String) (platform : String)
    → refuses (platform_refusal platforms platform) ≡ true
platform_refusal-refuses platforms platform = ground arith

command_refusal-refuses :
    (commands : List String) (allowed : Option (List String))
    → refuses (command_refusal commands allowed) ≡ true
command_refusal-refuses [] allowed = refl
command_refusal-refuses (c ∷ cs) none = refl
command_refusal-refuses (c ∷ cs) (some allowed) = ground arith

env_refusal-refuses :
    (vars : List String) (available : Option (List String))
    → refuses (env_refusal vars available) ≡ true
env_refusal-refuses [] available = refl
env_refusal-refuses (v ∷ vs) none = refl
env_refusal-refuses (v ∷ vs) (some available) = ground arith

refusal_of-refuses :
    (p : Option SkillPrerequisites) (context : SkillPolicyContext)
    → refuses (refusal_of p context) ≡ true
refusal_of-refuses none context = refl
refusal_of-refuses (some p) context =
    first_refusal-refuses (platform_refusal (or_no_texts p.platforms) context.platform)
      (first_refusal (command_refusal (or_no_texts p.commands) context.allowlisted_commands)
        (env_refusal (or_no_texts p.env_vars) context.available_env_vars))
      (platform_refusal-refuses (or_no_texts p.platforms) context.platform)
      (first_refusal-refuses (command_refusal (or_no_texts p.commands) context.allowlisted_commands)
        (env_refusal (or_no_texts p.env_vars) context.available_env_vars)
        (command_refusal-refuses (or_no_texts p.commands) context.allowlisted_commands)
        (env_refusal-refuses (or_no_texts p.env_vars) context.available_env_vars))

decision_of_refusal-approved :
    (context : SkillPolicyContext) (id : String) (o : Refusal)
    → refuses o ≡ true
    → is_approved (decision_of_refusal context id o).decision ≡ true
    → (o ≡ none) × ((decision_of_refusal context id o).skill_id ≡ context.redact id)
decision_of_refusal-approved context id none h e = (refl, refl)
decision_of_refusal-approved context id (some (status, reason)) h e = ground (arith, h, e)

decision_of_manifest-approved :
    (plan : PlannerOutput) (context : SkillPolicyContext) (id : String) (o : Option SkillManifest)
    → context.catalog id ≡ o
    → is_approved (decision_of_manifest plan context id o).decision ≡ true
    → Permitted plan context (decision_of_manifest plan context id o)
unfolding evaluate_prerequisites
decision_of_manifest-approved plan context id none known e = cc
decision_of_manifest-approved plan context id (some manifest) known e =
    let gate = is_high (skill_risk_of manifest) && not (plan_has_required_approval_gate plan) in
    let refusal = evaluate_prerequisites manifest context in
    elim (Bool-cases gate) [
      | inl shut ↦ cc (rw shut at e)
      | inr pass ↦
          let facts =
            decision_of_refusal-approved context id refusal
              (refusal_of-refuses manifest.frontmatter.prerequisites context) (rw pass at e) in
          rw pass (
            id,
            manifest,
            facts.1,
            known,
            refusal_of-Satisfied manifest.frontmatter.prerequisites context facts.0,
            elim (not_both (is_high (skill_risk_of manifest)) (plan_has_required_approval_gate plan)
                pass) [
                  | inl low ↦ inl (not_high (skill_risk_of manifest) low)
                  | inr gate ↦ inr (gate-Gated plan gate)
                ],
          )
    ]

activation-cases :
    (plan : PlannerOutput) (context : SkillPolicyContext) (index : ℕ) (id : String)
    → is_approved (activation plan context index id).decision ≡ true
    → (is_capped (skill_cap context.max_skills) index ≡ false)
      × Permitted plan context (activation plan context index id)
unfolding activation
activation-cases plan context index id e =
    elim (Bool-cases (is_capped (skill_cap context.max_skills) index)) [
      | inl over ↦ cc (rw over at e)
      | inr under ↦ (
        under,
        rw under (
            decision_of_manifest-approved plan context id (context.catalog id) refl
              (rw under at e)),
      )
    ]

activations-Permitted :
    (plan : PlannerOutput) (context : SkillPolicyContext) (index : ℕ) (ids : List String)
    → All (Permitted plan context) (keep_if approved_of (activations plan context index ids))
unfolding activations approved_of
activations-Permitted plan context index [] = tt
activations-Permitted plan context index (id ∷ ids) =
    let ih = activations-Permitted plan context (suc index) ids in
    elim (Bool-cases (is_approved (activation plan context index id).decision)) [
      | inl yes_approved ↦
          rw yes_approved ((activation-cases plan context index id yes_approved).1, ih)
      | inr other ↦ rw other ih
    ]

activations-cap :
    (plan : PlannerOutput) (context : SkillPolicyContext) (limit index : ℕ) (ids : List String)
    → skill_cap context.max_skills ≡ some limit
    → (length (keep_if approved_of (activations plan context index ids)) ≤ limit - index)
unfolding activations approved_of
activations-cap plan context limit index [] h = omega arith
activations-cap plan context limit index (id ∷ ids) h =
    let ih = activations-cap plan context limit (suc index) ids h in
    elim (Bool-cases (is_approved (activation plan context index id).decision)) [
      | inl yes_approved ↦
          let under : is_capped (some limit) index ≡ false =
            rw h at ((activation-cases plan context index id yes_approved).0) in
          rw yes_approved (ground (arith, ih, under))
      | inr other ↦ rw other (omega (arith, ih))
    ]

-- Each skill that the crucible approves for a plan has an entry in the catalog; one of the platforms
-- that it names is the platform of the run; an allowlist is given and has each of its commands, or the
-- command's first word; the variables that are ready are given and have each of its variables, where it
-- names any; and the plan has a required approval gate or a task that needs an approval, where the
-- skill is of high risk.
pub evaluate_skill_activations-Permitted :
    (plan : PlannerOutput) (context : SkillPolicyContext)
    → All (Permitted plan context) (keep_if approved_of (evaluate_skill_activations plan context))
unfolding evaluate_skill_activations
evaluate_skill_activations-Permitted plan context =
    activations-Permitted plan context 0 (unique_skill_ids [] plan.requested_skills)

-- The crucible never approves more skills than the cap of the policy, where it has one.
pub evaluate_skill_activations-cap :
    (plan : PlannerOutput) (context : SkillPolicyContext) (limit : ℕ)
    → skill_cap context.max_skills ≡ some limit
    → length (keep_if approved_of (evaluate_skill_activations plan context)) ≤ limit
unfolding evaluate_skill_activations
evaluate_skill_activations-cap plan context limit h =
    omega
      (arith, activations-cap plan context limit 0 (unique_skill_ids [] plan.requested_skills) h)
