-- ===== src/Orchestration/Crucible/Prerequisites.antt =====
-- When the prerequisites of a skill hold and when a plan is gated, said apart from the code
-- (src/orchestration/crucible.ts).
use rector.Prelude.{
  Bool, true, false, not, String, Option, none, some, List, [], ◌∷◌, ◌≡◌, ◌≢◌, ◌⊎◌, inl, inr, refl,
  All, Member, any, any-Member, keep_if, includes, trim, first_token, eq_iff, Bool-cases, arith,
}
use rector.Orchestration.Planner.{PlannerTask, ApprovalGate, PlannerOutput}
use rector.Orchestration.Skills.{SkillRisk, high, SkillPrerequisites}
use rector.Orchestration.Crucible.SkillPolicy.{
  SkillPolicyContext, is_high, platform_refusal, missing_refusal, command_refusal, env_refusal,
  first_refusal, refusal_of, or_no_texts, Refusal, platform_matches, command_allowed,
  plan_has_required_approval_gate,
}

-- A list that is absent or empty asks for nothing.
abbrev pub Nothing : Option (List String) → Type 0
Nothing wanted = or_no_texts wanted ≡ []

-- One of the platforms, if any is named, is the platform of the run.
abbrev pub OnPlatform : Option (List String) → String → Type 0
OnPlatform platforms platform =
    Nothing platforms
    ⊎ ((p : String) × (includes p (or_no_texts platforms) ≡ true)
        × (platform_matches p platform ≡ true))

-- Each command, if any is named, is in the allowlist that is given, or its first word is.
abbrev pub InAllowlist : Option (List String) → Option (List String) → Type 0
InAllowlist commands allowlist =
    Nothing commands
    ⊎ ((allowed : List String) × (allowlist ≡ some allowed)
        × All (λ c. (includes c allowed ≡ true) ⊎ (includes (first_token (trim c)) allowed ≡ true))
            (or_no_texts commands))

-- Each variable, if any is named, is among those that are given as ready.
abbrev pub AllReady : Option (List String) → Option (List String) → Type 0
AllReady vars available =
    Nothing vars
    ⊎ ((ready : List String) × (available ≡ some ready)
        × All (λ v. includes v ready ≡ true) (or_no_texts vars))

abbrev pub Satisfied : Option SkillPrerequisites → SkillPolicyContext → Type 0
Satisfied none context = Unit
Satisfied (some p) context =
    OnPlatform p.platforms context.platform
    × InAllowlist p.commands context.allowlisted_commands
    × AllReady p.env_vars context.available_env_vars

-- The plan has a gate that is required, or a task that needs an approval.
abbrev pub Gated : PlannerOutput → Type 0
Gated plan =
    ((g : ApprovalGate) × Member g plan.approval_gates × (g.required ≡ true))
    ⊎ ((t : PlannerTask) × Member t plan.tasks × (t.approval_required ≡ true))

Member-includes : (x : String) (xs : List String) → Member x xs → includes x xs ≡ true
unfolding includes
Member-includes x [] h = elim h [ ]
Member-includes x (y ∷ ys) (inl here) = ground (arith, here, eq_iff y x)
Member-includes x (y ∷ ys) (inr there) = ground (arith, Member-includes x ys there)

platform-satisfied :
    (platforms : Option (List String)) (platform : String)
    → platform_refusal (or_no_texts platforms) platform ≡ none
    → OnPlatform platforms platform
platform-satisfied none platform h = inl refl
platform-satisfied (some []) platform h = inl refl
platform-satisfied (some (p ∷ ps)) platform h =
    let (q, there, holds) =
      any-Member (λ c. platform_matches c platform) (p ∷ ps) (ground (arith, h)) in
    inr (q, Member-includes q (p ∷ ps) there, holds)

missing-none {ℓ} :
    {P : String → Type ℓ} (test : String → Bool) (xs : List String) (text : String)
    → ((x : String) → test x ≡ true → P x)
    → missing_refusal (keep_if (λ x. not (test x)) xs) text ≡ none
    → All P xs
missing-none test [] text f h = tt
missing-none test (x ∷ xs) text f h = elim (Bool-cases (test x)) [
  | inl holds ↦ (f x holds, missing-none test xs text f (rw holds at h))
  | inr lacks ↦ cc (rw lacks at h)
]

command_allowed-cases :
    (c : String) (allowed : List String)
    → command_allowed c allowed ≡ true
    → (includes c allowed ≡ true) ⊎ (includes (first_token (trim c)) allowed ≡ true)
unfolding command_allowed
command_allowed-cases c allowed h = elim (Bool-cases (includes c allowed)) [
  | inl here ↦ inl here
  | inr other ↦ inr (ground (arith, h, other))
]

commands-satisfied :
    (commands allowlist : Option (List String))
    → command_refusal (or_no_texts commands) allowlist ≡ none
    → InAllowlist commands allowlist
commands-satisfied none allowlist h = inl refl
commands-satisfied (some []) allowlist h = inl refl
commands-satisfied (some (c ∷ cs)) none h = cc
commands-satisfied (some (c ∷ cs)) (some allowed) h = inr (
  allowed,
  refl,
  missing-none (λ x. command_allowed x allowed) (c ∷ cs) _ (λ x. command_allowed-cases x allowed) h,
)

variables-satisfied :
    (vars available : Option (List String))
    → env_refusal (or_no_texts vars) available ≡ none
    → AllReady vars available
variables-satisfied none available h = inl refl
variables-satisfied (some []) available h = inl refl
variables-satisfied (some (v ∷ vs)) none h = cc
variables-satisfied (some (v ∷ vs)) (some ready) h =
    inr (ready, refl, missing-none (λ x. includes x ready) (v ∷ vs) _ (λ x e. e) h)

first_refusal-none : (a b : Refusal) → first_refusal a b ≡ none → (a ≡ none) × (b ≡ none)
first_refusal-none none b h = (refl, h)
first_refusal-none (some r) b h = cc

pub refusal_of-Satisfied :
    (p : Option SkillPrerequisites) (context : SkillPolicyContext)
    → refusal_of p context ≡ none
    → Satisfied p context
refusal_of-Satisfied none context h = tt
refusal_of-Satisfied (some p) context h =
    let first = first_refusal-none _ _ h in
    let later = first_refusal-none _ _ first.1 in
    (
      platform-satisfied p.platforms context.platform first.0,
      commands-satisfied p.commands context.allowlisted_commands later.0,
      variables-satisfied p.env_vars context.available_env_vars later.1,
    )

pub gate-Gated : (plan : PlannerOutput) → plan_has_required_approval_gate plan ≡ true → Gated plan
gate-Gated plan h = elim (Bool-cases (any (λ (g : ApprovalGate). g.required) plan.approval_gates)) [
  | inl gate ↦ inl (any-Member (λ (g : ApprovalGate). g.required) plan.approval_gates gate)
  | inr none_required ↦ inr (
      any-Member (λ (t : PlannerTask). t.approval_required) plan.tasks
        (ground (arith, h, none_required)))
]

pub not_high : (risk : SkillRisk) → is_high risk ≡ false → risk ≢ high
not_high risk h e = cc (rw e at h)
