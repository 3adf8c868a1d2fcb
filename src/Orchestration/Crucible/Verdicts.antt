-- ===== src/Orchestration/Crucible/Verdicts.antt =====
-- When the crucible accepts a plan (src/orchestration/crucible.ts).
use rector.Prelude.{
  if◌then◌else◌, ℕ, Bool, true, false, not, ◌||◌, Option, none, some, List, [], ◌∷◌, ◌≡◌, ◌≢◌, ◌↔◌,
  ◌∙◌, Bool-cases, ◌⊎◌, inl, inr, refl, sym, All, All-imp, keep_if, arith,
}
use rector.Orchestration.Skeptic.{
  FindingSeverity, blocker, info, SkepticFinding, ReviewVerdict, sound, blocked,
}
use rector.Orchestration.Skills.{ActivationStatus, denied, SkillActivationDecision}
use rector.Orchestration.Crucible.SkillPolicy.{
  SkillPolicyContext, evaluate_skill_activations, is_denied,
}
use rector.Orchestration.Planner.{PlannerOutput}
use rector.Orchestration.Crucible.{
  CrucibleVerdict, accepted, CrucibleDecision, CrucibleInput, Setting, arbitrate, bounded_round,
  arbitrate_plan_with_crucible, decided, is_nil, is_blocker, is_repairable, is_blocked, is_sound,
  blockers, repairable_findings, skill_findings, skill_findings_for,
}

-- Nothing stands against the plan: the review does not block it and has no blocker, no requested
-- skill is denied, and the review is sound or has nothing but notes.
abbrev pub Clear : CrucibleInput → Type 0
Clear input =
    let review = input.skeptic_review in
    (review.verdict ≢ blocked)
    × All (λ (f : SkepticFinding). f.severity ≢ blocker) review.findings
    × All (λ (a : SkillActivationDecision). a.decision ≢ denied)
        (evaluate_skill_activations input.planner_output input.skill_context)
    × ((review.verdict ≡ sound) ⊎ All (λ (f : SkepticFinding). f.severity ≡ info) review.findings)

pub keep_if-nil {ℓ} :
    {A : Type ℓ} (p : A → Bool) (xs : List A)
    → (is_nil (keep_if p xs) ≡ true) ↔ All (λ x. p x ≡ false) xs
keep_if-nil p [] = (λ e. tt, λ h. refl)
keep_if-nil p (x ∷ xs) =
    let ih = keep_if-nil p xs in
    (λ e. (ground arith, ih.0 (ground arith)), λ h. ground (arith, h.0, ih.1 h.1))

abbrev Settled : Setting → List SkepticFinding → List SkepticFinding → List SkepticFinding → Type 0
Settled s found by_skill by_review =
    (is_blocked s.input.skeptic_review.verdict || not (is_nil found) ≡ false)
    × (is_nil by_skill ≡ true)
    × (is_sound s.input.skeptic_review.verdict || is_nil by_review ≡ true)

abbrev pub verdict_of : Option CrucibleDecision → Option CrucibleVerdict
verdict_of none = none
verdict_of (some d) = some d.verdict

-- The plan that execution goes on with.
abbrev pub plan_of : Option CrucibleDecision → Option PlannerOutput
plan_of none = none
plan_of (some d) = d.accepted_plan

arbitrate-verdict :
    (s : Setting) (found by_skill by_review : List SkepticFinding)
    → (verdict_of (arbitrate s found by_skill by_review) ≡ some accepted)
      ↔ Settled s found by_skill by_review
arbitrate-verdict s (f ∷ fs) by_skill by_review = (λ e. ground arith, λ h. ground (arith, h))
arbitrate-verdict s [] [] [] = (λ e. ground arith, λ h. ground (arith, h))
arbitrate-verdict s [] [] (r ∷ rs) = (λ e. ground arith, λ h. ground (arith, h))
arbitrate-verdict s [] (k ∷ ks) by_review = (λ e. ground arith, λ h. ground (arith, h))

arbitrate-plan :
    (s : Setting) (found by_skill by_review : List SkepticFinding)
    → (plan_of (arbitrate s found by_skill by_review) ≡ some s.input.planner_output)
      ↔ Settled s found by_skill by_review
arbitrate-plan s (f ∷ fs) by_skill by_review = (λ e. ground arith, λ h. ground (arith, h))
arbitrate-plan s [] [] [] = (λ e. ground arith, λ h. ground (arith, h))
arbitrate-plan s [] [] (r ∷ rs) = (λ e. ground arith, λ h. ground (arith, h))
arbitrate-plan s [] (k ∷ ks) by_review = (λ e. ground arith, λ h. ground (arith, h))

skill_findings-nil :
    (context : SkillPolicyContext) (n : ℕ) (ds : List SkillActivationDecision)
    → is_nil (skill_findings context n ds) ≡ is_nil ds
unfolding skill_findings
skill_findings-nil context n [] = refl
skill_findings-nil context n (d ∷ ds) = refl

verdict-blocked : (v : ReviewVerdict) → (is_blocked v ≡ false) ↔ (v ≢ blocked)
verdict-blocked ReviewVerdict.sound = (λ e. ground arith, λ n. refl)
verdict-blocked ReviewVerdict.needs_revision = (λ e. ground arith, λ n. refl)
verdict-blocked ReviewVerdict.blocked = (λ e. ground arith, λ n. absurd (n refl))

verdict-sound : (v : ReviewVerdict) → (is_sound v ≡ true) ↔ (v ≡ sound)
verdict-sound ReviewVerdict.sound = (λ e. refl, λ n. refl)
verdict-sound ReviewVerdict.needs_revision = (λ e. ground arith, λ n. ground arith)
verdict-sound ReviewVerdict.blocked = (λ e. ground arith, λ n. ground arith)

not-blocker : (s : FindingSeverity) → (is_blocker s ≡ false) ↔ (s ≢ blocker)
not-blocker FindingSeverity.blocker = (λ e. ground arith, λ n. absurd (n refl))
not-blocker FindingSeverity.major = (λ e. ground arith, λ n. refl)
not-blocker FindingSeverity.minor = (λ e. ground arith, λ n. refl)
not-blocker FindingSeverity.info = (λ e. ground arith, λ n. refl)

not-denied : (a : ActivationStatus) → (is_denied a ≡ false) ↔ (a ≢ denied)
not-denied ActivationStatus.approved = (λ e. ground arith, λ n. refl)
not-denied ActivationStatus.denied = (λ e. ground arith, λ n. absurd (n refl))
not-denied ActivationStatus.deferred = (λ e. ground arith, λ n. refl)

-- A list of findings with no blocker and nothing to repair has nothing but notes.
repairable-info :
    (fs : List SkepticFinding)
    → All (λ (f : SkepticFinding). is_blocker f.severity ≡ false) fs
    → (All (λ (f : SkepticFinding). is_repairable f.severity ≡ false) fs)
      ↔ (All (λ (f : SkepticFinding). f.severity ≡ info) fs)
repairable-info [] h = (λ k. tt, λ k. tt)
repairable-info (f ∷ fs) h =
    let ih = repairable-info fs h.1 in
    (λ k. (ground (arith, h.0, k.0), ih.0 k.1), λ k. (ground (arith, k.0), ih.1 k.1))

-- A filter that leaves nothing, element by element.
keep_if-none {ℓ} :
    {A : Type ℓ} (p : A → Bool) (P : A → Type 0) (xs : List A)
    → ((x : A) → (p x ≡ false) ↔ P x)
    → (is_nil (keep_if p xs) ≡ true) ↔ All P xs
keep_if-none p P xs f = (
  λ e. All-imp xs (λ x. (f x).0) ((keep_if-nil p xs).0 e),
  λ h. (keep_if-nil p xs).1 (All-imp xs (λ x. (f x).1) h),
)

pub blockers-none :
    (fs : List SkepticFinding)
    → (is_nil (blockers fs) ≡ true) ↔ All (λ (f : SkepticFinding). f.severity ≢ blocker) fs
blockers-none fs =
    keep_if-none (λ f. is_blocker f.severity) (λ f. f.severity ≢ blocker) fs
      (λ f. not-blocker f.severity)

pub skill_findings_for-none :
    (context : SkillPolicyContext) (ds : List SkillActivationDecision)
    → (is_nil (skill_findings_for context ds) ≡ true)
      ↔ All (λ (a : SkillActivationDecision). a.decision ≢ denied) ds
skill_findings_for-none context ds =
    let same = skill_findings-nil context 0 (keep_if (λ d. is_denied d.decision) ds) in
    let iff =
      keep_if-none (λ d. is_denied d.decision) (λ d. d.decision ≢ denied) ds
        (λ d. not-denied d.decision) in
    (λ e. iff.0 (sym same ∙ e), λ h. same ∙ iff.1 h)

abbrev setting_of : CrucibleInput → Setting
setting_of input = record {
  input = input;
  round = bounded_round input;
  skills = evaluate_skill_activations input.planner_output input.skill_context;
}

abbrev SettledInput : CrucibleInput → Type 0
SettledInput input =
    Settled (setting_of input) (blockers input.skeptic_review.findings)
      (skill_findings_for input.skill_context
        (evaluate_skill_activations input.planner_output input.skill_context))
      (repairable_findings input.skeptic_review.findings)

Settled→Clear : (input : CrucibleInput) → SettledInput input → Clear input
Settled→Clear input h =
    let review = input.skeptic_review in
    let no_blocker : is_nil (blockers review.findings) ≡ true = ground (arith, h.0) in
    let unblocked : is_blocked review.verdict ≡ false = ground (arith, h.0) in
    (
      (verdict-blocked review.verdict).0 unblocked,
      (blockers-none review.findings).0 no_blocker,
      (skill_findings_for-none input.skill_context
            (evaluate_skill_activations input.planner_output input.skill_context)).0
          h.1,
      elim (Bool-cases (is_sound review.verdict)) [
        | inl yes_sound ↦ inl ((verdict-sound review.verdict).0 yes_sound)
        | inr unsound ↦ inr (
            (repairable-info review.findings (
                (keep_if-nil (λ (f : SkepticFinding). is_blocker f.severity) review.findings).0
                  no_blocker)).0
              ((keep_if-nil (λ (f : SkepticFinding). is_repairable f.severity) review.findings).0
                (ground (arith, h.2))))
      ],
    )

Clear→Settled : (input : CrucibleInput) → Clear input → SettledInput input
Clear→Settled input h =
    let review = input.skeptic_review in
    let no_blocker = (blockers-none review.findings).1 h.1 in
    let unblocked = (verdict-blocked review.verdict).1 h.0 in
    (
      ground arith,
      (skill_findings_for-none input.skill_context
            (evaluate_skill_activations input.planner_output input.skill_context)).1
          h.2,
      elim h.3 [
        | inl is ↦ ground (arith, (verdict-sound review.verdict).1 is)
        | inr notes ↦ ground (
          arith,
          (keep_if-nil (λ (f : SkepticFinding). is_repairable f.severity) review.findings).1 (
              (repairable-info review.findings (
                  (keep_if-nil (λ (f : SkepticFinding). is_blocker f.severity) review.findings).0
                    no_blocker)).1
                notes),
        )
      ],
    )

abbrev pub Dated : CrucibleInput → Type 0
Dated input = input.is_datetime input.now ≡ true

-- What only a decision satisfies needs a time that the schema takes.
dated_iff :
    (dated : Bool) (made : Option CrucibleDecision) (Meets : Option CrucibleDecision → Type 0)
    {Q : Type 0}
    → (¬ Meets none)
    → (Meets made ↔ Q)
    → Meets (if dated then made else none) ↔ ((dated ≡ true) × Q)
dated_iff true made Meets no_none iff = (λ m. (refl, iff.0 m), λ q. iff.1 q.1)
dated_iff false made Meets no_none iff = (λ m. absurd (no_none m), λ q. cc (q.0))

-- The crucible accepts a plan exactly when the time that it is given is a datetime, the review neither
-- blocks the plan nor has a blocker, no requested skill is denied, and the review is sound or has
-- nothing but notes; and exactly then its decision hands on the plan that came in, unchanged.
pub arbitrate_plan-accepts_iff :
    (input : CrucibleInput)
    → ((verdict_of (arbitrate_plan_with_crucible input) ≡ some accepted)
        ↔ (Dated input × Clear input))
      × ((plan_of (arbitrate_plan_with_crucible input) ≡ some input.planner_output)
          ↔ (Dated input × Clear input))
unfolding arbitrate_plan_with_crucible decided
arbitrate_plan-accepts_iff input =
    let findings = input.skeptic_review.findings in
    let skills = evaluate_skill_activations input.planner_output input.skill_context in
    let by_skill = skill_findings_for input.skill_context skills in
    let verdict =
      arbitrate-verdict (setting_of input) (blockers findings) by_skill
        (repairable_findings findings) in
    let plan =
      arbitrate-plan (setting_of input) (blockers findings) by_skill
        (repairable_findings findings) in
    let dated = input.is_datetime input.now in
    let made = decided input in
    (
      dated_iff dated made (λ d. verdict_of d ≡ some accepted) (λ e. cc)
          (λ e. Settled→Clear input (verdict.0 e), λ h. verdict.1 (Clear→Settled input h)),
      dated_iff dated made (λ d. plan_of d ≡ some input.planner_output) (λ e. cc)
          (λ e. Settled→Clear input (plan.0 e), λ h. plan.1 (Clear→Settled input h)),
    )
