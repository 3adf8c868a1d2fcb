-- ===== src/Orchestration/Crucible/Failure.antt =====
-- When the crucible returns no decision (src/orchestration/crucible.ts).
use rector.Prelude.{
  if◌then◌else◌, Bool, ◌⊎◌, inl, inr, false, true, Option, none, refl, ℕ, List, [], ◌∷◌, ◌++◌, ◌≡◌,
  ◌≢◌, ◌↔◌, All, All-append, keep_if, arith, ltb, trim,
}
use rector.Orchestration.Skeptic.{SkepticFinding, ReviewVerdict, blocker}
use rector.Orchestration.Skills.{SkillActivationDecision, denied}
use rector.Orchestration.Crucible.SkillPolicy.{
  SkillPolicyContext, evaluate_skill_activations, is_denied,
}
use rector.Orchestration.Crucible.Verdicts.{keep_if-nil, blockers-none, skill_findings_for-none}
use rector.Orchestration.Crucible.Rounds.{
  Blank, changes_from-nil, bounded_round-bounds, first_round,
}
use rector.Orchestration.Crucible.{
  CrucibleInput, Setting, arbitrate, arbitrate_plan_with_crucible, decided, CrucibleDecision,
  bounded_round, is_nil, blockers, repairable_findings, skill_findings, skill_findings_for,
  requires_human_decision, required_changes_for, crucible_max_rounds,
}

-- The first review asks for repairs, and says nothing of what is to change.
abbrev pub Unaskable : CrucibleInput → Type 0
Unaskable input =
    let review = input.skeptic_review in
    let by_review = repairable_findings review.findings in
    (review.verdict ≡ ReviewVerdict.needs_revision)
    × All (λ (f : SkepticFinding). f.severity ≢ blocker) review.findings
    × All (λ (a : SkillActivationDecision). a.decision ≢ denied)
        (evaluate_skill_activations input.planner_output input.skill_context)
    × (bounded_round input ≡ 1)
    × (is_nil by_review ≡ false)
    × All (λ f. requires_human_decision f ≡ false) by_review
    × All Blank by_review

abbrev Stuck : Setting → List SkepticFinding → List SkepticFinding → List SkepticFinding → Type 0
Stuck s found by_skill by_review =
    (s.input.skeptic_review.verdict ≡ ReviewVerdict.needs_revision)
    × (is_nil found ≡ true)
    × (is_nil by_skill ≡ true)
    × (ltb s.round crucible_max_rounds ≡ true)
    × (is_nil by_review ≡ false)
    × (is_nil (keep_if requires_human_decision by_review) ≡ true)
    × (is_nil (required_changes_for (by_skill ++ by_review)) ≡ true)

arbitrate-fails :
    (s : Setting) (found by_skill by_review : List SkepticFinding)
    → Stuck s found by_skill by_review
    → arbitrate s found by_skill by_review ≡ none
arbitrate-fails s [] [] (r ∷ rs) h = ground (arith, h)
arbitrate-fails s (f ∷ fs) by_skill by_review h = ground (arith, h.1)
arbitrate-fails s [] (k ∷ ks) by_review h = ground (arith, h.2)
arbitrate-fails s [] [] [] h = ground (arith, h.4)

arbitrate-none :
    (s : Setting) (found by_skill by_review : List SkepticFinding)
    → arbitrate s found by_skill by_review ≡ none
    → (is_nil (required_changes_for (by_skill ++ by_review)) ≡ true)
      × (is_nil by_skill ≡ true → Stuck s found by_skill by_review)
arbitrate-none s (f ∷ fs) by_skill by_review e = ground arith
arbitrate-none s [] [] [] e = ground arith
arbitrate-none s [] [] (x ∷ xs) e = ground arith
arbitrate-none s [] (k ∷ ks) by_review e = ground arith

skill_findings-Blank :
    (context : SkillPolicyContext) (n : ℕ) (ds : List SkillActivationDecision)
    (rest : List SkepticFinding)
    → All Blank (skill_findings context n ds ++ rest)
    → (is_nil (skill_findings context n ds) ≡ true) × All Blank rest
unfolding skill_findings trim
skill_findings-Blank context n [] rest h = (refl, h)
skill_findings-Blank context n (d ∷ ds) rest h = cc (h.0)

nil-All : (fs : List SkepticFinding) → is_nil fs ≡ true → All Blank fs
nil-All [] e = tt
nil-All (f ∷ fs) e = cc

decided-fails_iff : (input : CrucibleInput) → (decided input ≡ none) ↔ Unaskable input
unfolding decided
decided-fails_iff input =
    let findings = input.skeptic_review.findings in
    let context = input.skill_context in
    let by_review = repairable_findings findings in
    let skills = evaluate_skill_activations input.planner_output context in
    let by_skill = skill_findings_for context skills in
    let s : Setting = record { input = input; round = bounded_round input; skills = skills } in
    let human = keep_if-nil requires_human_decision by_review in
    (
      λ e.
          let facts = arbitrate-none s (blockers findings) by_skill by_review e in
          let blank = (changes_from-nil [] (by_skill ++ by_review)).0 facts.0 in
          let parts =
            skill_findings-Blank context 0 (keep_if (λ d. is_denied d.decision) skills) by_review
              blank.1 in
          let stuck = facts.1 parts.0 in
          (
            stuck.0,
            (blockers-none findings).0 stuck.1,
            (skill_findings_for-none context skills).0 stuck.2,
            first_round (bounded_round input) (bounded_round-bounds input).0 stuck.3,
            stuck.4,
            human.0 stuck.5,
            parts.1,
          ),
      λ h. arbitrate-fails s (blockers findings) by_skill by_review (
        h.0,
        (blockers-none findings).1 h.1,
        (skill_findings_for-none context skills).1 h.2,
        rw h.3 refl,
        h.4,
        human.1 h.5,
        (changes_from-nil [] (by_skill ++ by_review)).1 (
          refl,
          All-append Blank by_skill by_review
              (nil-All by_skill ((skill_findings_for-none context skills).1 h.2)) h.6,
        ),
      ),
    )

undated_iff :
    (dated : Bool) (made : Option CrucibleDecision) {Q : Type 0}
    → ((made ≡ none) ↔ Q)
    → ((if dated then made else none) ≡ none) ↔ ((dated ≡ false) ⊎ Q)
undated_iff true made iff = (λ e. inr (iff.0 e), λ h. elim h [ inl f ↦ cc f | inr q ↦ iff.1 q ])
undated_iff false made iff = (λ e. inl refl, λ h. refl)

-- The crucible has no decision, since a schema fails, exactly where the time that it is given is no
-- datetime, or where in the first round a review with the verdict NEEDS_REVISION, no blocker, no denied
-- skill and no human decision has major or minor findings whose recommendations are all blank.
pub arbitrate_plan-fails_iff :
    (input : CrucibleInput)
    → (arbitrate_plan_with_crucible input ≡ none)
      ↔ ((input.is_datetime input.now ≡ false) ⊎ Unaskable input)
unfolding arbitrate_plan_with_crucible
arbitrate_plan-fails_iff input =
    undated_iff (input.is_datetime input.now) (decided input) (decided-fails_iff input)
