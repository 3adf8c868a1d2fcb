-- ===== src/Orchestration/Crucible/Rounds.antt =====
-- The round of the crucible, and when its request for a revision has no changes (src/orchestration/crucible.ts).
use rector.Prelude.{
  ℕ, ◌≤◌, true, false, String, none, List, [], ◌∷◌, ◌++◌, ◌≡◌, ◌≢◌, ◌↔◌, All, keep_if, arith,
  ltb→lt, if◌then◌else◌, str_eq, eq_iff, ltb, trim, includes,
}
use rector.Orchestration.Skeptic.{SkepticFinding, ReviewVerdict}
use rector.Orchestration.Crucible.{
  add_new, CrucibleInput, Setting, arbitrate, bounded_round, is_nil, requires_human_decision,
  required_changes_for, changes_from, crucible_max_rounds,
}

pub bounded_round-bounds :
    (input : CrucibleInput) → (1 ≤ bounded_round input) × (bounded_round input ≤ 2)
bounded_round-bounds input = ground arith

-- Where the schema of a decision refuses the request for a revision.
arbitrate-none :
    (s : Setting) (found by_skill by_review : List SkepticFinding)
    → arbitrate s found by_skill by_review ≡ none
    → (is_nil found ≡ true)
      × (s.input.skeptic_review.verdict ≢ ReviewVerdict.blocked)
      × (ltb s.round crucible_max_rounds ≡ true)
      × (is_nil (by_skill ++ by_review) ≡ false)
      × (is_nil (keep_if requires_human_decision by_review) ≡ true)
      × (is_nil (required_changes_for (by_skill ++ by_review)) ≡ true)
arbitrate-none s (f ∷ fs) by_skill by_review e = ground arith
arbitrate-none s [] [] [] e = ground arith
arbitrate-none s [] [] (x ∷ xs) e = ground arith
arbitrate-none s [] (k ∷ ks) by_review e = ground arith

pub first_round : (n : ℕ) → 1 ≤ n → ltb n crucible_max_rounds ≡ true → n ≡ 1
first_round n low high = omega (arith, low, ltb→lt n crucible_max_rounds high)

add_new-nil : (x : String) (set : List String) → is_nil (add_new x set) ≡ false
unfolding includes
add_new-nil x [] = ground arith
add_new-nil x (y ∷ ys) = ground arith

abbrev pub Blank : SkepticFinding → Type 0
Blank f = trim f.recommendation ≡ ""

pub changes_from-nil :
    (set : List String) (fs : List SkepticFinding)
    → (is_nil (changes_from set fs) ≡ true) ↔ ((is_nil set ≡ true) × All Blank fs)
unfolding changes_from
changes_from-nil set [] = (λ e. (e, tt), λ h. h.0)
changes_from-nil set (f ∷ fs) =
    let change = trim f.recommendation in
    let ih = changes_from-nil (if str_eq change "" then set else add_new change set) fs in
    (
      λ e. (
        ground (arith, (ih.0 e).0, add_new-nil change set),
        (ground (arith, (ih.0 e).0, add_new-nil change set, eq_iff change ""), (ih.0 e).1),
      ),
      λ h. ih.1 (ground (arith, h.0, h.1.0, eq_iff change ""), h.1.1),
    )
