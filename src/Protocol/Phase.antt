-- ===== src/Protocol/Phase.antt =====
-- Run phases (src/protocol/phases.ts).
use rector.Prelude.{ℕ, Bool, true, false, List, [], ◌∷◌, ◌||◌, ◌&&◌, ◌==◌}
use rector.Prelude.{◌≡◌, refl, sym, ap, ◌∙◌, ◌↔◌, arith, if◌then◌else◌}

pub data RunPhase : Type 0 where
  chat_received triage context_building planning skeptic_review crucible : RunPhase
  dag_compilation executing validating healing synthesizing done : RunPhase
  needs_decision failed aborted : RunPhase

-- The position in `RUN_PHASES`, by which two phases are compared.
abbrev pub index : RunPhase → ℕ
index chat_received = 0
index triage = 1
index context_building = 2
index planning = 3
index skeptic_review = 4
index crucible = 5
index dag_compilation = 6
index executing = 7
index validating = 8
index healing = 9
index synthesizing = 10
index done = 11
index needs_decision = 12
index failed = 13
index aborted = 14

abbrev pub phase_eq : RunPhase → RunPhase → Bool
phase_eq p q = index p == index q

unfoldable pub phase_includes : List RunPhase → RunPhase → Bool
phase_includes [] p = false
phase_includes (q ∷ qs) p = phase_eq q p || phase_includes qs p

abbrev pub terminal_run_phases : List RunPhase
terminal_run_phases = done ∷ needs_decision ∷ failed ∷ aborted ∷ []

unfoldable pub is_terminal_run_phase : RunPhase → Bool
unfolding phase_includes
is_terminal_run_phase p = phase_includes terminal_run_phases p

-- A test of every phase.
unfoldable pub every : (RunPhase → Bool) → Bool
every f =
    f chat_received
    && f triage
    && f context_building
    && f planning
    && f skeptic_review
    && f crucible
    && f dag_compilation
    && f executing
    && f validating
    && f healing
    && f synthesizing
    && f done
    && f needs_decision
    && f failed
    && f aborted

pub every_sound : (f : RunPhase → Bool) → every f ≡ true → (p : RunPhase) → f p ≡ true
unfolding every
every_sound f h chat_received = ground arith
every_sound f h _ = ground arith

pub phase_eq_refl : (p : RunPhase) → phase_eq p p ≡ true
phase_eq_refl chat_received = refl
phase_eq_refl _ = refl

-- The phase at a position, the inverse of `index`.
at_index : ℕ → RunPhase
at_index n =
    if n == 0
    then chat_received
    else if n == 1
    then triage
    else if n == 2
    then context_building
    else if n == 3
    then planning
    else if n == 4
    then skeptic_review
    else if n == 5
    then crucible
    else if n == 6
    then dag_compilation
    else if n == 7
    then executing
    else if n == 8
    then validating
    else if n == 9
    then healing
    else if n == 10
    then synthesizing
    else if n == 11
    then done
    else if n == 12
    then needs_decision
    else if n == 13
    then failed
    else aborted

at_index-index : (p : RunPhase) → at_index (index p) ≡ p
unfolding at_index
at_index-index chat_received = refl
at_index-index _ = refl

pub phase_eq→eq : (p q : RunPhase) → phase_eq p q ≡ true → p ≡ q
phase_eq→eq p q h =
    let same : index p ≡ index q = ground arith in
    sym (at_index-index p) ∙ ap at_index same ∙ at_index-index q

pub phase_eq_iff : (p q : RunPhase) → (phase_eq p q ≡ true) ↔ (p ≡ q)
phase_eq_iff p q = (phase_eq→eq p q, λ e. rw e (phase_eq_refl q))
