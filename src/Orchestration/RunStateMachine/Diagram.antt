-- ===== src/Orchestration/RunStateMachine/Diagram.antt =====
-- The phase diagram: which phases a run has been through when it stands in a given phase.
use rector.Prelude.{
  ℕ, Bool, true, false, ◌≡◌, refl, inl, inr, ◌↔◌, subst, arith, not, ◌||◌, ltb, ◌+◌, if◌then◌else◌,
  Bool-cases,
}
use rector.Protocol.Phase.{
  RunPhase, chat_received, triage, context_building, planning, skeptic_review, crucible,
  dag_compilation, executing, validating, healing, synthesizing, done, needs_decision, failed,
  aborted, phase_eq, index, every, every_sound, phase_eq_refl, phase_eq→eq, is_terminal_run_phase,
}
use rector.Orchestration.RunStateMachine.{is_allowed_run_phase_transition}

-- The phases of a run from its creation on, the latest one as the index.
pub data History : RunPhase → Type 0 where
  start : History chat_received
  next :
      {p : RunPhase}
      → History p
      → (q : RunPhase) → is_allowed_run_phase_transition p q ≡ true
      → History q

-- Whether the run has been in phase `r`.
unfoldable pub visited : RunPhase → {p : RunPhase} → History p → Bool
visited r start = phase_eq r chat_received
visited r (next h q e) = phase_eq r q || visited r h

-- The mandatory stages in their order; `healing` and the phases that end or suspend a run are none.
abbrev pub stage : RunPhase → ℕ
stage synthesizing = 9
stage done = 10
stage p = if ltb (index p) 9 then index p else 99

-- How many of the stages lie at or before a phase.
abbrev pub depth : RunPhase → ℕ
depth synthesizing = 10
depth done = 11
depth p = if ltb (index p) 9 then index p + 1 else if phase_eq p healing then 8 else 2

-- Whether stage `r` lies at or before phase `p`.
abbrev pub is_mandatory : RunPhase → RunPhase → Bool
is_mandatory r p = ltb (stage r) (depth p)

-- A table over all phases: a move that does not resume a decision skips no stage.
no_skip : RunPhase → RunPhase → RunPhase → Bool
no_skip p q r =
    not (is_allowed_run_phase_transition p q)
    || phase_eq p needs_decision
    || not (is_mandatory r q)
    || phase_eq r q
    || is_mandatory r p

no_skip_table : every (λ p. every (λ q. every (λ r. no_skip p q r))) ≡ true
unfolding every no_skip is_allowed_run_phase_transition
no_skip_table = refl

no_skip_at : (p q r : RunPhase) → no_skip p q r ≡ true
no_skip_at p q r =
    every_sound (λ r. no_skip p q r)
      (every_sound (λ q. every (λ r. no_skip p q r))
        (every_sound (λ p. every (λ q. every (λ r. no_skip p q r))) no_skip_table p) q)
      r

last_phase : {p : RunPhase} (h : History p) → visited p h ≡ true
unfolding visited
last_phase start = refl
last_phase (next h q e) = rw (phase_eq_refl q)

no_skip-mandatory :
    (p q r : RunPhase)
    → is_allowed_run_phase_transition p q ≡ true
    → phase_eq p needs_decision ≡ false
    → is_mandatory r q ≡ true
    → phase_eq r q || is_mandatory r p ≡ true
unfolding no_skip
no_skip-mandatory p q r e d m = ground (arith, no_skip_at p q r)

mandatory_start :
    (r : RunPhase) → is_mandatory r chat_received ≡ true → phase_eq r chat_received ≡ true
mandatory_start chat_received m = refl
mandatory_start _ m = ground arith

last_not_decision :
    {p : RunPhase} (h : History p)
    → visited needs_decision h ≡ false
    → phase_eq p needs_decision ≡ false
last_not_decision {p} h d = elim (Bool-cases (phase_eq p needs_decision)) [
  | inl same ↦
      cc (d, subst (λ r. visited r h ≡ true) (phase_eq→eq p needs_decision same) (last_phase h))
  | inr other ↦ other
]

or_false : (a b : Bool) → a || b ≡ false → (a ≡ false) × (b ≡ false)
or_false a b h = ground arith

-- A run that never waited for a decision has been through every stage that lies at or before its
-- phase: planning, skeptic review, crucible and DAG compilation before execution, validation before
-- synthesis, and so on.
pub History-visited :
    {q : RunPhase} (h : History q)
    → visited needs_decision h ≡ false
    → (r : RunPhase) → is_mandatory r q ≡ true
    → visited r h ≡ true
unfolding visited
History-visited start d r m = mandatory_start r m
History-visited (next {p} h q e) d r m =
    let earlier = (or_false (phase_eq needs_decision q) (visited needs_decision h) d).1 in
    elim (Bool-cases (phase_eq r q)) [
      | inl same ↦ rw same
      | inr other ↦ rw other (
          History-visited h earlier r
            (rw other at (no_skip-mandatory p q r e (last_not_decision h earlier) m)))
    ]

-- Sequences of allowed moves.
pub data Reach : RunPhase → RunPhase → Type 0 where
  here : {p : RunPhase} → Reach p p
  move :
      {p r : RunPhase} (q : RunPhase)
      → is_allowed_run_phase_transition p q ≡ true
      → Reach q r
      → Reach p r

-- The phases with no way on.
abbrev pub is_final : RunPhase → Bool
is_final done = true
is_final failed = true
is_final aborted = true
is_final _ = false

final_stays : (p q : RunPhase) → is_final p ≡ true → is_allowed_run_phase_transition p q ≡ false
unfolding is_allowed_run_phase_transition
final_stays done q h = refl
final_stays failed q h = refl
final_stays aborted q h = refl
final_stays _ q h = ground arith

-- Nothing but itself is reached from a completed, failed or aborted phase.
pub Reach-final : {p q : RunPhase} → is_final p ≡ true → Reach p q → q ≡ p
Reach-final h here = refl
Reach-final {p} h (move q e w) = cc (e, final_stays p q h)

from_synthesizing : Reach synthesizing done
unfolding is_allowed_run_phase_transition
from_synthesizing = move done refl here

from_validating : Reach validating done
unfolding is_allowed_run_phase_transition
from_validating = move synthesizing refl from_synthesizing

from_executing : Reach executing done
unfolding is_allowed_run_phase_transition
from_executing = move validating refl from_validating

from_crucible : Reach crucible done
unfolding is_allowed_run_phase_transition
from_crucible = move dag_compilation refl (move executing refl from_executing)

from_planning : Reach planning done
unfolding is_allowed_run_phase_transition
from_planning = move skeptic_review refl (move crucible refl from_crucible)

-- From every phase that is not final the run can be completed.
pub Reach-done : (p : RunPhase) → is_final p ≡ false → Reach p done
unfolding is_allowed_run_phase_transition
Reach-done chat_received h =
    move triage refl (move context_building refl (move planning refl from_planning))
Reach-done triage h = move context_building refl (move planning refl from_planning)
Reach-done context_building h = move planning refl from_planning
Reach-done planning h = from_planning
Reach-done skeptic_review h = move crucible refl from_crucible
Reach-done crucible h = from_crucible
Reach-done dag_compilation h = move executing refl from_executing
Reach-done executing h = from_executing
Reach-done validating h = from_validating
Reach-done healing h = move validating refl from_validating
Reach-done synthesizing h = from_synthesizing
Reach-done needs_decision h = move synthesizing refl from_synthesizing
Reach-done _ h = cc

-- A phase of the terminal set has an allowed move exactly if it waits for a decision.
pub terminal_moves :
    (p : RunPhase)
    → is_terminal_run_phase p ≡ true
    → ((q : RunPhase) × (is_allowed_run_phase_transition p q ≡ true)) ↔ (p ≡ needs_decision)
unfolding is_terminal_run_phase is_allowed_run_phase_transition
terminal_moves needs_decision h = (λ _. refl, λ _. (executing, refl))
terminal_moves done h = (λ m. cc (m.1), λ e. cc)
terminal_moves failed h = (λ m. cc (m.1), λ e. cc)
terminal_moves aborted h = (λ m. cc (m.1), λ e. cc)
terminal_moves _ h = cc
