-- ===== src/Orchestration/RunStateMachine/Outcomes.antt =====
-- One attempt of a transition: what a committed and what a rejected attempt has done to the store.
use rector.Prelude.{
  ◌+◌, true, false, String, none, some, lookup, ◌≡◌, ◌≢◌, refl, sym, ap, ◌∙◌, arith, inl, inr,
  Option-cases, ◌⊎◌,
}
use rector.Protocol.Phase.{RunPhase, needs_decision, phase_eq_refl}
use rector.Protocol.Event.{Runtime}
use rector.Store.Schemas.{Run}
use rector.Store.Memory.{
  Store, Result, ok, err, Transition, version_conflict, get_run, commit_run_transition,
  commit_update, commit_event,
}
use rector.Store.Laws.{IsCommit, commit_run_transition-IsCommit, commit_run_transition-err}
use rector.Orchestration.RunStateMachine.{
  Redaction, RunTransitionOptions, Attempt, TransitionError, committed, rejected, is_conflict,
  is_allowed_run_phase_transition, validate_transition, build_run_patch, build_run_event,
  event_type_for_target_phase, answer, commit_from, attempt_transition,
}

-- An accepted move is in the table, and resumes a waiting run only with a decision.
pub validate_transition-none :
    (from target : RunPhase) (options : RunTransitionOptions)
    → validate_transition from target options ≡ none
    → (is_allowed_run_phase_transition from target ≡ true)
      × (from ≡ needs_decision → options.decision ≢ none)
unfolding validate_transition
validate_transition-none from target options h =
    (ground arith, λ w d. ground (arith, phase_eq_refl needs_decision))

module _ (rt : Runtime) (red : Redaction) (id : String) (target : RunPhase)
    (options : RunTransitionOptions) (a : Attempt) where
  -- The commit that follows the read of `run`.
  abbrev pub IsCommitFrom : Run → Store → Transition → Store → Type 0
  IsCommitFrom run =
      IsCommit rt a.store_time id (build_run_patch red target options (run.version + 1))
        (build_run_event red run run.phase target (event_type_for_target_phase target) options a)

  attempt_read :
      (s : Store) {t : Transition} {s' : Store}
      → attempt_transition rt red id target options a s ≡ (committed t, s')
      → (run : Run) × (lookup id s.runs ≡ some run)
        × (validate_transition run.phase target options ≡ none)
        × (commit_from rt red id target options run a s ≡ (committed t, s'))
  unfolding attempt_transition get_run
  attempt_read s h = ground arith

  -- A committed attempt read a run from which the move is valid, and committed on the store as the
  -- other writers left it.
  pub attempt_transition-committed :
      (s : Store) {t : Transition} {s' : Store}
      → attempt_transition rt red id target options a s ≡ (committed t, s')
      → (run : Run) × (lookup id s.runs ≡ some run)
        × (validate_transition run.phase target options ≡ none)
        × IsCommitFrom run (a.others s) t s'
  unfolding commit_from answer
  attempt_transition-committed s {t} {s'} h =
      let (run, found, valid, e) = attempt_read s h in
      (
        run,
        found,
        valid,
        commit_run_transition-IsCommit rt a.store_time id
            (build_run_patch red target options (run.version + 1))
            (build_run_event red run run.phase target (event_type_for_target_phase target) options
              a)
            (a.others s) (ground arith),
      )

  commit_from-rejected :
      (run : Run) (s : Store) {e : TransitionError} {s' : Store}
      → commit_from rt red id target options run a s ≡ (rejected e, s')
      → s' ≡ a.others s
  unfolding commit_from answer
  commit_from-rejected run s h =
      rejected_result
        (commit_run_transition rt a.store_time id
          (build_run_patch red target options (run.version + 1))
          (build_run_event red run run.phase target (event_type_for_target_phase target) options a)
          (a.others s))
        refl h
    where
      rejected_result :
          {e : TransitionError} {s' : Store} (r : Result Transition × Store)
          → commit_run_transition rt a.store_time id
              (build_run_patch red target options (run.version + 1))
              (build_run_event red run run.phase target
                (event_type_for_target_phase target)
                options
                a)
              (a.others s)
            ≡ r
          → answer r ≡ (rejected e, s')
          → s' ≡ a.others s
      rejected_result (ok t, u) e h = cc
      rejected_result (err x, u) e h =
          sym (ap (λ p. p.1) h)
          ∙ commit_run_transition-err rt a.store_time id
              (build_run_patch red target options (run.version + 1))
              (build_run_event red run run.phase target (event_type_for_target_phase target) options
                a)
              (a.others s) e

  -- A rejected attempt has written nothing: the store is as it was, or as the other writers left it.
  pub attempt_transition-rejected :
      (s : Store) {e : TransitionError} {s' : Store}
      → attempt_transition rt red id target options a s ≡ (rejected e, s')
      → (s' ≡ s) ⊎ (s' ≡ a.others s)
  unfolding attempt_transition get_run
  attempt_transition-rejected s {e} {s'} h = elim (Option-cases (lookup id s.runs)) [
    | inl missing ↦ inl (ground arith)
    | inr (run, found) ↦ elim (Option-cases (validate_transition run.phase target options)) [
      | inl valid ↦ inr (commit_from-rejected run s {e = e} (ground arith))
      | inr (x, bad) ↦ inl (ground arith)
    ]
  ]

validate_transition-no_conflict :
    (from target : RunPhase) (options : RunTransitionOptions) {e : TransitionError}
    → validate_transition from target options ≡ some e
    → is_conflict (rejected e) ≡ false
unfolding validate_transition
validate_transition-no_conflict from target options h = ground arith

module _ (rt : Runtime) (red : Redaction) (id : String) (target : RunPhase)
    (options : RunTransitionOptions) (a : Attempt) where
  -- A conflict comes from the commit, after the other writers' work.
  pub attempt_transition-conflict :
      (s : Store) {e : TransitionError} {s' : Store}
      → attempt_transition rt red id target options a s ≡ (rejected e, s')
      → is_conflict (rejected e) ≡ true
      → s' ≡ a.others s
  unfolding attempt_transition get_run
  attempt_transition-conflict s {e} {s'} h c = elim (Option-cases (lookup id s.runs)) [
    | inl missing ↦ absurd (ground arith)
    | inr (run, found) ↦ elim (Option-cases (validate_transition run.phase target options)) [
      | inl valid ↦ commit_from-rejected rt red id target options a run s {e = e} (ground arith)
      | inr (x, bad) ↦
          absurd (ground (arith, validate_transition-no_conflict run.phase target options bad))
    ]
  ]

  commit_from-quiet :
      (run : Run) (s : Store)
      → lookup id s.runs ≡ some run
      → a.others s ≡ s
      → is_conflict (commit_from rt red id target options run a s).0 ≡ false
  unfolding commit_from answer build_run_patch commit_run_transition commit_update commit_event
      version_conflict
  commit_from-quiet run s found quiet = rw quiet (ground arith)

  -- An attempt that nobody disturbs meets no conflict.
  pub attempt_transition-quiet :
      (s : Store)
      → a.others s ≡ s
      → is_conflict (attempt_transition rt red id target options a s).0 ≡ false
  unfolding attempt_transition get_run
  attempt_transition-quiet s quiet = elim (Option-cases (lookup id s.runs)) [
    | inl missing ↦ rw (missing, attempt_transition, get_run)
    | inr (run, found) ↦ elim (Option-cases (validate_transition run.phase target options)) [
      | inl valid ↦
          rw (found, valid, attempt_transition, get_run) (commit_from-quiet run s found quiet)
      | inr (x, bad) ↦
          rw (found, bad, attempt_transition, get_run)
            (validate_transition-no_conflict run.phase target options bad)
    ]
  ]
