-- ===== src/Orchestration/RunStateMachine/Concurrency.antt =====
-- The retry loop of a transition, with other writers at work between each read and its commit.
use native.Mathlib.Decide.{dec_lt}
use rector.Prelude.{
  ℕ, zero, suc, ◌+◌, ◌≤◌, true, false, String, some, lookup, insert, has, ◌≡◌, refl, sym, ap, subst,
  ◌∙◌, arith, inl, inr, Bool-cases,
}
use rector.Protocol.Phase.{RunPhase}
use rector.Protocol.Event.{Runtime}
use rector.Store.Schemas.{Run}
use rector.Store.Memory.{Store, Transition, version_conflict, patched}
use rector.Store.Commits.{stored, parse_event-stored}
use rector.Orchestration.RunStateMachine.{
  Redaction, RunTransitionOptions, Attempt, Outcome, committed, rejected, is_conflict,
  is_allowed_run_phase_transition, build_run_patch, build_run_event, event_type_for_target_phase,
  attempt_transition, transition_loop, transition_run, max_transition_retries,
}
use rector.Orchestration.RunStateMachine.Outcomes.{
  validate_transition-none, attempt_transition-committed, attempt_transition-rejected,
  attempt_transition-conflict, attempt_transition-quiet,
}

-- The store after the other writers' work in `k` attempts from attempt `n` on, and nothing else.
unfoldable pub run_others : (ℕ → Attempt) → ℕ → ℕ → Store → Store
run_others env zero n s = s
run_others env (suc k) n s = run_others env k (suc n) ((env n).others s)

-- Other writers do not change the phase of run `id` without raising its version.
pub record IsVersioned (id : String) (others : Store → Store) : Type 0 where
  pub same_phase :
      (s : Store) (before after : Run)
      → lookup id s.runs ≡ some before
      → lookup id (others s).runs ≡ some after
      → after.version ≡ before.version
      → after.phase ≡ before.phase

no_conflict_version :
    (current : Run) (v : ℕ) → version_conflict current (some (v + 1)) ≡ false → current.version ≡ v
unfolding version_conflict
no_conflict_version current v h = ground arith

module _ (rt : Runtime) (red : Redaction) (id : String) (target : RunPhase)
    (options : RunTransitionOptions) where
  -- A committed transition: the run as it stood at the commit, the event as it was built from what was
  -- read and from the options, and the tables after it.
  pub record IsTransition (s : Store) (t : Transition) (s' : Store) : Type 0 where
    pub current : Run
    pub found : lookup id s.runs ≡ some current
    pub allowed : is_allowed_run_phase_transition current.phase target ≡ true
    pub phase : t.run.phase ≡ target
    pub version : t.run.version ≡ current.version + 1
    pub fresh : has t.event.id s.events ≡ false
    pub read : Run
    pub attempt : Attempt
    pub logged :
        t.event
        ≡ stored (
            build_run_event red read read.phase target
              (event_type_for_target_phase target)
              options
              attempt)
    pub runs : s'.runs ≡ insert id t.run s.runs
    pub events : s'.events ≡ insert t.event.id t.event s.events

  attempt_transition-IsTransition :
      (a : Attempt) (s : Store) {t : Transition} {s' : Store}
      → IsVersioned id a.others
      → attempt_transition rt red id target options a s ≡ (committed t, s')
      → IsTransition (a.others s) t s'
  unfolding build_run_patch patched
  attempt_transition-IsTransition a s {t} {s'} v h =
      let (run, found, valid, c) = attempt_transition-committed rt red id target options a s h in
      let same : c.current.version ≡ run.version =
        no_conflict_version c.current run.version c.same_version in
      let phase : c.current.phase ≡ run.phase = v.same_phase s run c.current found c.found same in
      record {
        current = c.current;
        found = c.found;
        allowed = rw phase (validate_transition-none run.phase target options valid).0;
        phase = ap (λ r. r.phase) c.written;
        version = ap (λ r. r.version) c.written ∙ ap (λ n. n + 1) (sym same);
        fresh = c.fresh;
        read = run;
        attempt = a;
        logged =
            parse_event-stored rt
              (build_run_event red run run.phase target (event_type_for_target_phase target) options
                a)
              c.logged;
        runs = c.runs;
        events = c.events;
      }

module _ (rt : Runtime) (red : Redaction) (id : String) (target : RunPhase)
    (options : RunTransitionOptions) (env : ℕ → Attempt) where
  -- How a loop with `k` retries left ends: a transition on a store that only the other writers have
  -- changed, or no write at all.
  abbrev pub Ends : ℕ → ℕ → Store → Outcome × Store → Type 0
  Ends k n s (committed t, s') =
      (j : ℕ) × (j ≤ k + 1) × IsTransition rt red id target options (run_others env j n s) t s'
  Ends k n s (rejected e, s') = (j : ℕ) × (j ≤ k + 1) × (s' ≡ run_others env j n s)

  attempt-Ends :
      (k n : ℕ) (s : Store)
      → IsVersioned id (env n).others
      → (r : Outcome × Store) → attempt_transition rt red id target options (env n) s ≡ r
      → Ends k n s r
  unfolding run_others
  attempt-Ends k n s v (committed t, s') h =
      (1, omega arith, attempt_transition-IsTransition rt red id target options (env n) s v h)
  attempt-Ends k n s v (rejected e, s') h =
      elim (attempt_transition-rejected rt red id target options (env n) s h) [
        | inl same ↦ (0, omega arith, same)
        | inr others ↦ (1, omega arith, others)
      ]

  Ends-later :
      (k n : ℕ) (s : Store) (r : Outcome × Store)
      → Ends k (suc n) ((env n).others s) r
      → Ends (suc k) n s r
  unfolding run_others
  Ends-later k n s (committed t, s') (j, small, done) = (suc j, omega arith, done)
  Ends-later k n s (rejected e, s') (j, small, same) = (suc j, omega arith, same)

  conflict_store :
      (n : ℕ) (s : Store) (r : Outcome × Store)
      → attempt_transition rt red id target options (env n) s ≡ r
      → is_conflict r.0 ≡ true
      → r.1 ≡ (env n).others s
  conflict_store n s (committed t, s') h c = cc
  conflict_store n s (rejected e, s') h c =
      attempt_transition-conflict rt red id target options (env n) s h c

  loop-Ends :
      (k n : ℕ) (s : Store)
      → ((m : ℕ) → IsVersioned id (env m).others)
      → Ends k n s (transition_loop rt red id target options env k n s)
  unfolding transition_loop
  loop-Ends zero n s v =
      attempt-Ends zero n s (v n) (attempt_transition rt red id target options (env n) s) refl
  loop-Ends (suc k) n s v =
      let first = attempt_transition rt red id target options (env n) s in
      elim (Bool-cases (is_conflict first.0)) [
        | inl conflict ↦
            rw (conflict, transition_loop)
              (Ends-later k n s (transition_loop rt red id target options env k (suc n) first.1) (
                subst
                  (λ u.
                    Ends k (suc n) u
                      (transition_loop rt red id target options env k (suc n) first.1))
                  (conflict_store n s first refl conflict) (loop-Ends k (suc n) first.1 v)))
        | inr decided ↦ rw (decided, transition_loop) (attempt-Ends (suc k) n s (v n) first refl)
      ]

  -- A transition that returns has moved the run along an allowed edge from the phase in which the
  -- run stood at the very moment of the commit, has raised the version by one and has logged one
  -- event under an unused id, on a store that but for this only the other writers have changed; and
  -- a transition that throws has written nothing. Other writers may do anything else at any of the
  -- attempts, as long as they change the run's phase only together with its version.
  pub transition_run-Ends :
      (s : Store)
      → ((m : ℕ) → IsVersioned id (env m).others)
      → Ends max_transition_retries 0 s (transition_run rt red id target options env s)
  unfolding transition_run
  transition_run-Ends s v = loop-Ends max_transition_retries 0 s v

  loop-quiet :
      (i k n : ℕ) (s : Store)
      → n ≤ i
      → i ≤ n + k
      → ((u : Store) → (env i).others u ≡ u)
      → is_conflict (transition_loop rt red id target options env k n s).0 ≡ false
  unfolding transition_loop
  loop-quiet i zero n s low high quiet =
      let here : i ≡ n = omega arith in
      attempt_transition-quiet rt red id target options (env n) s
        (subst (λ j. (env j).others s ≡ s) here (quiet s))
  loop-quiet i (suc k) n s low high quiet =
      let first = attempt_transition rt red id target options (env n) s in
      elim (Bool-cases (is_conflict first.0)) [
        | inr decided ↦ rw (decided, transition_loop) decided
        | inl conflict ↦
            rw (conflict, transition_loop)
              (elim (dec_lt n i) [
                | yes later ↦ loop-quiet i k (suc n) first.1 later (omega arith) quiet
                | no not_later ↦
                    let here : i ≡ n = omega arith in
                    cc (
                      conflict,
                      attempt_transition-quiet rt red id target options (env n) s
                          (subst (λ j. (env j).others s ≡ s) here (quiet s)),
                    )
              ])
      ]

  -- If in one of the attempts, the first and three retries, no other writer touches the store, the
  -- transition does not fail by a version conflict.
  pub transition_run-quiet :
      (s : Store) (i : ℕ)
      → i ≤ max_transition_retries
      → ((u : Store) → (env i).others u ≡ u)
      → is_conflict (transition_run rt red id target options env s).0 ≡ false
  unfolding transition_run
  transition_run-quiet s i small quiet =
      loop-quiet i max_transition_retries 0 s (omega arith) (omega arith) quiet
