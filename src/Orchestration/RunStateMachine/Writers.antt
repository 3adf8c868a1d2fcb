-- ===== src/Orchestration/RunStateMachine/Writers.antt =====
-- Which calls of the store are safe beside a transition: competing transitions, and updates of a run
-- that leave its phase and version alone.
use rector.Prelude.{
  ◌<◌, Bool, true, false, not, String, Option, none, some, List, [], ◌∷◌, lookup, insert, has, ◌≡◌,
  refl, subst, ◌⊎◌, arith, inl, inr, Option-cases, Bool-cases, All, str_eq, eq_iff, lookup-insert,
  lookup-remove, ◌&&◌, if◌then◌else◌,
}
use rector.Protocol.Event.{Runtime, RunEvent, parse_event}
use rector.Store.Schemas.{Run, UpdateRunInput, is_run, parse_run}
use rector.Store.Memory.{
  Store, patched, version_conflict, create_run, update_run, delete_run, commit_event, commit_update,
  commit_run_transition, append_event, delete_event,
}
use rector.Store.Calls.{
  StoreCall, create, update, discard, commit, append, discard_event, perform, perform_all,
}
use rector.Orchestration.RunStateMachine.Concurrency.{IsVersioned}

abbrev is_absent {ℓ} : {A : Type ℓ} → Option A → Bool
is_absent none = true
is_absent (some _) = false

-- No second creation of the run, no plain update of its phase or version, and every commit carries
-- a version.
abbrev pub is_versioned_call : String → StoreCall → Bool
is_versioned_call id (create r) = not (str_eq r.id id)
is_versioned_call id (update now j patch) = is_absent patch.phase && is_absent patch.version
is_versioned_call id (commit now j patch event) = not (is_absent patch.version)
is_versioned_call id _ = true

abbrev Moved : Run → Run → Type 0
Moved r u = ((u.version ≡ r.version) × (u.phase ≡ r.phase)) ⊎ (r.version < u.version)

-- What a safe call may do to a run.
abbrev Moves : Option Run → Option Run → Type 0
Moves none o = o ≡ none
Moves (some r) none = Unit
Moves (some r) (some u) = Moved r u

Moves-refl : (o : Option Run) → Moves o o
Moves-refl none = refl
Moves-refl (some r) = inl (refl, refl)

Moves-trans : (a b c : Option Run) → Moves a b → Moves b c → Moves a c
Moves-trans none none c h k = k
Moves-trans none (some b) c h k = cc
Moves-trans (some a) none none h k = tt
Moves-trans (some a) none (some c) h k = cc
Moves-trans (some a) (some b) none h k = tt
Moves-trans (some a) (some b) (some c) h k = ground arith

Moves-insert :
    (id j : String) (r : Run) (s : Store)
    → Moves (lookup j s.runs) (some r)
    → Moves (lookup id s.runs) (lookup id (insert j r s.runs))
Moves-insert id j r s h = elim (Bool-cases (str_eq j id)) [
  | inl same ↦
      rw (lookup-insert j id r s.runs, same)
        (subst (λ i. Moves (lookup i s.runs) (some r)) ((eq_iff j id).0 same) h)
  | inr other ↦ rw (lookup-insert j id r s.runs, other) (Moves-refl (lookup id s.runs))
]

plain_update :
    (r : Run) (id now : String) (patch : UpdateRunInput)
    → is_versioned_call id (update now id patch) ≡ true
    → Moved r (patched r patch now)
unfolding patched
plain_update r id now patch v = ground arith

versioned_commit :
    (r : Run) (id now : String) (patch : UpdateRunInput) (event : RunEvent)
    → is_versioned_call id (commit now id patch event) ≡ true
    → version_conflict r patch.version ≡ false
    → r.version < (patched r patch now).version
unfolding patched version_conflict
versioned_commit r id now patch event v same = ground arith

Moves-update :
    (rt : Runtime) (id now j : String) (patch : UpdateRunInput) (s : Store)
    → is_versioned_call id (update now j patch) ≡ true
    → Moves (lookup id s.runs) (lookup id (perform rt (update now j patch) s).runs)
unfolding perform update_run parse_run
Moves-update rt id now j patch s v = elim (Option-cases (lookup j s.runs)) [
  | inl missing ↦ rw (missing, perform, update_run) (Moves-refl (lookup id s.runs))
  | inr (r, found) ↦ elim (Bool-cases (is_run rt (patched r patch now))) [
    | inl good ↦
        rw (found, good, perform, update_run)
          (Moves-insert id j (patched r patch now) s (rw found (plain_update r j now patch v)))
    | inr bad ↦ rw (found, bad, perform, update_run) (Moves-refl (lookup id s.runs))
  ]
]

Moves-commit_event :
    (rt : Runtime) (id j : String) (r : Run) (event : RunEvent) (s : Store)
    → Moves (lookup j s.runs) (some r)
    → Moves (lookup id s.runs) (lookup id (commit_event rt j r event s).1.runs)
unfolding commit_event
Moves-commit_event rt id j r event s h = elim (Option-cases (parse_event rt event)) [
  | inl bad ↦ rw (bad, commit_event) (Moves-refl (lookup id s.runs))
  | inr (parsed, good) ↦ elim (Bool-cases (has parsed.id s.events)) [
    | inl taken ↦ rw (good, taken, commit_event) (Moves-refl (lookup id s.runs))
    | inr fresh ↦ rw (good, fresh, commit_event) (Moves-insert id j r s h)
  ]
]

Moves-commit :
    (rt : Runtime) (id now j : String) (patch : UpdateRunInput) (event : RunEvent) (s : Store)
    → is_versioned_call id (commit now j patch event) ≡ true
    → Moves (lookup id s.runs) (lookup id (perform rt (commit now j patch event) s).runs)
unfolding perform commit_run_transition commit_update parse_run
Moves-commit rt id now j patch event s v = elim (Option-cases (lookup j s.runs)) [
  | inl missing ↦ rw (missing, perform, commit_run_transition) (Moves-refl (lookup id s.runs))
  | inr (r, found) ↦ elim (Bool-cases (version_conflict r patch.version)) [
    | inl stale ↦
        rw (found, perform, commit_run_transition, commit_update, stale)
          (Moves-refl (lookup id s.runs))
    | inr same ↦ elim (Bool-cases (is_run rt (patched r patch now))) [
      | inl good ↦
          rw (found, perform, commit_run_transition, commit_update, same, good)
            (Moves-commit_event rt id j (patched r patch now) event s
              (rw found (inr (versioned_commit r j now patch event v same))))
      | inr bad ↦
          rw (found, perform, commit_run_transition, commit_update, same, bad)
            (Moves-refl (lookup id s.runs))
    ]
  ]
]

not-eq-true : (b : Bool) → not b ≡ true → b ≡ false
not-eq-true true h = cc
not-eq-true false h = refl

removed : (b : Bool) (o : Option Run) → Moves o (if b then none else o)
removed true none = refl
removed true (some r) = tt
removed false o = Moves-refl o

Moves-create :
    (rt : Runtime) (id : String) (r : Run) (s : Store)
    → is_versioned_call id (create r) ≡ true
    → Moves (lookup id s.runs) (lookup id (perform rt (create r) s).runs)
unfolding perform create_run parse_run
Moves-create rt id r s v = elim (Bool-cases (is_run rt r)) [
  | inl good ↦
      rw (good, perform, create_run)
        (rw (lookup-insert r.id id r s.runs, not-eq-true (str_eq r.id id) v)
          (Moves-refl (lookup id s.runs)))
  | inr bad ↦ rw (bad, perform, create_run) (Moves-refl (lookup id s.runs))
]

Moves-discard :
    (rt : Runtime) (id j : String) (s : Store)
    → Moves (lookup id s.runs) (lookup id (perform rt (discard j) s).runs)
unfolding perform delete_run
Moves-discard rt id j s = rw (lookup-remove j id s.runs) (removed (str_eq j id) (lookup id s.runs))

runs-append :
    (rt : Runtime) (event : RunEvent) (s : Store) → (perform rt (append event) s).runs ≡ s.runs
unfolding perform append_event
runs-append rt event s = ground arith

Moves-perform :
    (rt : Runtime) (id : String) (c : StoreCall) (s : Store)
    → is_versioned_call id c ≡ true
    → Moves (lookup id s.runs) (lookup id (perform rt c s).runs)
Moves-perform rt id (create r) s v = Moves-create rt id r s v
Moves-perform rt id (update now j patch) s v = Moves-update rt id now j patch s v
Moves-perform rt id (discard j) s v = Moves-discard rt id j s
Moves-perform rt id (commit now j patch event) s v = Moves-commit rt id now j patch event s v
Moves-perform rt id (append event) s v = rw (runs-append rt event s) (Moves-refl (lookup id s.runs))
Moves-perform rt id (discard_event j) s v =
    unfold perform delete_event in Moves-refl (lookup id s.runs)

Moves-perform_all :
    (rt : Runtime) (id : String) (cs : List StoreCall) (s : Store)
    → All (λ c. is_versioned_call id c ≡ true) cs
    → Moves (lookup id s.runs) (lookup id (perform_all rt cs s).runs)
unfolding perform_all
Moves-perform_all rt id [] s v = Moves-refl (lookup id s.runs)
Moves-perform_all rt id (c ∷ cs) s v =
    Moves-trans (lookup id s.runs) (lookup id (perform rt c s).runs)
      (lookup id (perform_all rt cs (perform rt c s)).runs) (Moves-perform rt id c s v.0)
      (Moves-perform_all rt id cs (perform rt c s) v.1)

Moved-same_version : (r u : Run) → Moved r u → u.version ≡ r.version → u.phase ≡ r.phase
Moved-same_version r u (inl (v, p)) e = p
Moved-same_version r u (inr less) e = absurd (omega arith)

-- Any sequence of store calls changes the phase of run `id` only together with its version, provided
-- that none creates the run anew, every plain update of a run leaves phase and version alone, and
-- every commit carries a version, as those of transitions do.
pub perform_all-IsVersioned :
    (rt : Runtime) (id : String) (cs : List StoreCall)
    → All (λ c. is_versioned_call id c ≡ true) cs
    → IsVersioned id (perform_all rt cs)
perform_all-IsVersioned rt id cs v = record {
  same_phase = λ s before after found found' e.
      Moved-same_version before after (rw (found, found') at (Moves-perform_all rt id cs s v)) e;
}
