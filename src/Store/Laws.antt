-- ===== src/Store/Laws.antt =====
-- What a commit and the other writes of the store do to its tables.
use rector.Prelude.{false, String, some, lookup, insert, has, ◌≡◌, arith}
use rector.Protocol.Event.{Runtime, RunEvent, parse_event}
use rector.Store.Schemas.{Run, UpdateRunInput, parse_run}
use rector.Store.Memory.{
  Store, StoreError, ok, err, Transition, patched, version_conflict, commit_event, commit_update,
  commit_run_transition,
}

-- Inversion of the three steps of a commit.
commit_event-ok :
    (rt : Runtime) (id : String) (updated : Run) (event : RunEvent) (s : Store) {t : Transition}
    {s' : Store}
    → commit_event rt id updated event s ≡ (ok t, s')
    → (t.run ≡ updated)
      × (parse_event rt event ≡ some t.event)
      × (has t.event.id s.events ≡ false)
      × (s'.runs ≡ insert id t.run s.runs)
      × (s'.events ≡ insert t.event.id t.event s.events)
unfolding commit_event
commit_event-ok rt id updated event s h = ground arith

commit_update-ok :
    (rt : Runtime) (now id : String) (current : Run) (patch : UpdateRunInput) (event : RunEvent)
    (s : Store) {t : Transition} {s' : Store}
    → commit_update rt now id current patch event s ≡ (ok t, s')
    → (version_conflict current patch.version ≡ false)
      × (commit_event rt id (patched current patch now) event s ≡ (ok t, s'))
unfolding commit_update parse_run
commit_update-ok rt now id current patch event s h = ground arith

commit-found :
    (rt : Runtime) (now id : String) (patch : UpdateRunInput) (event : RunEvent) (s : Store)
    {t : Transition} {s' : Store}
    → commit_run_transition rt now id patch event s ≡ (ok t, s')
    → (current : Run) × (lookup id s.runs ≡ some current)
      × (commit_update rt now id current patch event s ≡ (ok t, s'))
unfolding commit_run_transition
commit-found rt now id patch event s h = ground arith

module _ (rt : Runtime) (now id : String) (patch : UpdateRunInput) (event : RunEvent) where
  -- A commit that took place: what it found and what it wrote.
  pub record IsCommit (s : Store) (t : Transition) (s' : Store) : Type 0 where
    pub current : Run
    pub found : lookup id s.runs ≡ some current
    pub same_version : version_conflict current patch.version ≡ false
    pub written : t.run ≡ patched current patch now
    pub logged : parse_event rt event ≡ some t.event
    pub fresh : has t.event.id s.events ≡ false
    pub runs : s'.runs ≡ insert id t.run s.runs
    pub events : s'.events ≡ insert t.event.id t.event s.events

  -- A commit that returns has found the run at the expected version and an unused event id, and
  -- has written the patched run and the event, and nothing else.
  pub commit_run_transition-IsCommit :
      (s : Store) {t : Transition} {s' : Store}
      → commit_run_transition rt now id patch event s ≡ (ok t, s')
      → IsCommit s t s'
  unfolding commit_run_transition
  commit_run_transition-IsCommit s {t} {s'} h =
      let (current, found, h₁) = commit-found rt now id patch event s h in
      let (same, h₂) = commit_update-ok rt now id current patch event s h₁ in
      let (run, logged, fresh, runs, events) =
        commit_event-ok rt id (patched current patch now) event s h₂ in
      record {
        current = current;
        found = found;
        same_version = same;
        written = run;
        logged = logged;
        fresh = fresh;
        runs = runs;
        events = events;
      }

  -- A commit that throws has written neither the run nor the event.
  pub commit_run_transition-err :
      (s : Store) {e : StoreError} {s' : Store}
      → commit_run_transition rt now id patch event s ≡ (err e, s')
      → s' ≡ s
  unfolding commit_run_transition
  commit_run_transition-err s h = ground arith
