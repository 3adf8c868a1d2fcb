-- ===== src/Store/Calls.antt =====
-- Every write of the run and event tables as a call, and what holds after any sequence of calls.
use rector.Prelude.{
  Bool, true, false, String, some, List, [], ◌∷◌, Dict, lookup, insert, has, ◌≡◌, refl, inl, inr,
  Option-cases, Bool-cases, All, All-insert, All-remove, All-lookup, lookup-insert_new,
}
use rector.Protocol.Event.{Runtime, RunEvent, parse_event}
use rector.Store.Schemas.{Run, UpdateRunInput, is_run, parse_run}
use rector.Store.Memory.{
  Store, empty, patched, create_run, update_run, delete_run, version_conflict, commit_event,
  commit_update, commit_run_transition, append_event, delete_event, get_run, get_event,
}

pub data StoreCall : Type 0 where
  create : Run → StoreCall
  update : String → String → UpdateRunInput → StoreCall
  discard : String → StoreCall
  commit : String → String → UpdateRunInput → RunEvent → StoreCall
  append : RunEvent → StoreCall
  discard_event : String → StoreCall

-- The store that a call leaves, whether it returns or throws.
unfoldable pub perform : Runtime → StoreCall → Store → Store
perform rt (create r) s = (create_run rt r s).1
perform rt (update now id patch) s = (update_run rt now id patch s).1
perform rt (discard id) s = (delete_run id s).1
perform rt (commit now id patch event) s = (commit_run_transition rt now id patch event s).1
perform rt (append event) s = (append_event rt event s).1
perform rt (discard_event id) s = (delete_event id s).1

unfoldable pub perform_all : Runtime → List StoreCall → Store → Store
perform_all rt [] s = s
perform_all rt (c ∷ cs) s = perform_all rt cs (perform rt c s)

abbrev pub IsUnderRunId : String × Run → Type 0
IsUnderRunId e = e.1.id ≡ e.0

abbrev pub IsUnderEventId : String × RunEvent → Type 0
IsUnderEventId e = e.1.id ≡ e.0

-- Every record stands under its own id.
pub record IsStore (s : Store) : Type 0 where
  pub run_ids : All IsUnderRunId s.runs
  pub event_ids : All IsUnderEventId s.events

insert_run :
    (id : String) (r : Run) (s : Store)
    → IsStore s
    → r.id ≡ id
    → IsStore (record s { runs = insert id r s.runs })
insert_run id r s h e = record {
  run_ids = All-insert IsUnderRunId id r s.runs e h.run_ids;
  event_ids = h.event_ids;
}

insert_event :
    (e : RunEvent) (s : Store) → IsStore s → IsStore (record s { events = insert e.id e s.events })
insert_event e s h = record {
  run_ids = h.run_ids;
  event_ids = All-insert IsUnderEventId e.id e s.events refl h.event_ids;
}

patched_id :
    (id now : String) (patch : UpdateRunInput) (s : Store) {r : Run}
    → IsStore s
    → lookup id s.runs ≡ some r
    → (patched r patch now).id ≡ id
unfolding patched
patched_id id now patch s h e = All-lookup IsUnderRunId id s.runs h.run_ids e

perform-update-IsStore :
    (rt : Runtime) (now id : String) (patch : UpdateRunInput) (s : Store)
    → IsStore s
    → IsStore (perform rt (update now id patch) s)
unfolding perform update_run parse_run
perform-update-IsStore rt now id patch s h = elim (Option-cases (lookup id s.runs)) [
  | inl missing ↦ rw (missing, perform, update_run) h
  | inr (r, found) ↦ elim (Bool-cases (is_run rt (patched r patch now))) [
    | inl good ↦
        rw (found, good, perform, update_run)
          (insert_run id (patched r patch now) s h (patched_id id now patch s h found))
    | inr bad ↦ rw (found, bad, perform, update_run) h
  ]
]

commit_event-IsStore :
    (rt : Runtime) (id : String) (r : Run) (event : RunEvent) (s : Store)
    → IsStore s
    → r.id ≡ id
    → IsStore (commit_event rt id r event s).1
unfolding commit_event
commit_event-IsStore rt id r event s h e = elim (Option-cases (parse_event rt event)) [
  | inl bad ↦ rw (bad, commit_event) h
  | inr (parsed, good) ↦ elim (Bool-cases (has parsed.id s.events)) [
    | inl taken ↦ rw (good, taken, commit_event) h
    | inr fresh ↦
        rw (good, fresh, commit_event)
          (insert_event parsed (record s { runs = insert id r s.runs }) (insert_run id r s h e))
  ]
]

perform-commit-IsStore :
    (rt : Runtime) (now id : String) (patch : UpdateRunInput) (event : RunEvent) (s : Store)
    → IsStore s
    → IsStore (perform rt (commit now id patch event) s)
unfolding perform commit_run_transition commit_update parse_run
perform-commit-IsStore rt now id patch event s h = elim (Option-cases (lookup id s.runs)) [
  | inl missing ↦ rw (missing, perform, commit_run_transition) h
  | inr (r, found) ↦ elim (Bool-cases (version_conflict r patch.version)) [
    | inl stale ↦ rw (found, perform, commit_run_transition, commit_update, stale) h
    | inr same ↦ elim (Bool-cases (is_run rt (patched r patch now))) [
      | inl good ↦
          rw (found, perform, commit_run_transition, commit_update, same, good)
            (commit_event-IsStore rt id (patched r patch now) event s h
              (patched_id id now patch s h found))
      | inr bad ↦ rw (found, perform, commit_run_transition, commit_update, same, bad) h
    ]
  ]
]

perform-append-IsStore :
    (rt : Runtime) (event : RunEvent) (s : Store)
    → IsStore s
    → IsStore (perform rt (append event) s)
unfolding perform append_event
perform-append-IsStore rt event s h = elim (Option-cases (parse_event rt event)) [
  | inl bad ↦ rw (bad, perform, append_event) h
  | inr (parsed, good) ↦ elim (Bool-cases (has parsed.id s.events)) [
    | inl taken ↦ rw (good, taken, perform, append_event) h
    | inr fresh ↦ rw (good, fresh, perform, append_event) (insert_event parsed s h)
  ]
]

perform-create-IsStore :
    (rt : Runtime) (r : Run) (s : Store) → IsStore s → IsStore (perform rt (create r) s)
unfolding perform create_run parse_run
perform-create-IsStore rt r s h = elim (Bool-cases (is_run rt r)) [
  | inl good ↦ rw (good, perform, create_run) (insert_run r.id r s h refl)
  | inr bad ↦ rw (bad, perform, create_run) h
]

perform-IsStore : (rt : Runtime) (c : StoreCall) (s : Store) → IsStore s → IsStore (perform rt c s)
perform-IsStore rt (create r) s h = perform-create-IsStore rt r s h
perform-IsStore rt (update now id patch) s h = perform-update-IsStore rt now id patch s h
perform-IsStore rt (discard id) s h =
    unfold perform delete_run in
    record { run_ids = All-remove IsUnderRunId id s.runs h.run_ids; event_ids = h.event_ids }
perform-IsStore rt (commit now id patch event) s h =
    perform-commit-IsStore rt now id patch event s h
perform-IsStore rt (append event) s h = perform-append-IsStore rt event s h
perform-IsStore rt (discard_event id) s h =
    unfold perform delete_event in
    record { run_ids = h.run_ids; event_ids = All-remove IsUnderEventId id s.events h.event_ids }

perform_all-IsStore :
    (rt : Runtime) (cs : List StoreCall) (s : Store) → IsStore s → IsStore (perform_all rt cs s)
unfolding perform_all
perform_all-IsStore rt [] s h = h
perform_all-IsStore rt (c ∷ cs) s h =
    perform_all-IsStore rt cs (perform rt c s) (perform-IsStore rt c s h)

-- Whatever the calls since the store was empty, a run that `getRun` returns has the id asked for.
pub get_run-perform_all :
    (rt : Runtime) (cs : List StoreCall) (id : String) {r : Run}
    → get_run id (perform_all rt cs empty) ≡ some r
    → r.id ≡ id
unfolding get_run
get_run-perform_all rt cs id e =
    let h = perform_all-IsStore rt cs empty (record { run_ids = tt; event_ids = tt }) in
    All-lookup IsUnderRunId id (perform_all rt cs empty).runs h.run_ids e

-- Calls other than the deletion of an event.
abbrev pub keeps_events : StoreCall → Bool
keeps_events (discard_event _) = false
keeps_events _ = true

-- What one call writes to the event table: nothing, or one event under an id that was not used.
data EventWrite (m : Dict RunEvent) : Dict RunEvent → Type 0 where
  unchanged : EventWrite m m
  added : (e : RunEvent) → has e.id m ≡ false → EventWrite m (insert e.id e m)

EventWrite-commit_event :
    (rt : Runtime) (id : String) (r : Run) (event : RunEvent) (s : Store)
    → EventWrite s.events (commit_event rt id r event s).1.events
unfolding commit_event
EventWrite-commit_event rt id r event s = elim (Option-cases (parse_event rt event)) [
  | inl bad ↦ rw (bad, commit_event) unchanged
  | inr (parsed, good) ↦ elim (Bool-cases (has parsed.id s.events)) [
    | inl taken ↦ rw (good, taken, commit_event) unchanged
    | inr fresh ↦ rw (good, fresh, commit_event) (added parsed fresh)
  ]
]

EventWrite-commit :
    (rt : Runtime) (now id : String) (patch : UpdateRunInput) (event : RunEvent) (s : Store)
    → EventWrite s.events (perform rt (commit now id patch event) s).events
unfolding perform commit_run_transition commit_update parse_run
EventWrite-commit rt now id patch event s = elim (Option-cases (lookup id s.runs)) [
  | inl missing ↦ rw (missing, perform, commit_run_transition) unchanged
  | inr (r, found) ↦ elim (Bool-cases (version_conflict r patch.version)) [
    | inl stale ↦ rw (found, perform, commit_run_transition, commit_update, stale) unchanged
    | inr same ↦ elim (Bool-cases (is_run rt (patched r patch now))) [
      | inl good ↦
          rw (found, perform, commit_run_transition, commit_update, same, good)
            (EventWrite-commit_event rt id (patched r patch now) event s)
      | inr bad ↦ rw (found, perform, commit_run_transition, commit_update, same, bad) unchanged
    ]
  ]
]

EventWrite-append :
    (rt : Runtime) (event : RunEvent) (s : Store)
    → EventWrite s.events (perform rt (append event) s).events
unfolding perform append_event
EventWrite-append rt event s = elim (Option-cases (parse_event rt event)) [
  | inl bad ↦ rw (bad, perform, append_event) unchanged
  | inr (parsed, good) ↦ elim (Bool-cases (has parsed.id s.events)) [
    | inl taken ↦ rw (good, taken, perform, append_event) unchanged
    | inr fresh ↦ rw (good, fresh, perform, append_event) (added parsed fresh)
  ]
]

events-perform_run :
    (rt : Runtime) (c : StoreCall) (s : Store)
    → keeps_events c ≡ true
    → EventWrite s.events (perform rt c s).events
unfolding perform create_run update_run delete_run parse_run
events-perform_run rt (create r) s h = elim (Bool-cases (is_run rt r)) [
  | inl good ↦ rw (good, perform, create_run) unchanged
  | inr bad ↦ rw (bad, perform, create_run) unchanged
]
events-perform_run rt (update now id patch) s h = elim (Option-cases (lookup id s.runs)) [
  | inl missing ↦ rw (missing, perform, update_run) unchanged
  | inr (r, found) ↦ elim (Bool-cases (is_run rt (patched r patch now))) [
    | inl good ↦ rw (found, good, perform, update_run) unchanged
    | inr bad ↦ rw (found, bad, perform, update_run) unchanged
  ]
]
events-perform_run rt (discard id) s h = unchanged
events-perform_run rt (commit now id patch event) s h = EventWrite-commit rt now id patch event s
events-perform_run rt (append event) s h = EventWrite-append rt event s
events-perform_run rt (discard_event id) s h = cc

EventWrite-lookup :
    {m m' : Dict RunEvent} (id : String) {e : RunEvent}
    → EventWrite m m'
    → lookup id m ≡ some e
    → lookup id m' ≡ some e
EventWrite-lookup id unchanged h = h
EventWrite-lookup {m} id (added e fresh) h = lookup-insert_new e.id id e m fresh h

-- The event log is append-only: while no event is deleted, no call changes or drops an event that
-- is in the log.
pub get_event-perform_all :
    (rt : Runtime) (cs : List StoreCall) (s : Store) (id : String) {e : RunEvent}
    → All (λ c. keeps_events c ≡ true) cs
    → get_event id s ≡ some e
    → get_event id (perform_all rt cs s) ≡ some e
unfolding perform_all get_event
get_event-perform_all rt [] s id h found = found
get_event-perform_all rt (c ∷ cs) s id h found =
    get_event-perform_all rt cs (perform rt c s) id h.1
      (EventWrite-lookup id (events-perform_run rt c s h.0) found)
