-- ===== src/Store/Tests.antt =====
-- Runs of the store on the sample data, and the theorems at those inputs.
use rector.Prelude.{some, [], ◌∷◌, List, lookup, insert, has, ◌≡◌, refl}
use rector.Protocol.Phase.{context_building}
use rector.Protocol.Event.{parse_event}
use rector.Store.Schemas.{Run, UpdateRunInput, no_changes, parse_run}
use rector.Store.Memory.{
  Store, Transition, ok, err, duplicate_event_id, empty, get_run, get_event, create_run,
  append_event, commit_run_transition, patched, version_conflict,
}
use rector.Store.Laws.{commit_run_transition-err}
use rector.Store.Commits.{HasCommitted, commit_run_transition-HasCommitted}
use rector.Store.Calls.{
  StoreCall, create, append, commit, perform, perform_all, get_event-perform_all,
}
use rector.Store.Samples.{sample_runtime, sample_run, sample_event, sample_store}

abbrev to_context : UpdateRunInput
to_context = record no_changes { phase = some context_building; version = some 2 }

abbrev moved_run : Run
moved_run = record sample_run { phase = context_building; version = 2; updated_at = "later" }

abbrev moved : Transition
moved = record { run = moved_run; event = sample_event "evt-2" }

abbrev moved_store : Store
moved_store = record {
  runs = ("run-1", moved_run) ∷ [];
  events = ("evt-1", sample_event "evt-1") ∷ ("evt-2", sample_event "evt-2") ∷ [];
}

commit_moves :
    commit_run_transition sample_runtime "later" "run-1" to_context
      (sample_event "evt-2")
      sample_store
    ≡ (ok moved, moved_store)
unfolding commit_run_transition lookup insert has parse_event parse_run patched version_conflict
commit_moves = refl

commit_duplicate :
    commit_run_transition sample_runtime "later" "run-1" to_context
      (sample_event "evt-1")
      sample_store
    ≡ (err (duplicate_event_id "evt-1"), sample_store)
unfolding commit_run_transition lookup insert has parse_event parse_run patched version_conflict
commit_duplicate = refl

commit_run_transition-HasCommitted_example :
    HasCommitted sample_runtime "later" "run-1" to_context
      (sample_event "evt-2")
      sample_store
      moved
      moved_store
commit_run_transition-HasCommitted_example =
    commit_run_transition-HasCommitted sample_runtime "later" "run-1" to_context
      (sample_event "evt-2") sample_store commit_moves

commit_run_transition-err_example : sample_store ≡ sample_store
commit_run_transition-err_example =
    commit_run_transition-err sample_runtime "later" "run-1" to_context (sample_event "evt-1")
      sample_store commit_duplicate

abbrev calls : List StoreCall
calls =
    create sample_run
    ∷ append (sample_event "evt-1")
    ∷ commit "later" "run-1" to_context (sample_event "evt-2")
    ∷ []

calls_run : get_run "run-1" (perform_all sample_runtime calls empty) ≡ some moved_run
unfolding get_run perform_all perform create_run append_event commit_run_transition lookup insert
    has parse_event parse_run patched version_conflict
calls_run = refl

first_event : get_event "evt-1" sample_store ≡ some (sample_event "evt-1")
unfolding get_event lookup
first_event = refl

get_event-perform_all_example :
    get_event "evt-1" (perform_all sample_runtime calls sample_store) ≡ some (sample_event "evt-1")
get_event-perform_all_example =
    get_event-perform_all sample_runtime calls sample_store "evt-1" (refl, (refl, (refl, tt)))
      first_event
