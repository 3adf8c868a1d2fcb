-- ===== src/Orchestration/RunStateMachine/Tests.antt =====
-- Transitions of the sample run, alone and beside a competing writer.
use rector.Prelude.{ℕ, zero, suc, true, false, String, some, [], ◌∷◌, List, ◌≡◌, refl, arith}
use rector.Protocol.Phase.{
  triage, context_building, planning, skeptic_review, crucible, dag_compilation, executing,
}
use rector.Store.Schemas.{no_changes}
use rector.Store.Memory.{Store}
use rector.Store.Calls.{StoreCall, commit, perform_all}
use rector.Store.Samples.{sample_runtime, sample_event, sample_store}
use rector.Orchestration.RunStateMachine.{
  Redaction, no_options, Attempt, is_conflict, is_allowed_run_phase_transition, transition_run,
  max_transition_retries,
}
use rector.Orchestration.RunStateMachine.Diagram.{History, start, next, visited, History-visited}
use rector.Orchestration.RunStateMachine.Concurrency.{
  IsVersioned, Ends, transition_run-Ends, transition_run-quiet,
}
use rector.Orchestration.RunStateMachine.Writers.{perform_all-IsVersioned}

abbrev plain : Redaction
plain = record { metadata = λ m. m; text = λ s. s }

-- A competing transition that raises the version before the first commit.
abbrev rival : List StoreCall
rival =
    commit "12:00" "run-1" (record no_changes { version = some 2; attempts = some 1 })
      (sample_event "evt-rival")
    ∷ []

abbrev attempt_of : String → List StoreCall → Attempt
attempt_of id calls = record {
  event_id = id;
  event_time = "12:01";
  store_time = "12:02";
  others = perform_all sample_runtime calls;
}

-- The rival is at work in the first attempt, nobody in the others.
abbrev disturbed : ℕ → Attempt
disturbed zero = attempt_of "evt-a" rival
disturbed (suc n) = attempt_of "evt-b" []

disturbed-IsVersioned : (m : ℕ) → IsVersioned "run-1" (disturbed m).others
disturbed-IsVersioned zero = perform_all-IsVersioned sample_runtime "run-1" rival (refl, tt)
disturbed-IsVersioned (suc m) = perform_all-IsVersioned sample_runtime "run-1" [] tt

perform_all-IsVersioned_example : IsVersioned "run-1" (perform_all sample_runtime rival)
perform_all-IsVersioned_example = perform_all-IsVersioned sample_runtime "run-1" rival (refl, tt)

transition_run-Ends_example :
    Ends sample_runtime plain "run-1" context_building no_options disturbed max_transition_retries 0
      sample_store
      (transition_run sample_runtime plain "run-1" context_building no_options disturbed
        sample_store)
transition_run-Ends_example =
    transition_run-Ends sample_runtime plain "run-1" context_building no_options disturbed
      sample_store disturbed-IsVersioned

nobody : (u : Store) → perform_all sample_runtime [] u ≡ u
unfolding perform_all
nobody u = refl

transition_run-quiet_example :
    is_conflict
      (transition_run sample_runtime plain "run-1" context_building no_options disturbed
        sample_store).0
    ≡ false
transition_run-quiet_example =
    transition_run-quiet sample_runtime plain "run-1" context_building no_options disturbed
      sample_store 1 (omega arith) nobody

abbrev executed : History executing
unfolding is_allowed_run_phase_transition
executed =
    next
      (next
        (next
          (next (next (next (next start triage refl) context_building refl) planning refl)
            skeptic_review refl)
          crucible refl)
        dag_compilation refl)
      executing refl

History-visited_example : visited crucible executed ≡ true
unfolding visited is_allowed_run_phase_transition
History-visited_example = History-visited executed refl crucible refl
