-- ===== src/Orchestration/RunControl/Tests.antt =====
-- Runs of the control calls (src/orchestration/runControl.ts).
use rector.Prelude.{
  true, false, String, none, some, List, [], ◌∷◌, ◌++◌, ◌≡◌, ◌≢◌, refl, arith, lookup, trim, str_eq,
}
use rector.Protocol.Phase.{is_terminal_run_phase, phase_includes}
use rector.Store.Memory.{get_run}
use rector.Store.Samples.{sample_runtime, sample_run, sample_store}
use rector.Orchestration.RunControl.{
  Outside, World, RunControlState, create_run_control_state, cleaned, shift, interrupt_run,
  steer_run, throw_if_run_interrupted, InterruptRunResult, SteerRunResult,
}
use rector.Orchestration.RunControl.Units.{slice_units}
use rector.Orchestration.RunControl.Steering.{
  SteerCall, enqueue, drain, deliver, log_deliver, deliver-log_deliver,
}
use rector.Orchestration.RunControl.Held.{ControlCall, steer, clear, perform_all, IsStopped}
use rector.Orchestration.RunControl.Interrupts.{
  steer_run-full, interrupt_run-stops, interrupt_run-evicted,
}

abbrev outside : Outside
outside = record {
  redact = λ s. s;
  redact_secrets = λ m. m;
  runtime = sample_runtime;
  random_uuid = "1234";
  iso = λ n. "2026-01-01T00:00:00.000Z";
}

abbrev calls : List SteerCall
calls = enqueue 1 "slower" ∷ enqueue 2 " " ∷ drain 3 ∷ drain 4 ∷ []

deliver-log_deliver_example :
    deliver outside calls (create_run_control_state 0 none)
    ≡ log_deliver outside calls (record { messages = []; past = 0 })
deliver-log_deliver_example = deliver-log_deliver outside 0 none calls

calls-delivered :
    deliver outside calls (create_run_control_state 0 none) ≡ some "slower" ∷ none ∷ []
unfolding deliver slice_units trim
calls-delivered = refl

abbrev five : List String
five = "a" ∷ "b" ∷ "c" ∷ "d" ∷ "e" ∷ []

abbrev crowded : RunControlState
crowded = record (create_run_control_state 0 (some "run-1")) {
  steer_queue = five ++ (five ++ (five ++ five));
}

abbrev world : World
world = record {
  store = sample_store;
  controls = ("run-1", 0) ∷ [];
  heap = λ address. crowded;
  next = 1;
}

world-run : get_run "run-1" world.store ≡ some sample_run
unfolding get_run lookup
world-run = refl

world-active : is_terminal_run_phase sample_run.phase ≡ false
unfolding is_terminal_run_phase phase_includes
world-active = refl

world-held : lookup "run-1" world.controls ≡ some 0
unfolding lookup
world-held = refl

-- The table after the control of the run has been dropped.
abbrev evicted : World
evicted = record world { controls = [] }

evicted-gone : lookup "run-1" evicted.controls ≡ none
unfolding lookup
evicted-gone = refl

stop-text : str_eq (cleaned outside "stop") "" ≡ false
unfolding slice_units trim
stop-text = refl

steer_run-full_example :
    ((steer_run outside 5 "run-1" "stop" world).0 ≡ SteerRunResult.empty sample_run)
    × (((steer_run outside 5 "run-1" "stop" world).1.heap 0).steer_queue
        ≡ shift (world.heap 0).steer_queue ++ cleaned outside "stop" ∷ [])
    × ((steer_run outside 5 "run-1" "stop" world).1.store ≡ world.store)
steer_run-full_example =
    steer_run-full outside 5 "run-1" "stop" world world-run world-active world-held refl stop-text

abbrev stopped : World
stopped = (interrupt_run outside 5 "run-1" (some "enough") world).1

abbrev further : List ControlCall
further = steer outside 6 "run-1" "more" ∷ ControlCall.drain 7 0 ∷ clear "run-1" ∷ []

interrupt_run-stops_example :
    ((stopped.heap 0).steer_queue ≡ (world.heap 0).steer_queue)
    × IsStopped ((perform_all further stopped).heap 0)
    × (throw_if_run_interrupted ((perform_all further stopped).heap 0) ≢ none)
    × ((interrupt_run outside 6 "run-1" none stopped).0 ≡ InterruptRunResult.aborting sample_run)
    × ((interrupt_run outside 6 "run-1" none stopped).1.store ≡ stopped.store)
interrupt_run-stops_example =
    interrupt_run-stops outside 5 6 "run-1" (some "enough") none world further world-run
      world-active world-held (omega arith)

interrupt_run-evicted_example :
    ((interrupt_run outside 5 "run-1" none evicted).1.heap 0 ≡ evicted.heap 0)
    × (lookup "run-1" (interrupt_run outside 5 "run-1" none evicted).1.controls ≡ some 1)
    × (((interrupt_run outside 5 "run-1" none evicted).1.heap 1).interrupt_requested ≡ true)
interrupt_run-evicted_example =
    interrupt_run-evicted outside 5 "run-1" none evicted world-run world-active evicted-gone
      (omega arith)
