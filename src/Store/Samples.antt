-- ===== src/Store/Samples.antt =====
-- Test data: a runtime, a run, an event and a store that holds them.
use rector.Prelude.{true, String, none, [], ◌∷◌, length}
use rector.Protocol.Phase.{triage}
use rector.Protocol.Event.{Runtime, RunEvent, run_created}
use rector.Store.Schemas.{Budget, Run}
use rector.Store.Memory.{Store}

abbrev pub sample_runtime : Runtime
sample_runtime = record {
  is_datetime = λ _. true;
  text_length = λ _. 9;
  json_length = λ m. length m;
}

abbrev pub sample_budget : Budget
sample_budget = record {
  max_usd = 1000000;
  max_input_tokens = 1000;
  max_output_tokens = 500;
  max_model_calls = 10;
  max_runtime_ms = 60000;
  max_healing_attempts = 2;
  allowed_providers = "openai" ∷ "anthropic" ∷ [];
  approval_required_above_usd = 500000;
}

abbrev pub sample_run : Run
sample_run = record {
  id = "run-1";
  conversation_id = "conv-1";
  user_message_id = "msg-1";
  status = "running";
  phase = triage;
  route = "chat";
  complexity = "low";
  budget = sample_budget;
  cost_estimate = [];
  actual_cost = none;
  token_estimate = [];
  actual_tokens = none;
  trace_id = "trace-1";
  dag_id = none;
  attempts = 0;
  healing_attempts = 0;
  validation_attempts = 0;
  context_compression_applied = none;
  parent_run_id = none;
  last_error = none;
  decision_request = none;
  version = 1;
  created_at = "2026-01-01T00:00:00Z";
  updated_at = "2026-01-01T00:00:00Z";
}

abbrev pub sample_event : String → RunEvent
sample_event id = record {
  id = id;
  run_id = "run-1";
  type = run_created;
  phase = triage;
  payload = [];
  trace_id = none;
  redaction_state = none;
  created_at = "2026-01-01T00:00:00Z";
}

abbrev pub sample_store : Store
sample_store = record {
  runs = ("run-1", sample_run) ∷ [];
  events = ("evt-1", sample_event "evt-1") ∷ [];
}
