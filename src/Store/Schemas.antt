-- ===== src/Store/Schemas.antt =====
-- Budgets, runs and patches of runs (src/store/schemas.ts).
use rector.Prelude.{ℕ, Bool, List, String, Option, none, some, Metadata, ◌&&◌, all, if◌then◌else◌}
use rector.Protocol.Phase.{RunPhase}
use rector.Protocol.Event.{Runtime, is_non_empty, is_optional_text}

-- Amounts of money are in millionths of a dollar, all else is counted in units.
pub record Budget : Type 0 where
  pub max_usd : ℕ
  pub max_input_tokens : ℕ
  pub max_output_tokens : ℕ
  pub max_model_calls : ℕ
  pub max_runtime_ms : ℕ
  pub max_healing_attempts : ℕ
  pub allowed_providers : List String
  pub approval_required_above_usd : ℕ

pub record Run : Type 0 where
  pub id : String
  pub conversation_id : String
  pub user_message_id : String
  pub status : String
  pub phase : RunPhase
  pub route : String
  pub complexity : String
  pub budget : Budget
  pub cost_estimate : Metadata
  pub actual_cost : Option Metadata
  pub token_estimate : Metadata
  pub actual_tokens : Option Metadata
  pub trace_id : String
  pub dag_id : Option String
  pub attempts : ℕ
  pub healing_attempts : ℕ
  pub validation_attempts : ℕ
  pub context_compression_applied : Option Bool
  pub parent_run_id : Option String
  pub last_error : Option String
  pub decision_request : Option Metadata
  pub version : ℕ
  pub created_at : String
  pub updated_at : String

-- `UpdateRunInput`. A key that is absent is `none`; an optional field is set to `undefined` by
-- `some none`.
pub record UpdateRunInput : Type 0 where
  pub conversation_id : Option String
  pub user_message_id : Option String
  pub status : Option String
  pub phase : Option RunPhase
  pub route : Option String
  pub complexity : Option String
  pub budget : Option Budget
  pub cost_estimate : Option Metadata
  pub actual_cost : Option (Option Metadata)
  pub token_estimate : Option Metadata
  pub actual_tokens : Option (Option Metadata)
  pub trace_id : Option String
  pub dag_id : Option (Option String)
  pub attempts : Option ℕ
  pub healing_attempts : Option ℕ
  pub validation_attempts : Option ℕ
  pub context_compression_applied : Option (Option Bool)
  pub parent_run_id : Option (Option String)
  pub last_error : Option (Option String)
  pub decision_request : Option (Option Metadata)
  pub version : Option ℕ

abbrev pub no_changes : UpdateRunInput
no_changes = record {
  conversation_id = none;
  user_message_id = none;
  status = none;
  phase = none;
  route = none;
  complexity = none;
  budget = none;
  cost_estimate = none;
  actual_cost = none;
  token_estimate = none;
  actual_tokens = none;
  trace_id = none;
  dag_id = none;
  attempts = none;
  healing_attempts = none;
  validation_attempts = none;
  context_compression_applied = none;
  parent_run_id = none;
  last_error = none;
  decision_request = none;
  version = none;
}

-- The value that a spread `{...current, ...patch}` gives a field.
abbrev pub or_current {ℓ} : {A : Type ℓ} → Option A → A → A
or_current none a = a
or_current (some b) a = b

-- `RunSchema.parse` of a value of the right types: the texts are not empty, the times are ISO.
pub is_run : Runtime → Run → Bool
is_run rt r =
    is_non_empty r.id
    && is_non_empty r.conversation_id
    && is_non_empty r.user_message_id
    && is_non_empty r.status
    && is_non_empty r.route
    && is_non_empty r.complexity
    && all is_non_empty r.budget.allowed_providers
    && is_non_empty r.trace_id
    && is_optional_text r.dag_id
    && is_optional_text r.parent_run_id
    && rt.is_datetime r.created_at
    && rt.is_datetime r.updated_at

unfoldable pub parse_run : Runtime → Run → Option Run
unfolding is_run
parse_run rt r = if is_run rt r then some r else none
