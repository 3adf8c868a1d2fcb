-- ===== src/Store/Memory.antt =====
-- The run and event methods of `InMemoryRectorStore` (src/store/inMemoryRectorStore.ts). A method
-- returns its result and the store that it leaves; a thrown error is `err`.
use rector.Prelude.{
  ℕ, Bool, true, false, List, [], String, Option, none, some, Dict, lookup, insert, remove, has,
  if◌then◌else◌, ◌==◌, ◌+◌, ◌-◌, str_eq, keep_if, map,
}
use rector.Protocol.Event.{Runtime, RunEvent, parse_event}
use rector.Store.Schemas.{Run, UpdateRunInput, or_current, parse_run}

pub data StoreError : Type 0 where
  run_not_found : String → StoreError
  concurrent_transition : String → ℕ → ℕ → StoreError
  duplicate_event_id : String → StoreError
  schema_error : StoreError

pub data Result {ℓ} (A : Type ℓ) : Type ℓ where
  ok : A → Result A
  err : StoreError → Result A

-- The tables of runs and of events.
pub record Store : Type 0 where
  pub runs : Dict Run
  pub events : Dict RunEvent

pub record Transition : Type 0 where
  pub run : Run
  pub event : RunEvent

abbrev pub empty : Store
empty = record { runs = []; events = [] }

-- `{...current, ...patch, id, createdAt, updatedAt: now}`.
unfoldable pub patched : Run → UpdateRunInput → String → Run
patched r p now = record {
  id = r.id;
  conversation_id = or_current p.conversation_id r.conversation_id;
  user_message_id = or_current p.user_message_id r.user_message_id;
  status = or_current p.status r.status;
  phase = or_current p.phase r.phase;
  route = or_current p.route r.route;
  complexity = or_current p.complexity r.complexity;
  budget = or_current p.budget r.budget;
  cost_estimate = or_current p.cost_estimate r.cost_estimate;
  actual_cost = or_current p.actual_cost r.actual_cost;
  token_estimate = or_current p.token_estimate r.token_estimate;
  actual_tokens = or_current p.actual_tokens r.actual_tokens;
  trace_id = or_current p.trace_id r.trace_id;
  dag_id = or_current p.dag_id r.dag_id;
  attempts = or_current p.attempts r.attempts;
  healing_attempts = or_current p.healing_attempts r.healing_attempts;
  validation_attempts = or_current p.validation_attempts r.validation_attempts;
  context_compression_applied =
      or_current p.context_compression_applied r.context_compression_applied;
  parent_run_id = or_current p.parent_run_id r.parent_run_id;
  last_error = or_current p.last_error r.last_error;
  decision_request = or_current p.decision_request r.decision_request;
  version = or_current p.version r.version;
  created_at = r.created_at;
  updated_at = now;
}

-- `createRun`: the caller has built the run with its new id and times.
unfoldable pub create_run : Runtime → Run → Store → Result Run × Store
create_run rt r s = elim (parse_run rt r) [
  | none ↦ (err schema_error, s)
  | some run ↦ (ok run, record s { runs = insert run.id run s.runs })
]

unfoldable pub get_run : String → Store → Option Run
get_run id s = lookup id s.runs

unfoldable pub list_runs : Option String → Store → List Run
list_runs none s = map (λ e. e.1) s.runs
list_runs (some conversation) s =
    keep_if (λ r. str_eq r.conversation_id conversation) (map (λ e. e.1) s.runs)

unfoldable pub update_run :
    Runtime → String → String → UpdateRunInput → Store → Result (Option Run) × Store
unfolding patched
update_run rt now id patch s = elim (lookup id s.runs) [
  | none ↦ (ok none, s)
  | some current ↦ elim (parse_run rt (patched current patch now)) [
    | none ↦ (err schema_error, s)
    | some updated ↦ (ok (some updated), record s { runs = insert id updated s.runs })
  ]
]

unfoldable pub delete_run : String → Store → Bool × Store
delete_run id s = (has id s.runs, record s { runs = remove id s.runs })

-- `patch.version !== undefined && current.version !== patch.version - 1`. The versions that the
-- patches carry are at least 1, and at 0 the source's `-1` differs from every version too.
unfoldable pub version_conflict : Run → Option ℕ → Bool
version_conflict current none = false
version_conflict current (some v) = if current.version + 1 == v then false else true

abbrev pub expected_version : Option ℕ → ℕ
expected_version none = 0
expected_version (some v) = v - 1

unfoldable pub commit_event : Runtime → String → Run → RunEvent → Store → Result Transition × Store
commit_event rt id updated event s = elim (parse_event rt event) [
  | none ↦ (err schema_error, s)
  | some parsed ↦ if has parsed.id s.events then (err (duplicate_event_id parsed.id), s) else (
    ok (record { run = updated; event = parsed }),
    record { runs = insert id updated s.runs; events = insert parsed.id parsed s.events },
  )
]

unfoldable pub commit_update :
    Runtime → String → String → Run → UpdateRunInput → RunEvent → Store → Result Transition × Store
unfolding commit_event
commit_update rt now id current patch event s =
    if version_conflict current patch.version
    then (err (concurrent_transition id (expected_version patch.version) current.version), s)
    else elim (parse_run rt (patched current patch now)) [
      | none ↦ (err schema_error, s)
      | some updated ↦ commit_event rt id updated event s
    ]

-- `commitRunTransition`: the version is compared, both records are parsed and the event's id is
-- looked up before either table is written.
unfoldable pub commit_run_transition :
    Runtime → String → String → UpdateRunInput → RunEvent → Store → Result Transition × Store
unfolding commit_update
commit_run_transition rt now id patch event s = elim (lookup id s.runs) [
  | none ↦ (err (run_not_found id), s)
  | some current ↦ commit_update rt now id current patch event s
]

unfoldable pub append_event : Runtime → RunEvent → Store → Result RunEvent × Store
append_event rt event s = elim (parse_event rt event) [
  | none ↦ (err schema_error, s)
  | some parsed ↦
      if has parsed.id s.events
      then (err (duplicate_event_id parsed.id), s)
      else (ok parsed, record s { events = insert parsed.id parsed s.events })
]

unfoldable pub get_event : String → Store → Option RunEvent
get_event id s = lookup id s.events

unfoldable pub list_events : Option String → Store → List RunEvent
list_events none s = map (λ e. e.1) s.events
list_events (some run_id) s = keep_if (λ e. str_eq e.run_id run_id) (map (λ e. e.1) s.events)

unfoldable pub delete_event : String → Store → Bool × Store
delete_event id s = (has id s.events, record s { events = remove id s.events })
