-- ===== src/Store/Commits.antt =====
-- What a commit of a transition leaves, field by field (`commitRunTransition` of
-- src/store/inMemoryRectorStore.ts).
use rector.Prelude.{
  ℕ, false, String, Option, some, none, lookup, insert, has, ◌+◌, ◌≡◌, refl, sym, ◌∙◌, ap, keep_if,
  arith,
}
use rector.Protocol.Event.{Runtime, RunEvent, is_defined, clean_payload, parse_event}
use rector.Store.Schemas.{Run, UpdateRunInput, or_current}
use rector.Store.Memory.{Store, ok, Transition, patched, version_conflict, commit_run_transition}
use rector.Store.Laws.{commit_run_transition-IsCommit}

-- A field after a patch: what the patch gives for it, else what it was.
abbrev pub Took {ℓ} : {A : Type ℓ} → Option A → A → A → Type ℓ
Took none old new = new ≡ old
Took (some given) old new = new ≡ given

or_current-Took {ℓ} : {A : Type ℓ} (p : Option A) (old : A) → Took p old (or_current p old)
or_current-Took none old = refl
or_current-Took (some given) old = refl

-- A patch that carries a version is meant for the version before it.
abbrev pub Expects : Option ℕ → ℕ → Type 0
Expects none held = Unit
Expects (some v) held = v ≡ held + 1

version_conflict-Expects :
    (current : Run) (v : Option ℕ) → version_conflict current v ≡ false → Expects v current.version
unfolding version_conflict
version_conflict-Expects current none h = tt
version_conflict-Expects current (some v) h = ground (arith, h)

-- The run after a patch.
pub record IsPatched (current : Run) (p : UpdateRunInput) (now : String) (run : Run) : Type 0 where
  pub id : run.id ≡ current.id
  pub created_at : run.created_at ≡ current.created_at
  pub updated_at : run.updated_at ≡ now
  pub conversation_id : Took p.conversation_id current.conversation_id run.conversation_id
  pub user_message_id : Took p.user_message_id current.user_message_id run.user_message_id
  pub status : Took p.status current.status run.status
  pub phase : Took p.phase current.phase run.phase
  pub route : Took p.route current.route run.route
  pub complexity : Took p.complexity current.complexity run.complexity
  pub budget : Took p.budget current.budget run.budget
  pub cost_estimate : Took p.cost_estimate current.cost_estimate run.cost_estimate
  pub actual_cost : Took p.actual_cost current.actual_cost run.actual_cost
  pub token_estimate : Took p.token_estimate current.token_estimate run.token_estimate
  pub actual_tokens : Took p.actual_tokens current.actual_tokens run.actual_tokens
  pub trace_id : Took p.trace_id current.trace_id run.trace_id
  pub dag_id : Took p.dag_id current.dag_id run.dag_id
  pub attempts : Took p.attempts current.attempts run.attempts
  pub healing_attempts : Took p.healing_attempts current.healing_attempts run.healing_attempts
  pub validation_attempts :
      Took p.validation_attempts current.validation_attempts run.validation_attempts
  pub context_compression_applied :
      Took p.context_compression_applied current.context_compression_applied
        run.context_compression_applied
  pub parent_run_id : Took p.parent_run_id current.parent_run_id run.parent_run_id
  pub last_error : Took p.last_error current.last_error run.last_error
  pub decision_request : Took p.decision_request current.decision_request run.decision_request
  pub version : Took p.version current.version run.version

patched-IsPatched :
    (current : Run) (p : UpdateRunInput) (now : String)
    → IsPatched current p now (patched current p now)
unfolding patched
patched-IsPatched current p now = record {
  id = refl;
  created_at = refl;
  updated_at = refl;
  conversation_id = or_current-Took p.conversation_id current.conversation_id;
  user_message_id = or_current-Took p.user_message_id current.user_message_id;
  status = or_current-Took p.status current.status;
  phase = or_current-Took p.phase current.phase;
  route = or_current-Took p.route current.route;
  complexity = or_current-Took p.complexity current.complexity;
  budget = or_current-Took p.budget current.budget;
  cost_estimate = or_current-Took p.cost_estimate current.cost_estimate;
  actual_cost = or_current-Took p.actual_cost current.actual_cost;
  token_estimate = or_current-Took p.token_estimate current.token_estimate;
  actual_tokens = or_current-Took p.actual_tokens current.actual_tokens;
  trace_id = or_current-Took p.trace_id current.trace_id;
  dag_id = or_current-Took p.dag_id current.dag_id;
  attempts = or_current-Took p.attempts current.attempts;
  healing_attempts = or_current-Took p.healing_attempts current.healing_attempts;
  validation_attempts = or_current-Took p.validation_attempts current.validation_attempts;
  context_compression_applied =
      or_current-Took p.context_compression_applied current.context_compression_applied;
  parent_run_id = or_current-Took p.parent_run_id current.parent_run_id;
  last_error = or_current-Took p.last_error current.last_error;
  decision_request = or_current-Took p.decision_request current.decision_request;
  version = or_current-Took p.version current.version;
}

-- The event as it is stored: the payload without the entries that are `undefined`.
abbrev pub stored : RunEvent → RunEvent
stored event = record event { payload = keep_if (λ e. is_defined e.1) event.payload }

pub parse_event-stored :
    (rt : Runtime) (event : RunEvent) {e : RunEvent}
    → parse_event rt event ≡ some e
    → e ≡ stored event
unfolding parse_event clean_payload
parse_event-stored rt event h = ground arith

module _ (rt : Runtime) (now id : String) (patch : UpdateRunInput) (event : RunEvent) where
  pub record HasCommitted (s : Store) (t : Transition) (s' : Store) : Type 0 where
    pub current : Run
    pub found : lookup id s.runs ≡ some current
    pub expected : Expects patch.version current.version
    pub run : IsPatched current patch now t.run
    pub logged : t.event ≡ stored event
    pub fresh : has event.id s.events ≡ false
    pub runs : s'.runs ≡ insert id t.run s.runs
    pub events : s'.events ≡ insert event.id t.event s.events

  -- A commit that returns has found the run, under a patch with a version at the version just
  -- before it, and an unused event id. In the run that it writes every field is what the patch
  -- gives for it, else what it was; the id and the creation time are kept and the update time is
  -- the time of the commit. The event is written without the entries of its payload that are
  -- undefined. No other entry of the two tables changes.
  pub commit_run_transition-HasCommitted :
      (s : Store) {t : Transition} {s' : Store}
      → commit_run_transition rt now id patch event s ≡ (ok t, s')
      → HasCommitted s t s'
  commit_run_transition-HasCommitted s {t} {s'} h =
      let c = commit_run_transition-IsCommit rt now id patch event s h in
      let same = parse_event-stored rt event c.logged in
      record {
        current = c.current;
        found = c.found;
        expected = version_conflict-Expects c.current patch.version c.same_version;
        run = rw c.written (patched-IsPatched c.current patch now);
        logged = same;
        fresh = ap (λ e. has e.id s.events) (sym same) ∙ c.fresh;
        runs = c.runs;
        events = c.events ∙ ap (λ e. insert e.id t.event s.events) same;
      }
