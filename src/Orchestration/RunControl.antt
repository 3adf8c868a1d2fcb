-- ===== src/Orchestration/RunControl.antt =====
-- Interrupting and steering a run from outside (src/orchestration/runControl.ts). The objects that
-- hold a run's control stand in a heap; the table has their addresses, and so has the code that runs a
-- run. A call reads the clock once and no other call runs in it.
use rector.Prelude.{
  ℕ, ◌+◌, ◌*◌, Bool, true, false, not, ◌&&◌, String, str_append, Option, none, some, List, [], ◌∷◌,
  ◌++◌, Dict, Metadata, Json, Num, lookup, insert, remove, length, trim, if◌then◌else◌, ltb, leb,
  ◌==◌, str_eq,
}
use rector.Protocol.Phase.{RunPhase, is_terminal_run_phase}
use rector.Protocol.Event.{
  Runtime, RunEventType, run_interrupt_requested, run_steer_enqueued, RunEvent,
}
use rector.Store.Schemas.{Run}
use rector.Store.Memory.{StoreError, Result, ok, err, Store, get_run, append_event}
use rector.Orchestration.RunControl.Units.{text_units, slice_units}
pub mod Units
mod Steering
mod Held
mod Tests
mod Interrupts

abbrev default_state_ttl_ms : ℕ
default_state_ttl_ms = 600000

abbrev steer_message_max_length : ℕ
steer_message_max_length = 4000

abbrev pub max_steer_queue_size : ℕ
max_steer_queue_size = 20

abbrev steer_preview_max_length : ℕ
steer_preview_max_length = 180

-- `aborted` is the message that the abort controller was given, if it has been aborted.
pub record RunControlState : Type 0 where
  pub run_id : Option String
  pub interrupt_requested : Bool
  pub interrupt_reason : Option String
  pub steer_queue : List String
  pub aborted : Option String
  pub created_at : ℕ
  pub updated_at : ℕ

-- What a call takes from elsewhere: the redaction of texts and payloads, the schemas' runtime, the id
-- of the next event, and the text of a time.
pub record Outside : Type 0 where
  pub redact : String → String
  pub redact_secrets : Metadata → Metadata
  pub runtime : Runtime
  pub random_uuid : String
  pub iso : ℕ → String

abbrev pub Controls : Type 0
Controls = Dict ℕ

pub record World : Type 0 where
  pub store : Store
  pub controls : Controls
  pub heap : ℕ → RunControlState
  pub next : ℕ

-- A write to an object.
abbrev pub put : ℕ → RunControlState → World → World
put address state w = record w { heap = λ other. if other == address then state else w.heap other }

abbrev pub create_run_control_state : ℕ → Option String → RunControlState
create_run_control_state now run_id = record {
  run_id = run_id;
  interrupt_requested = false;
  interrupt_reason = none;
  steer_queue = [];
  aborted = none;
  created_at = now;
  updated_at = now;
}

abbrev pub touch : ℕ → RunControlState → RunControlState
touch now state = record state { updated_at = now }

unfoldable pub cleanup_run_control_states : ℕ → (ℕ → RunControlState) → Controls → Controls
cleanup_run_control_states now heap [] = []
cleanup_run_control_states now heap ((run_id, address) ∷ entries) =
    let rest = cleanup_run_control_states now heap entries in
    if ltb ((heap address).updated_at + default_state_ttl_ms) now
    then rest
    else (run_id, address) ∷ rest

abbrev pub register_run_control : ℕ → String → ℕ → World → World
register_run_control now run_id address w =
    record (put address (touch now (record (w.heap address) { run_id = some run_id })) w) {
      controls = insert run_id address (cleanup_run_control_states now w.heap w.controls);
    }

abbrev pub get_run_control_state : String → Controls → Option ℕ
get_run_control_state run_id controls = lookup run_id controls

abbrev pub clear_run_control : String → Controls → Controls
clear_run_control run_id controls = remove run_id controls

abbrev some_text : String → Option String
some_text text = if str_eq text "" then none else some text

abbrev pub redact_optional : Outside → Option String → Option String
redact_optional o none = none
redact_optional o (some value) = some_text (trim (o.redact value))

abbrev or_else {ℓ} : {A : Type ℓ} → Option A → Option A → Option A
or_else none later = later
or_else (some a) later = some a

abbrev or_default {ℓ} : {A : Type ℓ} → Option A → A → A
or_default none a = a
or_default (some b) a = b

abbrev abort : RunControlState → RunControlState
abort state = record state {
  aborted = or_else state.aborted (some (or_default state.interrupt_reason "Run interrupted"));
}

abbrev pub request_interrupt : Outside → ℕ → Option String → RunControlState → RunControlState
request_interrupt o now reason state = abort (
    touch now (record state {
      interrupt_requested = true;
      interrupt_reason = or_else (redact_optional o reason) state.interrupt_reason;
    }))

abbrev pub shift {ℓ} : {A : Type ℓ} → List A → List A
shift [] = []
shift (x ∷ xs) = xs

abbrev pub first {ℓ} : {A : Type ℓ} → List A → Option A
first [] = none
first (x ∷ xs) = some x

abbrev pub cleaned : Outside → String → String
cleaned o message = slice_units steer_message_max_length (trim (o.redact message))

abbrev pub enqueue_steer : Outside → ℕ → String → RunControlState → RunControlState
enqueue_steer o now message state =
    let text = cleaned o message in
    if str_eq text ""
    then state
    else touch now (record state {
      steer_queue =
          (if leb max_steer_queue_size (length state.steer_queue)
            then shift state.steer_queue
            else state.steer_queue)
          ++ text ∷ [];
    })

abbrev pub drain_steer : ℕ → RunControlState → Option String × RunControlState
drain_steer now state =
    (first state.steer_queue, touch now (record state { steer_queue = shift state.steer_queue }))

abbrev pub create_abort_signal : RunControlState → RunControlState
create_abort_signal state = if state.interrupt_requested then abort state else state

abbrev is_aborted : Option String → Bool
is_aborted none = false
is_aborted (some message) = true

-- The message of the error that is thrown, if one is.
abbrev pub throw_if_run_interrupted : RunControlState → Option String
throw_if_run_interrupted state =
    if not state.interrupt_requested && not (is_aborted state.aborted)
    then none
    else some (or_default state.interrupt_reason "Run interrupted")

abbrev pub run_event : Outside → Run → RunEventType → RunPhase → Metadata → ℕ → RunEvent
run_event o run type phase payload now = record {
  id = str_append "evt-" o.random_uuid;
  run_id = run.id;
  type = type;
  phase = phase;
  payload = o.redact_secrets payload;
  trace_id = some run.trace_id;
  redaction_state = none;
  created_at = o.iso now;
}

abbrev json_text : Option String → Json
json_text none = Json.undefined
json_text (some s) = Json.str s

abbrev preview : Outside → String → String
preview o value =
    let redacted = o.redact value in
    if leb (text_units redacted) steer_preview_max_length
    then redacted
    else str_append (slice_units steer_preview_max_length redacted) "..."

pub data InterruptRunResult : Type 0 where
  aborting : Run → InterruptRunResult
  already_terminal : Run → InterruptRunResult
  not_found : InterruptRunResult
  rejected : StoreError → InterruptRunResult

pub data SteerRunResult : Type 0 where
  queued : Run → SteerRunResult
  already_terminal : Run → SteerRunResult
  empty : Run → SteerRunResult
  not_found : SteerRunResult
  rejected : StoreError → SteerRunResult

abbrev answered {ℓ} : {R : Type ℓ} → R → (StoreError → R) → Result RunEvent → R
answered answer failed (ok event) = answer
answered answer failed (err error) = failed error

-- `await store.appendEvent(event)`, and then the answer.
abbrev pub announce {ℓ} :
    {R : Type ℓ} → Outside → RunEvent → R → (StoreError → R) → World → R × World
announce o event answer failed w =
    let call = append_event o.runtime event w.store in
    (answered answer failed call.0, record w { store = call.1 })

abbrev pub held_or_new : ℕ → String → World → Option ℕ → ℕ × World
held_or_new now run_id w (some address) = (address, w)
held_or_new now run_id w none = (
  w.next,
  record (put w.next (create_run_control_state now (some run_id)) w) { next = w.next + 1 },
)

-- The address of a run's control, which is a new object if the table has none.
abbrev pub control_of : ℕ → String → World → ℕ × World
control_of now run_id w = held_or_new now run_id w (get_run_control_state run_id w.controls)

abbrev pub interrupt_held :
    Outside → ℕ → String → Option String → Run → ℕ × World → InterruptRunResult × World
interrupt_held o now run_id reason run held =
    let registered = register_run_control now run_id held.0 held.1 in
    let before = registered.heap held.0 in
    let state = request_interrupt o now reason before in
    let after = put held.0 state registered in
    if before.interrupt_requested
    then (InterruptRunResult.aborting run, after)
    else announce o
        (run_event o run run_interrupt_requested run.phase
          (("reason", json_text state.interrupt_reason)
            ∷ ("requestedAt", Json.str (o.iso now))
            ∷ [])
          now)
        (InterruptRunResult.aborting run) InterruptRunResult.rejected after

abbrev pub interrupt_active :
    Outside → ℕ → String → Option String → Run → World → InterruptRunResult × World
interrupt_active o now run_id reason run w =
    interrupt_held o now run_id reason run (control_of now run_id w)

abbrev pub interrupt_found :
    Outside → ℕ → String → Option String → World → Option Run → InterruptRunResult × World
interrupt_found o now run_id reason w none = (InterruptRunResult.not_found, w)
interrupt_found o now run_id reason w (some run) =
    if is_terminal_run_phase run.phase
    then (InterruptRunResult.already_terminal run, w)
    else interrupt_active o now run_id reason run w

unfoldable pub interrupt_run :
    Outside → ℕ → String → Option String → World → InterruptRunResult × World
interrupt_run o now run_id reason w = interrupt_found o now run_id reason w (get_run run_id w.store)

abbrev pub steer_held : Outside → ℕ → String → String → Run → ℕ × World → SteerRunResult × World
steer_held o now run_id message run held =
    let registered = register_run_control now run_id held.0 held.1 in
    let before = registered.heap held.0 in
    let state = enqueue_steer o now message before in
    let after = put held.0 state registered in
    if ltb (length before.steer_queue) (length state.steer_queue)
    then announce o
        (run_event o run run_steer_enqueued run.phase
          (("messagePreview", Json.str (preview o (cleaned o message)))
            ∷ ("queuedAt", Json.str (o.iso now))
            ∷ [])
          now)
        (SteerRunResult.queued run) SteerRunResult.rejected after
    else (SteerRunResult.empty run, after)

abbrev pub steer_active : Outside → ℕ → String → String → Run → World → SteerRunResult × World
steer_active o now run_id message run w =
    steer_held o now run_id message run (control_of now run_id w)

abbrev pub steer_found : Outside → ℕ → String → String → World → Option Run → SteerRunResult × World
steer_found o now run_id message w none = (SteerRunResult.not_found, w)
steer_found o now run_id message w (some run) =
    if is_terminal_run_phase run.phase
    then (SteerRunResult.already_terminal run, w)
    else steer_active o now run_id message run w

unfoldable pub steer_run : Outside → ℕ → String → String → World → SteerRunResult × World
steer_run o now run_id message w = steer_found o now run_id message w (get_run run_id w.store)

abbrev pub run_control_payload : RunControlState → Metadata
run_control_payload state =
    ("interruptRequested", Json.bool state.interrupt_requested)
    ∷ ("interruptReason", json_text state.interrupt_reason)
    ∷ ("steerQueueLength", Json.num (Num.fin (1000000 * length state.steer_queue)))
    ∷ []
