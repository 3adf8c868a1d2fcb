-- ===== src/Orchestration/RunControl/Interrupts.antt =====
-- What the outside calls do to a run that is under way (src/orchestration/runControl.ts).
use rector.Prelude.{
  ℕ, ◌-◌, ◌<◌, subst, true, false, String, Option, none, some, List, [], ◌∷◌, ◌++◌, ◌≡◌, ◌≢◌, refl,
  sym, ap, ◌∙◌, Dict, lookup, insert, lookup-insert, length, length-append, inl, inr, Bool-cases,
  arith, if◌then◌else◌, ◌==◌, ltb, str_eq, eq_refl,
}
use rector.Protocol.Event.{Runtime, RunEvent}
use rector.Protocol.Phase.{is_terminal_run_phase}
use rector.Store.Schemas.{Run}
use rector.Store.Memory.{Store, get_run, append_event}
use rector.Orchestration.RunControl.Held.{
  ControlCall, perform_all, IsStopped, Holds, put-same, put-other, request_interrupt-IsStopped,
  perform_all-Holds,
}
use rector.Orchestration.RunControl.{
  Outside, World, RunControlState, InterruptRunResult, SteerRunResult, register_run_control,
  request_interrupt, interrupt_run, steer_run, steer_active, interrupt_active, put, held_or_new,
  steer_held, interrupt_held, throw_if_run_interrupted, cleaned, shift, enqueue_steer,
  max_steer_queue_size,
}

lookup-inserted {ℓ} :
    {V : Type ℓ} (id : String) (v : V) (m : Dict V) → lookup id (insert id v m) ≡ some v
lookup-inserted id v m =
    lookup-insert id id v m ∙ ap (λ b. if b then some v else lookup id m) (eq_refl id)

append_event-runs :
    (rt : Runtime) (e : RunEvent) (s : Store) → (append_event rt e s).1.runs ≡ s.runs
unfolding append_event
append_event-runs rt e s = ground arith

steer_run-active :
    (o : Outside) (now : ℕ) (id message : String) (w : World) {run : Run}
    → get_run id w.store ≡ some run
    → is_terminal_run_phase run.phase ≡ false
    → steer_run o now id message w ≡ steer_active o now id message run w
unfolding steer_run
steer_run-active o now id message w {run} known active = rw (known, active) refl

length-shift {ℓ} : {A : Type ℓ} (xs : List A) → length (shift xs) ≡ length xs - 1
length-shift [] = omega arith
length-shift (x ∷ xs) = omega arith

enqueue_steer-full :
    (o : Outside) (now : ℕ) (message : String) (state : RunControlState)
    → length state.steer_queue ≡ max_steer_queue_size
    → str_eq (cleaned o message) "" ≡ false
    → (enqueue_steer o now message state).steer_queue
      ≡ shift state.steer_queue ++ cleaned o message ∷ []
enqueue_steer-full o now message state full text = rw (text, full) refl

-- A message for a run under way whose queue is full takes the place of the oldest one; yet the call
-- answers that the message was empty, and no event tells of it.
pub steer_run-full :
    (o : Outside) (now : ℕ) (id message : String) (w : World) {run : Run} {a : ℕ}
    → get_run id w.store ≡ some run
    → is_terminal_run_phase run.phase ≡ false
    → lookup id w.controls ≡ some a
    → length (w.heap a).steer_queue ≡ max_steer_queue_size
    → str_eq (cleaned o message) "" ≡ false
    → ((steer_run o now id message w).0 ≡ SteerRunResult.empty run)
      × (((steer_run o now id message w).1.heap a).steer_queue
          ≡ shift (w.heap a).steer_queue ++ cleaned o message ∷ [])
      × ((steer_run o now id message w).1.store ≡ w.store)
steer_run-full o now id message w {run} {a} known active held full text =
    let registered = register_run_control now id a w in
    let before = registered.heap a in
    let kept : before.steer_queue ≡ (w.heap a).steer_queue =
      ap (λ c. c.steer_queue) (put-same a _ w) in
    let full' : length before.steer_queue ≡ max_steer_queue_size = ap length kept ∙ full in
    let state = enqueue_steer o now message before in
    let pushed : state.steer_queue ≡ shift before.steer_queue ++ cleaned o message ∷ [] =
      enqueue_steer-full o now message before full' text in
    let same : ltb (length before.steer_queue) (length state.steer_queue) ≡ false = ground (
      arith,
      ap length pushed,
      length-append (shift before.steer_queue) (cleaned o message ∷ []),
      length-shift before.steer_queue,
      full',
    ) in
    let plain : steer_held o now id message run (a, w)
        ≡ (SteerRunResult.empty run, put a state registered) =
      rw same refl in
    let whole =
      steer_run-active o now id message w known active
      ∙ ap (λ h. steer_held o now id message run (held_or_new now id w h)) held
      ∙ plain in
    (
      ap (λ r. r.0) whole,
      ap (λ r. (r.1.heap a).steer_queue) whole
          ∙ ap (λ c. c.steer_queue) (put-same a state registered)
          ∙ pushed
          ∙ ap (λ q. shift q ++ cleaned o message ∷ []) kept,
      ap (λ r. r.1.store) whole,
    )

interrupt_run-active :
    (o : Outside) (now : ℕ) (id : String) (reason : Option String) (w : World) {run : Run}
    → get_run id w.store ≡ some run
    → is_terminal_run_phase run.phase ≡ false
    → interrupt_run o now id reason w ≡ interrupt_active o now id reason run w
unfolding interrupt_run
interrupt_run-active o now id reason w {run} known active = rw (known, active) refl

-- The world that an interrupt of a run under way leaves, but for the events.
interrupt_held-leaves :
    (o : Outside) (now : ℕ) (id : String) (reason : Option String) (run : Run) (a : ℕ) (w : World)
    → let registered = register_run_control now id a w in
      let after = (interrupt_held o now id reason run (a, w)).1 in
      (after.heap ≡ (put a (request_interrupt o now reason (registered.heap a)) registered).heap)
      × (after.controls ≡ registered.controls)
      × (after.next ≡ w.next)
      × (after.store.runs ≡ w.store.runs)
interrupt_held-leaves o now id reason run a w =
    elim (Bool-cases ((register_run_control now id a w).heap a).interrupt_requested) [
      | inl before ↦ rw before (refl, refl, refl, refl)
      | inr fresh ↦ rw fresh (refl, refl, refl, append_event-runs o.runtime _ w.store)
    ]

interrupt_held-again :
    (o : Outside) (now : ℕ) (id : String) (reason : Option String) (run : Run) (a : ℕ) (w : World)
    → (w.heap a).interrupt_requested ≡ true
    → ((interrupt_held o now id reason run (a, w)).0 ≡ InterruptRunResult.aborting run)
      × ((interrupt_held o now id reason run (a, w)).1.store ≡ w.store)
interrupt_held-again o now id reason run a w before =
    let still : ((register_run_control now id a w).heap a).interrupt_requested ≡ true =
      ap (λ c. c.interrupt_requested) (put-same a _ w) ∙ before in
    rw still (refl, refl)

get_run-runs : (id : String) (s t : Store) → s.runs ≡ t.runs → get_run id s ≡ get_run id t
unfolding get_run
get_run-runs id s t e = ap (λ runs. lookup id runs) e

stopped-throws : (state : RunControlState) → IsStopped state → throw_if_run_interrupted state ≢ none
stopped-throws state h e = ground (arith, h.0, e)

interrupt_run-held :
    (o : Outside) (now : ℕ) (id : String) (reason : Option String) (w : World) {run : Run}
    (known_at : Option ℕ)
    → get_run id w.store ≡ some run
    → is_terminal_run_phase run.phase ≡ false
    → lookup id w.controls ≡ known_at
    → interrupt_run o now id reason w
      ≡ interrupt_held o now id reason run (held_or_new now id w known_at)
interrupt_run-held o now id reason w {run} known_at known active held =
    interrupt_run-active o now id reason w known active
    ∙ ap (λ h. interrupt_held o now id reason run (held_or_new now id w h)) held

-- An interrupt of a run under way whose control is in the table marks the object that the run's holder
-- has and aborts its controller, with whatever was queued for it kept. From then on the checks of the
-- holder throw, whatever further interrupts and messages of any run, drains, ends of controls and
-- writes to the store come after; and an interrupt that comes next finds the run aborting and appends
-- no event.
pub interrupt_run-stops :
    (o : Outside) (now later : ℕ) (id : String) (reason again : Option String) (w : World)
    (calls : List ControlCall) {run : Run} {a : ℕ}
    → get_run id w.store ≡ some run
    → is_terminal_run_phase run.phase ≡ false
    → lookup id w.controls ≡ some a
    → a < w.next
    → let after = (interrupt_run o now id reason w).1 in
      ((after.heap a).steer_queue ≡ (w.heap a).steer_queue)
      × IsStopped ((perform_all calls after).heap a)
      × (throw_if_run_interrupted ((perform_all calls after).heap a) ≢ none)
      × ((interrupt_run o later id again after).0 ≡ InterruptRunResult.aborting run)
      × ((interrupt_run o later id again after).1.store ≡ after.store)
interrupt_run-stops o now later id reason again w calls {run} {a} known active held exists =
    let registered = register_run_control now id a w in
    let state = request_interrupt o now reason (registered.heap a) in
    let after = (interrupt_run o now id reason w).1 in
    let call = interrupt_run-held o now id reason w (some a) known active held in
    let leaves = interrupt_held-leaves o now id reason run a w in
    let there : after.heap a ≡ state =
      ap (λ r. r.1.heap a) call ∙ ap (λ h. h a) leaves.0 ∙ put-same a state registered in
    let kept : lookup id after.controls ≡ some a =
      ap (λ r. lookup id r.1.controls) call
      ∙ ap (λ c. lookup id c) leaves.1
      ∙ lookup-inserted id a _ in
    let still : get_run id after.store ≡ some run =
      get_run-runs id after.store w.store (ap (λ r. r.1.store.runs) call ∙ leaves.3) ∙ known in
    let second = interrupt_run-held o later id again after (some a) still active kept in
    let flagged : (after.heap a).interrupt_requested ≡ true =
      ap (λ c. c.interrupt_requested) there in
    let quiet = interrupt_held-again o later id again run a after flagged in
    let place : after.next ≡ w.next = ap (λ r. r.1.next) call ∙ leaves.2 in
    let holds : Holds a after = (
      subst (λ n. a < n) (sym place) exists,
      subst IsStopped (sym there) (request_interrupt-IsStopped o now reason (registered.heap a)),
    ) in
    let lasts = perform_all-Holds a calls after holds in
    (
      ap (λ c. c.steer_queue) there ∙ ap (λ c. c.steer_queue) (put-same a _ w),
      lasts.1,
      stopped-throws ((perform_all calls after).heap a) lasts.1,
      ap (λ r. r.0) second ∙ quiet.0,
      ap (λ r. r.1.store) second ∙ quiet.1,
    )

-- An interrupt of a run under way whose control is no longer in the table marks a new control: every
-- object that exists, the one that the run's holder has among them, stays as it was.
pub interrupt_run-evicted :
    (o : Outside) (now : ℕ) (id : String) (reason : Option String) (w : World) {run : Run} {a : ℕ}
    → get_run id w.store ≡ some run
    → is_terminal_run_phase run.phase ≡ false
    → lookup id w.controls ≡ none
    → a < w.next
    → let after = (interrupt_run o now id reason w).1 in
      (after.heap a ≡ w.heap a)
      × (lookup id after.controls ≡ some w.next)
      × ((after.heap w.next).interrupt_requested ≡ true)
interrupt_run-evicted o now id reason w {run} {a} known active gone exists =
    let held = held_or_new now id w none in
    let registered = register_run_control now id held.0 held.1 in
    let state = request_interrupt o now reason (registered.heap held.0) in
    let call = interrupt_run-held o now id reason w none known active gone in
    let leaves = interrupt_held-leaves o now id reason run held.0 held.1 in
    let apart : (a == w.next) ≡ false = ground (arith, exists) in
    (
      ap (λ r. r.1.heap a) call
          ∙ ap (λ h. h a) leaves.0
          ∙ put-other a w.next state registered apart
          ∙ put-other a w.next _ held.1 apart
          ∙ put-other a w.next _ w apart,
      ap (λ r. lookup id r.1.controls) call
          ∙ ap (λ c. lookup id c) leaves.1
          ∙ lookup-inserted id w.next _,
      ap (λ r. (r.1.heap w.next).interrupt_requested) call
          ∙ ap (λ h. (h w.next).interrupt_requested) leaves.0
          ∙ ap (λ c. c.interrupt_requested) (put-same w.next state registered),
    )
