-- ===== src/Orchestration/RunControl/Held.antt =====
-- The object that holds a run's control, under the calls that are made from outside and by others
-- (src/orchestration/runControl.ts).
use rector.Prelude.{
  ℕ, ◌<◌, true, false, String, Option, none, some, List, [], ◌∷◌, ◌≡◌, ◌≢◌, refl, sym, ap, subst,
  Bool-cases, inl, inr, arith, if◌then◌else◌, ltb, length, ◌==◌, lookup,
}
use rector.Store.Schemas.{Run}
use rector.Store.Memory.{Store, get_run}
use rector.Protocol.Phase.{is_terminal_run_phase}
use rector.Orchestration.RunControl.{
  Outside, World, RunControlState, put, held_or_new, control_of, register_run_control,
  request_interrupt, interrupt_run, interrupt_held, interrupt_found, steer_run, steer_held,
  steer_found, enqueue_steer, drain_steer, clear_run_control, create_run_control_state,
}

pub put-same : (a : ℕ) (state : RunControlState) (w : World) → (put a state w).heap a ≡ state
put-same a state w = ground arith

pub put-other :
    (a b : ℕ) (state : RunControlState) (w : World)
    → (a == b) ≡ false
    → (put b state w).heap a ≡ w.heap a
put-other a b state w h = rw h refl

-- The calls of others: interrupts and messages of any run, the holder taking a message, the end of a
-- run's control, and any writes to the store.
pub data ControlCall : Type 0 where
  interrupt : Outside → ℕ → String → Option String → ControlCall
  steer : Outside → ℕ → String → String → ControlCall
  drain : ℕ → ℕ → ControlCall
  clear : String → ControlCall
  write : (Store → Store) → ControlCall

unfoldable pub perform : ControlCall → World → World
perform (interrupt o now run_id reason) w = (interrupt_run o now run_id reason w).1
perform (steer o now run_id message) w = (steer_run o now run_id message w).1
perform (drain now address) w = put address (drain_steer now (w.heap address)).1 w
perform (clear run_id) w = record w { controls = clear_run_control run_id w.controls }
perform (write change) w = record w { store = change w.store }

unfoldable pub perform_all : List ControlCall → World → World
perform_all [] w = w
perform_all (c ∷ cs) w = perform_all cs (perform c w)

-- An object that is marked and whose controller is aborted.
abbrev pub IsStopped : RunControlState → Type 0
IsStopped state = (state.interrupt_requested ≡ true) × (state.aborted ≢ none)

pub request_interrupt-IsStopped :
    (o : Outside) (now : ℕ) (reason : Option String) (state : RunControlState)
    → IsStopped (request_interrupt o now reason state)
request_interrupt-IsStopped o now reason state = (refl, λ h. ground (arith, h))

enqueue_steer-IsStopped :
    (o : Outside) (now : ℕ) (message : String) (state : RunControlState)
    → IsStopped state
    → IsStopped (enqueue_steer o now message state)
enqueue_steer-IsStopped o now message state h = (ground (arith, h.0), λ e. h.1 (ground (arith, e)))

module _ (a : ℕ) where
  -- An object that exists and is stopped.
  abbrev pub Holds : World → Type 0
  Holds w = (a < w.next) × IsStopped (w.heap a)

  put-Holds :
      (b : ℕ) (state : RunControlState) (w : World)
      → (b ≡ a → IsStopped state)
      → Holds w
      → Holds (put b state w)
  put-Holds b state w f h = elim (Bool-cases (a == b)) [
    | inl same ↦
        let e : b ≡ a = ground (arith, same) in
        (h.0, subst IsStopped (sym (ap (λ t. if t then state else w.heap a) same)) (f e))
    | inr other ↦ (h.0, subst IsStopped (sym (put-other a b state w other)) h.1)
  ]

  register_run_control-Holds :
      (now : ℕ) (id : String) (b : ℕ) (w : World)
      → Holds w
      → Holds (register_run_control now id b w)
  register_run_control-Holds now id b w h =
      put-Holds b _ w (λ e. subst (λ c. IsStopped (w.heap c)) (sym e) h.1) h

  held_or_new-Holds :
      (now : ℕ) (id : String) (w : World) (o : Option ℕ)
      → Holds w
      → Holds (held_or_new now id w o).1
  held_or_new-Holds now id w (some b) h = h
  held_or_new-Holds now id w none h =
      let placed =
        put-Holds w.next (create_run_control_state now (some id)) w
          (λ e. absurd (omega (arith, h.0, e))) h in
      (omega (arith, h.0), placed.1)

  interrupt_held-Holds :
      (o : Outside) (now : ℕ) (id : String) (reason : Option String) (run : Run) (b : ℕ) (w : World)
      → Holds w
      → Holds (interrupt_held o now id reason run (b, w)).1
  interrupt_held-Holds o now id reason run b w h =
      let registered = register_run_control now id b w in
      let placed =
        put-Holds b (request_interrupt o now reason (registered.heap b)) registered
          (λ e. request_interrupt-IsStopped o now reason (registered.heap b))
          (register_run_control-Holds now id b w h) in
      elim (Bool-cases (registered.heap b).interrupt_requested) [
        | inl before ↦ rw before placed
        | inr fresh ↦ rw fresh placed
      ]

  steer_held-Holds :
      (o : Outside) (now : ℕ) (id message : String) (run : Run) (b : ℕ) (w : World)
      → Holds w
      → Holds (steer_held o now id message run (b, w)).1
  steer_held-Holds o now id message run b w h =
      let registered = register_run_control now id b w in
      let before = registered.heap b in
      let state = enqueue_steer o now message before in
      let held = register_run_control-Holds now id b w h in
      let placed =
        put-Holds b state registered
          (λ e.
            enqueue_steer-IsStopped o now message before
              (subst (λ c. IsStopped (registered.heap c)) (sym e) held.1))
          held in
      elim (Bool-cases (ltb (length before.steer_queue) (length state.steer_queue))) [
        | inl grew ↦ rw grew placed
        | inr full ↦ rw full placed
      ]

  interrupt_found-Holds :
      (o : Outside) (now : ℕ) (id : String) (reason : Option String) (w : World) (r : Option Run)
      → Holds w
      → Holds (interrupt_found o now id reason w r).1
  interrupt_found-Holds o now id reason w none h = h
  interrupt_found-Holds o now id reason w (some run) h =
      let held = control_of now id w in
      elim (Bool-cases (is_terminal_run_phase run.phase)) [
        | inl over ↦ rw over h
        | inr active ↦ rw active (
            interrupt_held-Holds o now id reason run held.0 held.1
              (held_or_new-Holds now id w (lookup id w.controls) h))
      ]

  steer_found-Holds :
      (o : Outside) (now : ℕ) (id message : String) (w : World) (r : Option Run)
      → Holds w
      → Holds (steer_found o now id message w r).1
  steer_found-Holds o now id message w none h = h
  steer_found-Holds o now id message w (some run) h =
      let held = control_of now id w in
      elim (Bool-cases (is_terminal_run_phase run.phase)) [
        | inl over ↦ rw over h
        | inr active ↦ rw active (
            steer_held-Holds o now id message run held.0 held.1
              (held_or_new-Holds now id w (lookup id w.controls) h))
      ]

  perform-Holds : (c : ControlCall) (w : World) → Holds w → Holds (perform c w)
  unfolding perform interrupt_run steer_run
  perform-Holds (interrupt o now id reason) w h =
      interrupt_found-Holds o now id reason w (get_run id w.store) h
  perform-Holds (steer o now id message) w h =
      steer_found-Holds o now id message w (get_run id w.store) h
  perform-Holds (drain now b) w h =
      put-Holds b _ w (λ e. subst (λ c. IsStopped (w.heap c)) (sym e) h.1) h
  perform-Holds (clear id) w h = h
  perform-Holds (write change) w h = h

  pub perform_all-Holds : (cs : List ControlCall) (w : World) → Holds w → Holds (perform_all cs w)
  unfolding perform_all
  perform_all-Holds [] w h = h
  perform_all-Holds (c ∷ cs) w h = perform_all-Holds cs (perform c w) (perform-Holds c w h)
