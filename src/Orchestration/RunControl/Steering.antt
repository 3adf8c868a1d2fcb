-- ===== src/Orchestration/RunControl/Steering.antt =====
-- The queue of steering messages against a log with a reader (src/orchestration/runControl.ts).
use rector.Prelude.{
  ℕ, zero, suc, ◌+◌, ◌-◌, ◌≤◌, max, String, Option, none, some, List, [], ◌∷◌, ◌++◌, ◌≡◌, refl, sym,
  ap, ◌∙◌, inl, inr, length, length-append, Bool-cases, List-cases, arith, leb→le, if◌then◌else◌,
  leb, str_eq,
}
use rector.Orchestration.RunControl.{
  Outside, RunControlState, create_run_control_state, cleaned, shift, first, enqueue_steer,
  drain_steer, max_steer_queue_size,
}

-- Calls by the holder of a control: a message at a time, or a request for the next message at a time.
pub data SteerCall : Type 0 where
  enqueue : ℕ → String → SteerCall
  drain : ℕ → SteerCall

unfoldable pub deliver : Outside → List SteerCall → RunControlState → List (Option String)
deliver o [] state = []
deliver o (enqueue now message ∷ calls) state = deliver o calls (enqueue_steer o now message state)
deliver o (drain now ∷ calls) state =
    let next = drain_steer now state in next.0 ∷ deliver o calls next.1

-- Every message ever accepted, in order, and how many of them the reader is past.
pub record Log : Type 0 where
  pub messages : List String
  pub past : ℕ

unfoldable pub drop {ℓ} : {A : Type ℓ} → ℕ → List A → List A
drop zero xs = xs
drop (suc n) [] = []
drop (suc n) (x ∷ xs) = drop n xs

-- A new message goes to the end, and the reader skips what is more than twenty messages back.
abbrev pub log_enqueue : String → Log → Log
log_enqueue text log = if str_eq text "" then log else record {
  messages = log.messages ++ text ∷ [];
  past = max log.past (suc (length log.messages) - max_steer_queue_size);
}

abbrev pub read_next : Log → List String → Option String × Log
read_next log [] = (none, log)
read_next log (x ∷ rest) = (some x, record log { past = suc log.past })

abbrev pub log_drain : Log → Option String × Log
log_drain log = read_next log (drop log.past log.messages)

unfoldable pub log_deliver : Outside → List SteerCall → Log → List (Option String)
log_deliver o [] log = []
log_deliver o (enqueue now message ∷ calls) log =
    log_deliver o calls (log_enqueue (cleaned o message) log)
log_deliver o (drain now ∷ calls) log =
    let next = log_drain log in next.0 ∷ log_deliver o calls next.1

-- The queue is what the log holds beyond the reader, at most twenty messages.
record IsView (steer_queue : List String) (log : Log) : Type 0 where
  shown : steer_queue ≡ drop log.past log.messages
  reached : log.past ≤ length log.messages
  bounded : length log.messages ≤ log.past + max_steer_queue_size

drop-nil : [] ≡ drop {A = String} 0 []
unfolding drop
drop-nil = refl

module _ {ℓ} {A : Type ℓ} where
  length-drop : (n : ℕ) (xs : List A) → length (drop n xs) ≡ length xs - n
  unfolding drop
  length-drop zero xs = omega arith
  length-drop (suc n) [] = omega arith
  length-drop (suc n) (x ∷ xs) = omega (arith, length-drop n xs)

  drop-snoc :
      (n : ℕ) (xs : List A) (x : A) → n ≤ length xs → drop n (xs ++ x ∷ []) ≡ drop n xs ++ x ∷ []
  unfolding drop
  drop-snoc zero xs x h = refl
  drop-snoc (suc n) [] x h = absurd (omega arith)
  drop-snoc (suc n) (y ∷ xs) x h = drop-snoc n xs x (omega arith)

  drop-suc : (n : ℕ) (xs : List A) → drop (suc n) xs ≡ shift (drop n xs)
  unfolding drop
  drop-suc zero [] = refl
  drop-suc zero (x ∷ xs) = refl
  drop-suc (suc n) [] = refl
  drop-suc (suc n) (x ∷ xs) = drop-suc n xs

length-shown :
    (steer_queue : List String) (log : Log)
    → IsView steer_queue log
    → length steer_queue ≡ length log.messages - log.past
length-shown steer_queue log v = ap length v.shown ∙ length-drop log.past log.messages

push-IsView :
    (steer_queue : List String) (log : Log) (text : String)
    → IsView steer_queue log
    → IsView
        ((if leb max_steer_queue_size (length steer_queue) then shift steer_queue else steer_queue)
          ++ text ∷ [])
        (record {
          messages = log.messages ++ text ∷ [];
          past = max log.past (suc (length log.messages) - max_steer_queue_size);
        })
push-IsView steer_queue log text v =
    let count = length-shown steer_queue log v in
    let grown = length-append log.messages (text ∷ []) in
    elim (Bool-cases (leb max_steer_queue_size (length steer_queue))) [
      | inl full ↦
          let skip : max log.past (suc (length log.messages) - max_steer_queue_size)
              ≡ suc log.past =
            omega
              (arith, leb→le max_steer_queue_size (length steer_queue) full, count, v.bounded) in
          let room : suc log.past ≤ length log.messages =
            omega (arith, leb→le max_steer_queue_size (length steer_queue) full, count) in
          rw (full, skip)
            (record {
              shown =
                  ap (λ q. q ++ text ∷ []) (ap shift v.shown ∙ sym (drop-suc log.past log.messages))
                  ∙ sym (drop-snoc (suc log.past) log.messages text room);
              reached = omega (arith, room, grown);
              bounded = omega (arith, grown, v.bounded);
            })
      | inr other ↦
          let stay : max log.past (suc (length log.messages) - max_steer_queue_size) ≡ log.past =
            ground (arith, other, count, v.reached) in
          rw (other, stay)
            (record {
              shown =
                  ap (λ q. q ++ text ∷ []) v.shown
                  ∙ sym (drop-snoc log.past log.messages text v.reached);
              reached = omega (arith, grown, v.reached);
              bounded = ground (arith, grown, other, count, v.reached);
            })
    ]

enqueue-IsView :
    (o : Outside) (now : ℕ) (message : String) (state : RunControlState) (log : Log)
    → IsView state.steer_queue log
    → IsView (enqueue_steer o now message state).steer_queue (log_enqueue (cleaned o message) log)
enqueue-IsView o now message state log v = elim (Bool-cases (str_eq (cleaned o message) "")) [
  | inl nothing ↦ rw nothing v
  | inr text ↦ rw text (push-IsView state.steer_queue log (cleaned o message) v)
]

drain-IsView :
    (steer_queue : List String) (log : Log)
    → IsView steer_queue log
    → (first steer_queue ≡ (log_drain log).0) × IsView (shift steer_queue) (log_drain log).1
drain-IsView steer_queue log v = elim (List-cases (drop log.past log.messages)) [
  | inl nothing ↦
      let none_left : steer_queue ≡ [] = v.shown ∙ nothing in
      rw (none_left, nothing) (refl, rw none_left at v)
  | inr (x, rest, next) ↦
      let front : steer_queue ≡ x ∷ rest = v.shown ∙ next in
      let left : rest ≡ drop (suc log.past) log.messages =
        ap shift (sym next) ∙ sym (drop-suc log.past log.messages) in
      let more : suc (length rest) ≡ length log.messages - log.past =
        ap length (sym front) ∙ length-shown steer_queue log v in
      rw (front, next)
        (
          refl,
          record {
            shown = left;
            reached = omega (arith, more);
            bounded = omega (arith, v.bounded);
          },
        )
]

deliver-from :
    (o : Outside) (calls : List SteerCall) (state : RunControlState) (log : Log)
    → IsView state.steer_queue log
    → deliver o calls state ≡ log_deliver o calls log
unfolding deliver log_deliver
deliver-from o [] state log v = refl
deliver-from o (enqueue now message ∷ calls) state log v =
    deliver-from o calls (enqueue_steer o now message state) (log_enqueue (cleaned o message) log)
      (enqueue-IsView o now message state log v)
deliver-from o (drain now ∷ calls) state log v =
    let step = drain-IsView state.steer_queue log v in
    let rest = deliver-from o calls (drain_steer now state).1 (log_drain log).1 step.1 in
    λ i. step.0 i ∷ rest i

-- Whatever messages and requests come, the holder of a new control is handed exactly what a reader of
-- the log of all accepted messages is handed, where the reader goes on from its place, and skips what
-- is more than twenty messages back when a message arrives.
pub deliver-log_deliver :
    (o : Outside) (now : ℕ) (run_id : Option String) (calls : List SteerCall)
    → deliver o calls (create_run_control_state now run_id)
      ≡ log_deliver o calls (record { messages = []; past = 0 })
deliver-log_deliver o now run_id calls =
    deliver-from o calls (create_run_control_state now run_id) (record { messages = []; past = 0 })
      (record { shown = drop-nil; reached = omega arith; bounded = omega arith })
