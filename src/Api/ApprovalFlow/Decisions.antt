-- ===== src/Api/ApprovalFlow/Decisions.antt =====
-- What a recorded decision on an operation does to its run (src/api/approvalFlow.ts).
use rector.Prelude.{
  ℕ, ◌+◌, ◌-◌, ◌≤◌, ◌<◌, Bool, true, false, String, Option, none, some, Json, Metadata, Bool-cases,
  Option-cases, inl, inr, ◌≡◌, ◌≢◌, ◌⊎◌, refl, subst, str_eq, eq_iff, if◌then◌else◌, arith, ap,
  leb→le, keep_if, lookup, lookup-insert,
}
use rector.Protocol.Phase.{RunPhase, executing, synthesizing, needs_decision, phase_eq}
use rector.Protocol.Event.{Runtime, is_defined}
use rector.Store.Schemas.{Run}
use rector.Store.Memory.{Store, Transition, get_run}
use rector.Orchestration.RunStateMachine.{
  Redaction, no_options, Attempt, Outcome, committed, rejected, resume_from_decision,
  max_transition_retries, event_payload, set_if, build_run_event,
}
use rector.Orchestration.RunStateMachine.Concurrency.{
  IsVersioned, IsTransition, Ends, run_others, transition_run-Ends,
}
use rector.Api.ApprovalFlow.{
  ApprovalDecision, approve, deny, approved, timeout_denied, recorded_as, ApprovalDecisionRequest,
  ApprovalDecisionRecord, recorded, ApprovalInput, parse_approval_request, is_stale, target_phase,
  json_record, answer_of, resumed, record_of, decide_presented, record_approval_decision,
}

-- Decided within 30 minutes of the presentation; a time that is no date sets no limit.
abbrev pub InTime : Option ℕ → Option ℕ → Type 0
InTime (some presented) (some decided) = decided < presented + 1800000
InTime _ _ = Unit

is_stale-InTime :
    (presented decided : Option ℕ)
    → ((is_stale presented decided ≡ false) × InTime presented decided)
      ⊎ ((is_stale presented decided ≡ true) × (¬ InTime presented decided))
is_stale-InTime none decided = inl (refl, tt)
is_stale-InTime (some p) none = inl (refl, tt)
is_stale-InTime (some p) (some d) = elim (Bool-cases (is_stale (some p) (some d))) [
  | inl stale ↦ inr (stale, λ h. omega (arith, h, leb→le 1800000 (d - p) stale))
  | inr fresh ↦ inl (fresh, ground (arith, fresh))
]

resolved-cases :
    (stale : Bool) (decision : ApprovalDecision)
    → let d = if stale then timeout_denied else recorded_as decision in
      ((d ≡ approved) × (decision ≡ approve) × (stale ≡ false) × (target_phase d ≡ executing))
      ⊎ ((d ≢ approved) × ((decision ≡ deny) ⊎ (stale ≡ true)) × (target_phase d ≡ synthesizing))
resolved-cases true decision = inr (λ h. cc, inr refl, refl)
resolved-cases false approve = inl (refl, refl, refl, refl)
resolved-cases false deny = inr (λ h. cc, inl refl, refl)

module _ (rt : Runtime) (red : Redaction) (parse_date : String → Option ℕ) (env : ℕ → Attempt) where
  -- The payload of the event, which is redacted and stripped of what is undefined, has the record.
  abbrev pub Tells : ApprovalDecisionRecord → Transition → Type 0
  Tells r t =
      (payload : Metadata) × (lookup "decision" payload ≡ some (json_record r))
      × (t.event.payload ≡ keep_if (λ e. is_defined e.1) (red.metadata payload))

  -- The run has moved to the phase, in one transition whose event carries the record.
  abbrev pub HasMoved : RunPhase → ApprovalDecisionRecord → Store → Store → Type 0
  HasMoved target r s s' =
      (t : Transition) × (j : ℕ) × (j ≤ max_transition_retries + 1)
      × IsTransition rt red r.run_id target (record no_options { decision = some (json_record r) })
          (run_others env j 0 s) t s'
      × Tells r t

  -- Approved in time and moved to execution, or not approved and moved to the final answer.
  abbrev pub IsDecided :
      ApprovalInput
      → String
      → ApprovalDecisionRequest
      → ApprovalDecisionRecord
      → Store
      → Store
      → Type 0
  IsDecided input decided_at request r s s' =
      ((r.decision ≡ approved)
        × (input.decision ≡ approve)
        × InTime (parse_date request.presented_at) (parse_date decided_at)
        × HasMoved executing r s s')
      ⊎ ((r.decision ≢ approved)
          × ((input.decision ≡ deny)
              ⊎ (¬ InTime (parse_date request.presented_at) (parse_date decided_at)))
          × HasMoved synthesizing r s s')

  event_payload-decision :
      (from target : RunPhase) (d : Json)
      → lookup "decision" (event_payload from target (record no_options { decision = some d }))
        ≡ some d
  unfolding event_payload set_if
  event_payload-decision from target d = rw (lookup-insert "decision" "decision") refl

  IsTransition-Tells :
      (target : RunPhase) (r : ApprovalDecisionRecord) (s s' : Store) (t : Transition)
      → IsTransition rt red r.run_id target
          (record no_options { decision = some (json_record r) })
          s
          t
          s'
      → Tells r t
  unfolding build_run_event
  IsTransition-Tells target r s s' t is = (
    event_payload is.read.phase target (record no_options { decision = some (json_record r) }),
    event_payload-decision is.read.phase target (json_record r),
    ap (λ e. e.payload) is.logged,
  )

  resumed-HasMoved :
      (r : ApprovalDecisionRecord) (s : Store) (t : Transition)
      → ((m : ℕ) → IsVersioned r.run_id (env m).others)
      → (resumed rt red r env s).0 ≡ committed t
      → HasMoved (target_phase r.decision) r s (resumed rt red r env s).1
  unfolding resume_from_decision
  resumed-HasMoved r s t v e =
      let ends =
        transition_run-Ends rt red r.run_id (target_phase r.decision)
          (record no_options { decision = some (json_record r) }) env s v in
      let moved =
        subst
          (λ o.
            Ends rt red r.run_id (target_phase r.decision)
              (record no_options { decision = some (json_record r) }) env max_transition_retries 0 s
              (o, (resumed rt red r env s).1))
          e ends in
      (
        t,
        moved.0,
        moved.1,
        moved.2,
        IsTransition-Tells (target_phase r.decision) r (run_others env moved.0 0 s)
            (resumed rt red r env s).1 t moved.2,
      )

  answer_of-recorded :
      (r q : ApprovalDecisionRecord) (o : Outcome)
      → answer_of r o ≡ recorded q
      → (t : Transition) × (o ≡ committed t) × (r ≡ q)
  answer_of-recorded r q (committed t) e = (t, refl, cc)
  answer_of-recorded r q (rejected x) e = cc

  made-IsDecided :
      (input : ApprovalInput) (decided_at : String) (request : ApprovalDecisionRequest)
      (s s' : Store)
      → let r = record_of parse_date input decided_at request in
        HasMoved (target_phase r.decision) r s s' → IsDecided input decided_at request r s s'
  made-IsDecided input decided_at request s s' moved =
      let r = record_of parse_date input decided_at request in
      let time = is_stale-InTime (parse_date request.presented_at) (parse_date decided_at) in
      elim (resolved-cases (is_stale (parse_date request.presented_at) (parse_date decided_at))
        input.decision) [
          | inl (yes_approved, asked, fresh, target) ↦ inl (
            yes_approved,
            asked,
            elim time [ inl t ↦ t.1 | inr t ↦ cc (fresh, t.0) ],
            subst (λ p. HasMoved p r s s') target moved,
          )
          | inr (other, why, target) ↦ inr (
            other,
            elim why [
              | inl denies ↦ inl denies
              | inr stale ↦ elim time [ inl t ↦ cc (stale, t.0) | inr t ↦ inr t.1 ]
            ],
            subst (λ p. HasMoved p r s s') target moved,
          )
        ]

  -- Whose decision on what a record is, and of when.
  abbrev pub IsOf : ApprovalInput → String → ApprovalDecisionRecord → Type 0
  IsOf input decided_at r =
      (r.run_id ≡ input.run_id)
      × (r.operation_id ≡ input.operation_id)
      × (r.decided_by ≡ input.decided_by)
      × (r.decided_at ≡ decided_at)

  -- What a record tells: the run waited for the operation, and what was decided.
  abbrev pub IsRecorded : ApprovalInput → String → Store → ApprovalDecisionRecord → Store → Type 0
  IsRecorded input decided_at s r s' =
      (run : Run) × (value : Metadata) × (request : ApprovalDecisionRequest) × (get_run input.run_id
          s
        ≡ some run)
      × (phase_eq run.phase needs_decision ≡ true)
      × (run.decision_request ≡ some value)
      × (parse_approval_request value ≡ some request)
      × (request.operation_id ≡ input.operation_id)
      × IsOf input decided_at r
      × IsDecided input decided_at request r s s'

  decide_presented-IsDecided :
      (input : ApprovalInput) (decided_at : String) (request : ApprovalDecisionRequest) (s : Store)
      {r : ApprovalDecisionRecord}
      → ((m : ℕ) → IsVersioned input.run_id (env m).others)
      → (decide_presented rt red parse_date input decided_at env s (some request)).0 ≡ recorded r
      → (request.operation_id ≡ input.operation_id)
        × IsOf input decided_at r
        × IsDecided input decided_at request r s
            (decide_presented rt red parse_date input decided_at env s (some request)).1
  decide_presented-IsDecided input decided_at request s {r} v e =
      let made = record_of parse_date input decided_at request in
      elim (Bool-cases (str_eq request.operation_id input.operation_id)) [
        | inr other ↦ cc (rw other at e)
        | inl same ↦
            let (t, went, is) =
              answer_of-recorded made r (resumed rt red made env s).0 (rw same at e) in
            (
              (eq_iff request.operation_id input.operation_id).0 same,
              subst (λ q. IsOf input decided_at q) is (refl, refl, refl, refl),
              rw same (
                  subst (λ q. IsDecided input decided_at request q s (resumed rt red made env s).1)
                    is
                    (made-IsDecided input decided_at request s (resumed rt red made env s).1
                      (resumed-HasMoved made s t v went))),
            )
      ]

  -- A recorded decision is one on the operation that the run waited for when it was read, and its
  -- record names the run, the operation, who decided and when. The run has moved to EXECUTING, if the
  -- decision was an approval and came, as far as the times are dates, within 30 minutes of the
  -- presentation, and otherwise to SYNTHESIZING, in one transition; the record stands in the payload
  -- of the transition's event, before redaction. Other writers may act in between, as long as they
  -- change the run's phase only together with its version.
  pub record_approval_decision-IsRecorded :
      (input : ApprovalInput) (decided_at : String) (s : Store) {r : ApprovalDecisionRecord}
      → ((m : ℕ) → IsVersioned input.run_id (env m).others)
      → (record_approval_decision rt red parse_date input decided_at env s).0 ≡ recorded r
      → IsRecorded input decided_at s r
          (record_approval_decision rt red parse_date input decided_at env s).1
  unfolding record_approval_decision
  record_approval_decision-IsRecorded input decided_at s {r} v e =
      elim (Option-cases (get_run input.run_id s)) [
        | inl gone ↦ cc (rw gone at e)
        | inr (run, there) ↦ elim (Bool-cases (phase_eq run.phase needs_decision)) [
          | inr other ↦ cc (rw (there, other) at e)
          | inl waits ↦ elim (Option-cases run.decision_request) [
            | inl no_request ↦ cc (rw (there, waits, no_request) at e)
            | inr (value, asked) ↦ elim (Option-cases (parse_approval_request value)) [
              | inl no_approval ↦ cc (rw (there, waits, asked, no_approval) at e)
              | inr (request, parsed) ↦
                  let facts =
                    decide_presented-IsDecided input decided_at request s v
                      (rw (there, waits, asked, parsed) at e) in
                  (
                    run,
                    value,
                    request,
                    there,
                    waits,
                    asked,
                    parsed,
                    facts.0,
                    facts.1,
                    rw (there, waits, asked, parsed) facts.2,
                  )
            ]
          ]
        ]
      ]
