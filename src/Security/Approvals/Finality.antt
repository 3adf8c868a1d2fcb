-- ===== src/Security/Approvals/Finality.antt =====
-- A decision on a budget request is final, and a waiting run is told of an approval only if the
-- request stands approved.
use mathlib.Core.List.{append-nil}
use rector.Prelude.{
  ℕ, true, false, String, Option, none, some, List, [], ◌∷◌, ◌++◌, Dict, lookup, insert, has, map,
  ◌≡◌, refl, subst, inl, inr, arith, Option-cases, Bool-cases, All, lookup-insert, lookup-has,
  All-append, All-imp, eq_refl, sym, ◌∙◌, eq_iff, str_eq,
}
use rector.Security.Approvals.{
  ApprovalDecision, ApprovalStatus, pending, decided, WaitResult, decision, timeout,
  BudgetApprovalRequest, Settlement, Registry, create_approval, settle, resolve_all, decide_request,
  record_decision, wait_on, wait_for_decision, settle_now, expire, fire_timer, RegistryEvent,
  create, decide, wait, fire, step, is_possible, Reachable, begin, happen,
}

abbrev pub status_in : Option BudgetApprovalRequest → Option ApprovalStatus
status_in none = none
status_in (some r) = some r.status

-- The status of a request, if there is one under the id.
abbrev pub status_of : String → Registry → Option ApprovalStatus
status_of id reg = status_in (lookup id reg.approvals)

-- A write over a pending request, or under a new id, touches no decided request.
write_pending :
    (j id : String) (old new : BudgetApprovalRequest) (m : Dict BudgetApprovalRequest)
    {d : ApprovalDecision}
    → lookup j m ≡ some old
    → old.status ≡ pending
    → status_in (lookup id m) ≡ some (decided d)
    → status_in (lookup id (insert j new m)) ≡ some (decided d)
write_pending j id old new m found p h = elim (Bool-cases (str_eq j id)) [
  | inl same ↦
      let e : lookup id m ≡ some old =
        subst (λ i. lookup i m ≡ some old) ((eq_iff j id).0 same) found in
      cc (rw e at h, p)
  | inr other ↦ rw (lookup-insert j id new m, other) h
]

write_new :
    (j id : String) (new : BudgetApprovalRequest) (m : Dict BudgetApprovalRequest)
    {d : ApprovalDecision}
    → has j m ≡ false
    → status_in (lookup id m) ≡ some (decided d)
    → status_in (lookup id (insert j new m)) ≡ some (decided d)
write_new j id new m fresh h = elim (Bool-cases (str_eq j id)) [
  | inl same ↦
      let e : lookup id m ≡ none =
        subst (λ i. lookup i m ≡ none) ((eq_iff j id).0 same) (lookup-has j m fresh) in
      cc (rw e at h)
  | inr other ↦ rw (lookup-insert j id new m, other) h
]

approvals-resolve_all :
    (id : String) (d : ApprovalDecision) (o : Option (List ℕ)) (reg : Registry)
    → (resolve_all id d o reg).approvals ≡ reg.approvals
unfolding resolve_all
approvals-resolve_all id d none reg = refl
approvals-resolve_all id d (some ws) reg = refl

final-decide_request :
    (st : ApprovalStatus) (j id : String) (d' : ApprovalDecision) (by : Option String)
    (now : String) (request : BudgetApprovalRequest) (reg : Registry) {d : ApprovalDecision}
    → lookup j reg.approvals ≡ some request
    → request.status ≡ st
    → status_of id reg ≡ some (decided d)
    → status_of id (decide_request st j d' by now request reg).1 ≡ some (decided d)
unfolding decide_request
final-decide_request (decided x) j id d' by now request reg found p h = h
final-decide_request pending j id d' by now request reg found p h =
    rw approvals-resolve_all (write_pending j id request _ reg.approvals found p h)

final-decide :
    (j id : String) (d' : ApprovalDecision) (by : Option String) (now : String) (reg : Registry)
    {d : ApprovalDecision}
    → status_of id reg ≡ some (decided d)
    → status_of id (record_decision j d' by now reg).1 ≡ some (decided d)
unfolding record_decision
final-decide j id d' by now reg h = elim (Option-cases (lookup j reg.approvals)) [
  | inl missing ↦ rw (missing, record_decision) h
  | inr (request, found) ↦
      rw (found, record_decision)
        (final-decide_request request.status j id d' by now request reg found refl h)
]

approvals-wait_on :
    (st : ApprovalStatus) (w : ℕ) (j : String) (reg : Registry)
    → (wait_on st w j reg).approvals ≡ reg.approvals
unfolding wait_on settle_now
approvals-wait_on pending w j reg = refl
approvals-wait_on (decided d) w j reg = refl

approvals-wait :
    (w : ℕ) (j : String) (reg : Registry) → (wait_for_decision w j reg).approvals ≡ reg.approvals
unfolding wait_for_decision settle_now
approvals-wait w j reg = elim (Option-cases (lookup j reg.approvals)) [
  | inl missing ↦ rw (missing, wait_for_decision)
  | inr (request, found) ↦ rw (found, wait_for_decision) (approvals-wait_on request.status w j reg)
]

final-expire :
    (j id : String) (request : BudgetApprovalRequest) (now : String)
    (m : Dict BudgetApprovalRequest) {d : ApprovalDecision}
    → lookup j m ≡ some request
    → status_in (lookup id m) ≡ some (decided d)
    → status_in (lookup id (expire j (some request) now m)) ≡ some (decided d)
unfolding expire
final-expire j id request now m {d} found h = by_status request.status refl
  where
    by_status :
        (st : ApprovalStatus)
        → request.status ≡ st
        → status_in (lookup id (expire j (some request) now m)) ≡ some (decided d)
    by_status pending p = rw (p, expire) (write_pending j id request _ m found p h)
    by_status (decided x) p = rw (p, expire) h

-- Once decided, by an operator or by a timeout, a request keeps its decision, whatever happens next.
pub step-final :
    (reg : Registry) (e : RegistryEvent) (id : String) {d : ApprovalDecision}
    → is_possible e reg ≡ true
    → status_of id reg ≡ some (decided d)
    → status_of id (step e reg) ≡ some (decided d)
unfolding step is_possible fire_timer create_approval
step-final reg (create j run_id reasons usage now) id p h =
    write_new j id _ reg.approvals (ground arith) h
step-final reg (decide j d' by now) id p h = final-decide j id d' by now reg h
step-final reg (wait w j) id p h = rw (approvals-wait w j reg) h
step-final reg (fire w j now) id p h = elim (Option-cases (lookup j reg.approvals)) [
  | inl missing ↦ rw (missing, expire) h
  | inr (request, found) ↦ rw found (final-expire j id request now reg.approvals found h)
]

-- What a settlement has told a waiter is still so.
abbrev pub Holds : Registry → WaitResult → String → Type 0
Holds reg (decision d) id = status_of id reg ≡ some (decided d)
Holds reg timeout id = Unit

abbrev pub Told : Registry → Settlement → Type 0
Told reg e = Holds reg e.result e.approval

Told-step :
    (reg : Registry) (e : RegistryEvent)
    → is_possible e reg ≡ true
    → (s : Settlement) → Told reg s
    → Told (step e reg) s
Told-step reg e p s h = holds s.result h
  where
    holds : (r : WaitResult) → Holds reg r s.approval → Holds (step e reg) r s.approval
    holds (decision d) k = step-final reg e s.approval p k
    holds timeout k = tt

Told-settled :
    (reg : Registry) (id : String) (d : ApprovalDecision) (ws : List ℕ)
    → status_of id reg ≡ some (decided d)
    → All (Told reg) (map (settle id (decision d)) ws)
unfolding settle
Told-settled reg id d [] h = tt
Told-settled reg id d (w ∷ ws) h = (h, Told-settled reg id d ws h)

-- The settlements that a step adds to those before it.
abbrev Adds : Registry → Registry → Type 0
Adds reg reg' = (new : List Settlement) × (reg'.settled ≡ reg.settled ++ new) × All (Told reg') new

Adds-nothing : (reg reg' : Registry) → reg'.settled ≡ reg.settled → Adds reg reg'
Adds-nothing reg reg' h = ([], h ∙ sym (append-nil reg.settled), tt)

resolve_all-Adds :
    (id : String) (d : ApprovalDecision) (o : Option (List ℕ)) (reg : Registry)
    → status_of id reg ≡ some (decided d)
    → Adds reg (resolve_all id d o reg)
unfolding resolve_all
resolve_all-Adds id d none reg h = Adds-nothing reg reg refl
resolve_all-Adds id d (some ws) reg h =
    (map (settle id (decision d)) ws, refl, Told-settled (resolve_all id d (some ws) reg) id d ws h)

decide_request-Adds :
    (st : ApprovalStatus) (id : String) (d : ApprovalDecision) (by : Option String) (now : String)
    (request : BudgetApprovalRequest) (reg : Registry)
    → Adds reg (decide_request st id d by now request reg).1
unfolding decide_request
decide_request-Adds (decided x) id d by now request reg = Adds-nothing reg reg refl
decide_request-Adds pending id d by now request reg =
    resolve_all-Adds id d (lookup id reg.resolvers) _
      (rw (lookup-insert id id _ reg.approvals, eq_refl))

wait_on-Adds :
    (w : ℕ) (id : String) (request : BudgetApprovalRequest) (reg : Registry)
    → lookup id reg.approvals ≡ some request
    → (st : ApprovalStatus) → request.status ≡ st
    → Adds reg (wait_on st w id reg)
unfolding wait_on settle_now settle
wait_on-Adds w id request reg found pending p = Adds-nothing reg (wait_on pending w id reg) refl
wait_on-Adds w id request reg found (decided d) p =
    (settle id (decision d) w ∷ [], refl, (rw (found, p), tt))

step-Adds : (reg : Registry) (e : RegistryEvent) → Adds reg (step e reg)
unfolding step create_approval record_decision wait_for_decision fire_timer settle_now settle
step-Adds reg (create id run_id reasons usage now) =
    Adds-nothing reg (create_approval id run_id reasons usage now reg) refl
step-Adds reg (decide id d by now) = elim (Option-cases (lookup id reg.approvals)) [
  | inl missing ↦ rw (missing, step, record_decision) (Adds-nothing reg reg refl)
  | inr (request, found) ↦
      rw (found, step, record_decision) (decide_request-Adds request.status id d by now request reg)
]
step-Adds reg (wait w id) = elim (Option-cases (lookup id reg.approvals)) [
  | inl missing ↦ rw (missing, step, wait_for_decision) (settle id timeout w ∷ [], refl, (tt, tt))
  | inr (request, found) ↦
      rw (found, step, wait_for_decision) (wait_on-Adds w id request reg found request.status refl)
]
step-Adds reg (fire w id now) = (settle id timeout w ∷ [], refl, (tt, tt))

-- In every registry that arises, a waiter that was told of a decision was told the one that the
-- request has now: no run goes on as approved on a request that is denied or timed out.
pub Reachable-Told : {reg : Registry} → Reachable reg → All (Told reg) reg.settled
Reachable-Told begin = tt
Reachable-Told (happen {reg} r e p) =
    let (new, same, told) = step-Adds reg e in
    rw same (
      All-append (Told (step e reg)) reg.settled new
        (All-imp reg.settled (Told-step reg e p) (Reachable-Told r)) told)
