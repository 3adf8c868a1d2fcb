-- ===== src/Security/Approvals.antt =====
-- `BudgetApprovalRegistry` of src/security/budget.ts. The registry is the state; a promise that
-- `waitForDecision` returns is a waiter's number, and what it resolves to is a settlement. Ids, times
-- and the order in which timers fire come from outside.
pub mod Finality
mod Tests
use rector.Prelude.{
  ℕ, Bool, true, false, not, ◌&&◌, ◌||◌, ◌==◌, String, Option, none, some, List, [], ◌∷◌, ◌++◌,
  Dict, lookup, insert, remove, has, keep_if, map, str_eq, ◌≡◌,
}
use rector.Security.Budget.{Reason, NormalizedUsage}

pub data ApprovalDecision : Type 0 where
  approved denied : ApprovalDecision

pub data ApprovalStatus : Type 0 where
  pending : ApprovalStatus
  decided : ApprovalDecision → ApprovalStatus

-- What a waiting promise resolves to.
pub data WaitResult : Type 0 where
  decision : ApprovalDecision → WaitResult
  timeout : WaitResult

pub record BudgetApprovalRequest : Type 0 where
  pub id : String
  pub run_id : String
  pub reasons : List Reason
  pub usage : NormalizedUsage
  pub status : ApprovalStatus
  pub decided_by : Option String
  pub decided_at : Option String
  pub created_at : String

pub record Settlement : Type 0 where
  pub waiter : ℕ
  pub approval : String
  pub result : WaitResult

pub record Timer : Type 0 where
  pub waiter : ℕ
  pub approval : String

-- The two maps of the class, the timers that run, and the promises that are resolved.
pub record Registry : Type 0 where
  pub approvals : Dict BudgetApprovalRequest
  pub resolvers : Dict (List ℕ)
  pub timers : List Timer
  pub settled : List Settlement

abbrev pub no_approvals : Registry
no_approvals = record { approvals = []; resolvers = []; timers = []; settled = [] }

pub create_approval : String → String → List Reason → NormalizedUsage → String → Registry → Registry
create_approval id run_id reasons usage now reg =
    let request : BudgetApprovalRequest = record {
      id = id;
      run_id = run_id;
      reasons = reasons;
      usage = usage;
      status = pending;
      decided_by = none;
      decided_at = none;
      created_at = now;
    } in
    record reg { approvals = insert id request reg.approvals }

pub settle : String → WaitResult → ℕ → Settlement
settle id result waiter = record { waiter = waiter; approval = id; result = result }

waits_for : List ℕ → Timer → Bool
waits_for [] t = false
waits_for (w ∷ ws) t = t.waiter == w || waits_for ws t

-- The loop over the waiting resolvers: each clears its timer and resolves its promise.
resolve_all : String → ApprovalDecision → Option (List ℕ) → Registry → Registry
resolve_all id d none reg = reg
resolve_all id d (some waiters) reg = record reg {
  resolvers = remove id reg.resolvers;
  timers = keep_if (λ t. not (waits_for waiters t)) reg.timers;
  settled = reg.settled ++ map (settle id (decision d)) waiters;
}

or_unknown : Option String → String
or_unknown none = "unknown"
or_unknown (some by) = by

decide_request :
    ApprovalStatus
    → String
    → ApprovalDecision
    → Option String
    → String
    → BudgetApprovalRequest
    → Registry
    → Option BudgetApprovalRequest × Registry
unfolding resolve_all
decide_request (decided d') id d by now request reg = (some request, reg)
decide_request pending id d by now request reg =
    let request' = record request {
      status = decided d;
      decided_by = some (or_unknown by);
      decided_at = some now;
    } in
    let reg' = record reg { approvals = insert id request' reg.approvals } in
    (some request', resolve_all id d (lookup id reg.resolvers) reg')

pub record_decision :
    String
    → ApprovalDecision
    → Option String
    → String
    → Registry
    → Option BudgetApprovalRequest × Registry
unfolding decide_request
record_decision id d by now reg = elim (lookup id reg.approvals) [
  | none ↦ (none, reg)
  | some request ↦ decide_request request.status id d by now request reg
]

pub get_approval : String → Registry → Option BudgetApprovalRequest
get_approval id reg = lookup id reg.approvals

is_pending : ApprovalStatus → Bool
is_pending pending = true
is_pending (decided _) = false

pub list_pending_approvals : Registry → List BudgetApprovalRequest
unfolding is_pending
list_pending_approvals reg = keep_if (λ r. is_pending r.status) (map (λ e. e.1) reg.approvals)

waiters_of : Option (List ℕ) → List ℕ
waiters_of none = []
waiters_of (some ws) = ws

settle_now : ℕ → String → WaitResult → Registry → Registry
unfolding settle
settle_now w id result reg = record reg { settled = reg.settled ++ settle id result w ∷ [] }

wait_on : ApprovalStatus → ℕ → String → Registry → Registry
unfolding settle_now waiters_of
wait_on (decided d) w id reg = settle_now w id (decision d) reg
wait_on pending w id reg = record reg {
  resolvers = insert id (waiters_of (lookup id reg.resolvers) ++ w ∷ []) reg.resolvers;
  timers = record { waiter = w; approval = id } ∷ reg.timers;
}

pub wait_for_decision : ℕ → String → Registry → Registry
unfolding wait_on
wait_for_decision w id reg = elim (lookup id reg.approvals) [
  | none ↦ settle_now w id timeout reg
  | some request ↦ wait_on request.status w id reg
]

drop_waiter : ℕ → Option (List ℕ) → String → Dict (List ℕ) → Dict (List ℕ)
drop_waiter w none id resolvers = resolvers
drop_waiter w (some ws) id resolvers = elim (keep_if (λ v. not (v == w)) ws) [
  | [] ↦ remove id resolvers
  | v ∷ vs ↦ insert id (v ∷ vs) resolvers
]

expire :
    String
    → Option BudgetApprovalRequest
    → String
    → Dict BudgetApprovalRequest
    → Dict BudgetApprovalRequest
expire id none now approvals = approvals
expire id (some request) now approvals = elim request.status [
  | pending ↦
      insert id
        (record request {
          status = decided denied;
          decided_by = some "timeout";
          decided_at = some now;
        })
        approvals
  | decided d ↦ approvals
]

-- The timer's callback for a waiter.
pub fire_timer : ℕ → String → String → Registry → Registry
unfolding drop_waiter expire settle
fire_timer w id now reg = record {
  approvals = expire id (lookup id reg.approvals) now reg.approvals;
  resolvers = drop_waiter w (lookup id reg.resolvers) id reg.resolvers;
  timers = keep_if (λ t. not (t.waiter == w)) reg.timers;
  settled = reg.settled ++ settle id timeout w ∷ [];
}

-- What may happen to the registry next.
pub data RegistryEvent : Type 0 where
  create : String → String → List Reason → NormalizedUsage → String → RegistryEvent
  decide : String → ApprovalDecision → Option String → String → RegistryEvent
  wait : ℕ → String → RegistryEvent
  fire : ℕ → String → String → RegistryEvent

pub step : RegistryEvent → Registry → Registry
unfolding create_approval record_decision wait_for_decision fire_timer
step (create id run_id reasons usage now) reg = create_approval id run_id reasons usage now reg
step (decide id d by now) reg = (record_decision id d by now reg).1
step (wait w id) reg = wait_for_decision w id reg
step (fire w id now) reg = fire_timer w id now reg

has_timer : ℕ → String → List Timer → Bool
has_timer w id [] = false
has_timer w id (t ∷ ts) = (t.waiter == w && str_eq t.approval id) || has_timer w id ts

-- A new request has an id of its own, and only a timer that runs can fire.
pub is_possible : RegistryEvent → Registry → Bool
unfolding has_timer
is_possible (create id _ _ _ _) reg = not (has id reg.approvals)
is_possible (fire w id now) reg = has_timer w id reg.timers
is_possible _ reg = true

-- The registries that arise.
pub data Reachable : Registry → Type 0 where
  begin : Reachable no_approvals
  happen :
      {reg : Registry}
      → Reachable reg
      → (e : RegistryEvent) → is_possible e reg ≡ true
      → Reachable (step e reg)
