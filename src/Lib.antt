-- ===== src/Lib.antt =====
-- Models and proofs of the core of Rector, an orchestrator of agent runs. A chat message starts a run,
-- which moves through phases; each move is one atomic commit of the run store, and its event goes into
-- the store's log. In planning a plan is made of tasks; the skeptic reviews it, the crucible decides on
-- it, and the DAG compiler puts the tasks of an accepted plan in order. A run under way can be steered
-- and interrupted from outside, and an operation that needs a decision waits for one. Calls of model
-- providers pass the budget of the run, the quotas of the workspace and, when they fail, the retries of
-- the failover. The API in front counts requests and asks for permissions.
--
-- Prelude: lists, maps in insertion order, JSON values and Boolean tests that the models share.
-- Protocol: run phases and events (src/protocol/phases.ts, src/protocol/events.ts).
-- Protocol/Dag: a DAG, its validation and the depth-first search for a cycle (src/protocol/dag.ts). The
--   search has the number of nodes and one as fuel; a node is not visited below itself, so it is enough.
-- Store: the tables of runs and events of the in-memory store, one function for each method, and
--   sequences of its calls (src/store/inMemoryRectorStore.ts, src/store/schemas.ts). A call that throws
--   returns an error and the store it leaves behind.
-- Store/Conversations: the table of conversations, with the check of a parent and the walk of a lineage
--   (src/store/inMemoryRectorStore.ts, src/store/lineage.ts). Both walks end at the depth of 10.
-- Orchestration/RunStateMachine: transitionRun with its retry loop, and what it builds
--   (src/orchestration/runStateMachine.ts). Other writers act as lists of store calls between the read
--   and the commit of each attempt. The loop runs on the retries left, at most maxTransitionRetries = 3.
-- Orchestration/Planner, Orchestration/DagCompiler: the plan, and compileAcceptedPlanToDag with the order
--   of the tasks, the nodes and edges made of them and validateCompiledDag (src/orchestration/planner.ts,
--   src/orchestration/dagCompiler.ts). The fuel of the loop that orders is the number of tasks; every
--   round takes at least one, so it is enough.
-- Orchestration/Skeptic, Orchestration/Skills, Orchestration/Crucible: the review, the skills and
--   arbitratePlanWithCrucible with evaluateSkillActivations (src/orchestration/skeptic.ts,
--   src/memory/skillSchema.ts, src/orchestration/crucible.ts). The catalog of skills is a function.
-- Orchestration/RunControl: interruptRun, steerRun and the control that they change
--   (src/orchestration/runControl.ts), over the store above. The objects stand in a heap, which the
--   table of controls and the code that runs a run share. Of the specification of the queue, a log with
--   a reader, nothing is in the source.
-- Orchestration/TurnBudget: IterationBudget (src/orchestration/turnBudget.ts).
-- Providers: callWithResilience, CredentialPool and TurnRetryState (src/providers/failover.ts,
--   src/providers/credentialPool.ts, src/providers/turnRetryState.ts). The provider's answers, the
--   budget preflight with its errors, the abort signal and the clock are arguments. Providers/DiscoveryCache: the cache
--   of discovered models (src/providers/discovery/cache.ts).
-- Security/Budget, Security/Approvals: the two halves of src/security/budget.ts. The registry of
--   approvals is a step relation: a promise that waits is a waiter with its timer, and a timer fires in
--   a step of its own.
-- Security/RateLimiter: InMemoryRateLimiter and the store of the middleware
--   (src/security/rateLimiter.ts). Security/Quotas: the in-memory quota service
--   (src/security/quotas.ts). Security/Rbac: roles and permissions (src/security/rbac.ts).
-- Api/ApprovalFlow: presentApprovalRequest and recordApprovalDecision (src/api/approvalFlow.ts), over
--   the run state machine.
-- Modules/Registry: the registry of modules and the handlers that a hook runs
--   (src/modules/registry.ts, src/modules/manifest.ts).
--
-- Conventions. A JavaScript number of unknown sign and range is a value of Num, in millionths; amounts
-- that the code has normalized are natural numbers. A Map is a list of pairs in insertion order. A
-- message is a constructor that carries what the text shows. Objects are copied where the source copies
-- them. Texts are compared by code points, and toLowerCase changes the letters A to Z only. Redaction,
-- the clock and identifiers are arguments.
--
-- Not modelled: the HTTP server and the page, databases and files, the providers' network access, the
-- prompts and the reading of the models' answers, sandboxes, telemetry and deployment, since they are
-- input and output or text; healing, the older task pipeline, and the tables of the store for messages,
-- artifacts and memory.
pub mod Prelude
pub mod Protocol
pub mod Store
pub mod Orchestration
pub mod Security
pub mod Providers
pub mod Modules
pub mod Api
