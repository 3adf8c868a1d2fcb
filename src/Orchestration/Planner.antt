-- ===== src/Orchestration/Planner.antt =====
-- The plan that the planner hands on (src/orchestration/planner.ts).
use rector.Prelude.{Bool, String, Option, List}

pub data PlannerRiskLevel : Type 0 where
  low medium high destructive : PlannerRiskLevel

pub record PlannerDependency : Type 0 where
  pub from : String
  pub to : String
  pub reason : Option String

pub record PlannerTask : Type 0 where
  pub id : String
  pub title : String
  pub description : String
  pub dependencies : List String
  pub expected_artifacts : List String
  pub validation : List String
  pub risk : PlannerRiskLevel
  pub approval_required : Bool

pub data ApprovalGateType : Type 0 where
  approval checkpoint clarification : ApprovalGateType

pub record ApprovalGate : Type 0 where
  pub id : String
  pub type : ApprovalGateType
  pub reason : String
  pub required : Bool
  pub task_ids : List String

pub record PlannerValidation : Type 0 where
  pub summary : String
  pub checks : List String

pub record PlannerOutput : Type 0 where
  pub goal : String
  pub assumptions : List String
  pub tasks : List PlannerTask
  pub dependencies : List PlannerDependency
  pub validation : PlannerValidation
  pub risk_level : PlannerRiskLevel
  pub approval_gates : List ApprovalGate
  pub requested_skills : List String
