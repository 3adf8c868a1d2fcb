-- ===== src/Orchestration/Skeptic.antt =====
-- What the skeptic hands on (src/orchestration/skeptic.ts).
use rector.Prelude.{String, Option, List}

pub data FindingSeverity : Type 0 where
  blocker major minor info : FindingSeverity

pub record SkepticFinding : Type 0 where
  pub id : String
  pub severity : FindingSeverity
  pub task_id : Option String
  pub category : String
  pub message : String
  pub evidence : String
  pub recommendation : String

pub data ReviewVerdict : Type 0 where
  sound needs_revision blocked : ReviewVerdict

pub record SkepticReview : Type 0 where
  pub verdict : ReviewVerdict
  pub findings : List SkepticFinding
  pub reviewed_plan_id : Option String
  pub plan_goal : Option String
  pub created_at : String
