-- ===== src/Orchestration/Skills.antt =====
-- The skills that a plan may ask for (src/memory/skillSchema.ts).
use rector.Prelude.{ℕ, Bool, String, Option, none, some, List}

pub data SkillRisk : Type 0 where
  low medium high : SkillRisk

pub record SkillPrerequisites : Type 0 where
  pub commands : Option (List String)
  pub env_vars : Option (List String)
  pub platforms : Option (List String)

pub record SkillMetadata : Type 0 where
  pub tags : Option (List String)
  pub related_skills : Option (List String)
  pub risk : Option SkillRisk

pub record SkillFrontmatter : Type 0 where
  pub name : String
  pub description : String
  pub prerequisites : Option SkillPrerequisites
  pub metadata : Option SkillMetadata

pub record SkillFile : Type 0 where
  pub relative_path : String
  pub size_bytes : ℕ

pub record SkillManifest : Type 0 where
  pub id : String
  pub frontmatter : SkillFrontmatter
  pub skill_path : String
  pub bundled : Bool
  pub files : List SkillFile

pub data ActivationStatus : Type 0 where
  approved denied deferred : ActivationStatus

pub record SkillActivationDecision : Type 0 where
  pub skill_id : String
  pub decision : ActivationStatus
  pub reason : String

abbrev risk_or_low : Option SkillRisk → SkillRisk
risk_or_low none = SkillRisk.low
risk_or_low (some r) = r

abbrev metadata_risk : Option SkillMetadata → SkillRisk
metadata_risk none = SkillRisk.low
metadata_risk (some m) = risk_or_low m.risk

abbrev pub skill_risk_of : SkillManifest → SkillRisk
skill_risk_of manifest = metadata_risk manifest.frontmatter.metadata
