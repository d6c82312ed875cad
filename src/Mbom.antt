-- ===== src/Mbom.antt =====
-- src/modelguard/mbom/models.py: the bill of materials that is bound to an artifact. The block that
-- the source calls `modelguard` is the field `properties` here.
pub mod Canonical
pub mod Generator
use modelguard.Base.{ℕ, String, Option, List}

pub data EvidenceLevel : Type 0 where
  declared signed verified independently_tested human_approved : EvidenceLevel

pub record EvidencedField : Type 0 where
  pub value : String
  pub evidence : EvidenceLevel

pub record MlBomProperties : Type 0 where
  pub artifact_digest : String
  pub artifact_type : String
  pub parent_models : List EvidencedField
  pub dataset_references : List EvidencedField
  pub training_code_commit : Option EvidencedField
  pub framework : Option EvidencedField
  pub license : Option EvidencedField
  pub trust_status : String

pub record MlBomMetadata : Type 0 where
  pub timestamp : String
  pub tool_name : String
  pub tool_version : String

pub record MlBomComponent : Type 0 where
  pub kind : String
  pub name : String
  pub version : Option String

pub record MlBom : Type 0 where
  pub bom_format : String
  pub spec_version : String
  pub schema_version : String
  pub serial_number : String
  pub version : ℕ
  pub metadata : MlBomMetadata
  pub components : List MlBomComponent
  pub properties : MlBomProperties
