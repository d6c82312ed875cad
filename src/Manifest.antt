-- ===== src/Manifest.antt =====
-- src/modelguard/manifest/models.py: the canonical, signable description of one artifact.
pub mod Builder
use modelguard.Base.{ℕ, String, Option, List}

pub data ArtifactType : Type 0 where
  file directory : ArtifactType

pub record ManifestFileEntry : Type 0 where
  pub path : String
  pub sha256 : String
  pub size : ℕ

pub record Manifest : Type 0 where
  pub schema_version : String
  pub artifact_type : ArtifactType
  pub algorithm : String
  pub digest : String
  pub model_id : Option String
  pub artifact_name : Option String
  pub version : Option String
  pub format : Option String
  pub framework : Option String
  pub license : Option String
  pub creator : Option String
  pub source_location : Option String
  pub files : List ManifestFileEntry
