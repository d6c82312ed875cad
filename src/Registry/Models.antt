-- ===== src/Registry/Models.antt =====
-- src/modelguard/registry/models.py: what a registry stores for a version, and a revocation.
use modelguard.Base.{String, ◌<>◌, Bool, false, none, some, strip_prefix, is_sha256_hex}
use modelguard.Manifest.{Manifest}
use modelguard.Mbom.{MlBom}

pub record RevocationRecord : Type 0 where
  pub model_id : String
  pub version : String
  pub revoked_by : String
  pub reason : String
  pub revoked_at : String

-- `pattern=r"^sha256:[0-9a-f]{64}$"`
unfoldable pub is_artifact_digest : String → Bool
unfolding is_sha256_hex
is_artifact_digest s = elim (strip_prefix "sha256:" s) [
  | none ↦ false
  | some hex ↦ is_sha256_hex hex
]

-- A record of the program holds an artifact digest that `is_artifact_digest` accepts.
pub record RegistryRecord : Type 0 where
  pub model_id : String
  pub version : String
  pub artifact_digest : String
  pub manifest : Manifest
  pub mbom : MlBom
  pub registered_by : String
  pub registered_at : String

unfoldable pub uri : RegistryRecord → String
uri r = "model://" <> r.model_id <> "@" <> r.artifact_digest
