-- ===== src/Mbom/Generator.antt =====
-- src/modelguard/mbom/generator.py: a bill of materials for a manifest, and what its fields claim.
use modelguard.Base.{
  String, ◌<>◌, ◌≡◌, refl, Bool, true, false, Option, none, some, List, [], ◌∷◌, All,
}
use modelguard.Base.{truth, or_text, if◌then◌else◌}
use modelguard.Manifest.{Manifest, ArtifactType}
use modelguard.Mbom.{EvidenceLevel, EvidencedField, MlBom}

pub record DeclaredProvenance : Type 0 where
  pub parent_models : List String
  pub dataset_references : List String
  pub training_code_commit : Option String
  pub framework : Option String
  pub license : Option String

unfoldable pub declared_field : String → EvidencedField
declared_field s = record { value = s; evidence = EvidenceLevel.declared }

unfoldable pub declared_fields : List String → List EvidencedField
unfolding declared_field
declared_fields [] = []
declared_fields (s ∷ ss) = declared_field s ∷ declared_fields ss

-- `a or b` at two values that are `None` or texts.
unfoldable pub either : Option String → Option String → Option String
unfolding truth
either a b = if truth a then a else b

-- A field where there is a text that is not empty.
unfoldable pub optional_claim : Option String → Option EvidencedField
unfolding declared_field truth or_text
optional_claim o = if truth o then some (declared_field (or_text o "")) else none

unfoldable pub type_text : ArtifactType → String
type_text ArtifactType.file = "file"
type_text ArtifactType.directory = "directory"

-- The serial number is a fresh identifier, and `now` is read from the clock.
unfoldable pub generate_mbom : Manifest → DeclaredProvenance → String → String → MlBom
unfolding declared_fields either optional_claim type_text or_text
generate_mbom manifest prov uuid now = record {
  bom_format = "CycloneDX";
  spec_version = "1.6";
  schema_version = "1";
  serial_number = "urn:uuid:" <> uuid;
  version = 1;
  metadata = record { timestamp = now; tool_name = "modelguard"; tool_version = "0.9.0" };
  components =
      record {
        kind = "machine-learning-model";
        name = or_text manifest.artifact_name "unnamed-model";
        version = manifest.version;
      }
      ∷ [];
  properties = record {
    artifact_digest = manifest.algorithm <> ":" <> manifest.digest;
    artifact_type = type_text manifest.artifact_type;
    parent_models = declared_fields prov.parent_models;
    dataset_references = declared_fields prov.dataset_references;
    training_code_commit = optional_claim prov.training_code_commit;
    framework = optional_claim (either prov.framework manifest.framework);
    license = optional_claim (either prov.license manifest.license);
    trust_status = "unknown";
  };
}

-- A claim that nothing was verified for.
abbrev pub IsDeclared : EvidencedField → Type 0
IsDeclared f = f.evidence ≡ EvidenceLevel.declared

abbrev pub IsDeclaredIf : Option EvidencedField → Type 0
IsDeclaredIf none = Unit
IsDeclaredIf (some f) = IsDeclared f

declared_fields-IsDeclared : (ss : List String) → All IsDeclared (declared_fields ss)
unfolding declared_fields declared_field
declared_fields-IsDeclared [] = tt
declared_fields-IsDeclared (s ∷ ss) = (refl, declared_fields-IsDeclared ss)

claim_if : (b : Bool) (s : String) → IsDeclaredIf (if b then some (declared_field s) else none)
unfolding declared_field
claim_if true s = refl
claim_if false s = tt

optional_claim-IsDeclaredIf : (o : Option String) → IsDeclaredIf (optional_claim o)
unfolding optional_claim
optional_claim-IsDeclaredIf o = claim_if (truth o) (or_text o "")

-- A generated bill of materials carries the digest of its manifest, and every claim in it is DECLARED.
pub generate_mbom-IsDeclared :
    (manifest : Manifest) (prov : DeclaredProvenance) (uuid now : String)
    → let p = (generate_mbom manifest prov uuid now).properties in
      (p.artifact_digest ≡ manifest.algorithm <> ":" <> manifest.digest)
      × All IsDeclared p.parent_models
      × All IsDeclared p.dataset_references
      × IsDeclaredIf p.training_code_commit
      × IsDeclaredIf p.framework
      × IsDeclaredIf p.license
unfolding generate_mbom
generate_mbom-IsDeclared manifest prov uuid now = (
  refl,
  declared_fields-IsDeclared prov.parent_models,
  declared_fields-IsDeclared prov.dataset_references,
  optional_claim-IsDeclaredIf prov.training_code_commit,
  optional_claim-IsDeclaredIf (either prov.framework manifest.framework),
  optional_claim-IsDeclaredIf (either prov.license manifest.license),
)
