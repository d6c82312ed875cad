-- ===== src/Tests/Samples.antt =====
-- Data that several runs share: a stand-in for SHA-256, a manifest and an ML-BOM.
use modelguard.Base.{String, some, none, []}
use modelguard.Base.Bytes.{Bytes}
use modelguard.Manifest.{Manifest, file}
use modelguard.Mbom.{MlBom}

abbrev pub digest_zero : Bytes → String
digest_zero bytes = "0000000000000000000000000000000000000000000000000000000000000000"

abbrev pub manifest : Manifest
manifest = record {
  schema_version = "1";
  artifact_type = file;
  algorithm = "sha256";
  digest = "aa";
  model_id = some "demo";
  artifact_name = none;
  version = some "1";
  format = none;
  framework = none;
  license = none;
  creator = none;
  source_location = none;
  files = [];
}

abbrev pub mbom : MlBom
mbom = record {
  bom_format = "CycloneDX";
  spec_version = "1.6";
  schema_version = "1";
  serial_number = "urn:uuid:0";
  version = 1;
  metadata = record { timestamp = "now"; tool_name = "modelguard"; tool_version = "0.9.0" };
  components = [];
  properties = record {
    artifact_digest = "sha256:aa";
    artifact_type = "file";
    parent_models = [];
    dataset_references = [];
    training_code_commit = none;
    framework = none;
    license = none;
    trust_status = "UNSIGNED";
  };
}
