-- ===== src/Manifest/Builder.antt =====
-- src/modelguard/manifest/builder.py: a manifest from a digest and what a caller declares.
use modelguard.Base.{String, Option, some, List, [], ◌∷◌}
use modelguard.Base.{◌==◌, string_eq, or_text, if◌then◌else◌}
use modelguard.Base.Result.{Result, ok, err, require, ◌>>=◌, ◌>>◌}
use modelguard.Exceptions.{Exception, validation_error}
use modelguard.Hashing.{FileDigest, ArtifactDigest}
use modelguard.Manifest.{Manifest, ManifestFileEntry, ArtifactType}

pub record DeclaredMetadata : Type 0 where
  pub model_id : Option String
  pub artifact_name : Option String
  pub version : Option String
  pub format : Option String
  pub framework : Option String
  pub license : Option String
  pub creator : Option String
  pub source_location : Option String

unfoldable pub file_entries : List FileDigest → List ManifestFileEntry
file_entries [] = []
file_entries (f ∷ fs) = record { path = f.path; sha256 = f.sha256; size = f.size } ∷ file_entries fs

-- The type of the manifest, which the schema restricts to two texts.
unfoldable pub manifest_type : String → Result Exception ArtifactType
manifest_type s =
    if s == "file"
    then ok ArtifactType.file
    else if s == "directory"
    then ok ArtifactType.directory
    else err validation_error

abbrev entries_for : ArtifactType → List ManifestFileEntry → List ManifestFileEntry
entries_for ArtifactType.file entries = []
entries_for ArtifactType.directory entries = entries

-- `build_manifest` of a path with this last name, once its digest is known.
unfoldable pub build_manifest :
    String → ArtifactDigest → DeclaredMetadata → Result Exception Manifest
unfolding manifest_type file_entries or_text
build_manifest name digest meta = do
  require (digest.algorithm == "sha256") validation_error
  artifact_type ← manifest_type digest.artifact_type
  ok (record {
    schema_version = "1";
    artifact_type = artifact_type;
    algorithm = digest.algorithm;
    digest = digest.digest;
    model_id = meta.model_id;
    artifact_name = some (or_text meta.artifact_name name);
    version = meta.version;
    format = meta.format;
    framework = meta.framework;
    license = meta.license;
    creator = meta.creator;
    source_location = meta.source_location;
    files = entries_for artifact_type (file_entries digest.files);
  })
