-- ===== src/Sdk/Registration.antt =====
-- `ModelGuard.register` of src/modelguard/sdk.py, into the local registry.
use mathlib.Core.Path.{subst}
use modelguard.Base.{String, ◌<>◌, ◌≡◌, sym, ap, ◌∙◌, ◌&&◌, true, Option, some, arith}
use modelguard.Base.{TextMethods, ◌==◌, truth, or_text, if◌then◌else◌}
use modelguard.Base.Result.{
  Result, ok, ◌>>=◌, ◌>>◌, require, require-holds, bind_elim, ok-injective,
}
use modelguard.Exceptions.{Exception, registration_incomplete, foreign}
use modelguard.Manifest.{Manifest}
use modelguard.Mbom.{MlBom}
use modelguard.Registry.Models.{RegistryRecord, is_artifact_digest}
use modelguard.Registry.Local.{key_eq, LocalRegistry, register, get}
use modelguard.Registry.Local.Records.{registered, register-get, key_of}

-- The fields of the record.
abbrev record_of : Manifest → MlBom → String → String → RegistryRecord
record_of manifest mbom actor now = record {
  model_id = or_text manifest.model_id "";
  version = or_text manifest.version "";
  artifact_digest = manifest.algorithm <> ":" <> manifest.digest;
  manifest = manifest;
  mbom = mbom;
  registered_by = actor;
  registered_at = now;
}

-- The record of a manifest that names a model and a version. `RegistryRecord` refuses an artifact
-- digest that its pattern does not match.
unfoldable pub registry_record :
    Manifest → MlBom → String → String → Result Exception RegistryRecord
unfolding truth or_text is_artifact_digest
registry_record manifest mbom actor now = do
  require (truth manifest.model_id && truth manifest.version) registration_incomplete
  require (is_artifact_digest (manifest.algorithm <> ":" <> manifest.digest))
      (foreign "ValidationError")
  ok (record_of manifest mbom actor now)

abbrev found : RegistryRecord → Result Exception (Option RegistryRecord)
found r = ok (some r)

fields_of :
    (manifest : Manifest) (mbom : MlBom) (actor now : String) (r : RegistryRecord)
    → registry_record manifest mbom actor now ≡ ok r
    → (r.manifest ≡ manifest)
      × (r.mbom ≡ mbom)
      × (r.artifact_digest ≡ manifest.algorithm <> ":" <> manifest.digest)
      × (is_artifact_digest r.artifact_digest ≡ true)
unfolding registry_record
fields_of manifest mbom actor now r h =
    let formed : Result Exception RegistryRecord =
      require (is_artifact_digest (manifest.algorithm <> ":" <> manifest.digest))
        (foreign "ValidationError")
      >> ok (record_of manifest mbom actor now) in
    let (_, h1) =
      require-holds (truth manifest.model_id && truth manifest.version) registration_incomplete
        formed r h in
    let (of_form, h2) =
      require-holds (is_artifact_digest (manifest.algorithm <> ":" <> manifest.digest))
        (foreign "ValidationError") (ok (record_of manifest mbom actor now)) r h1 in
    let e = sym (ok-injective h2) in
    let by_digest = ap (λ x. x.artifact_digest) e in
    (
      ap (λ x. x.manifest) e,
      ap (λ x. x.mbom) e,
      by_digest,
      subst (λ s. is_artifact_digest s ≡ true) (sym by_digest) of_form,
    )

at_own_key :
    (r : RegistryRecord) (other : Result Exception (Option RegistryRecord))
    → (if (r.model_id, r.version) == key_of r then ok (some r) else other) ≡ found r
at_own_key r other = ground arith

module _ (py : TextMethods) where
  unfoldable pub register_model :
      LocalRegistry
      → Manifest
      → MlBom
      → String
      → String
      → Result Exception (RegistryRecord × LocalRegistry)
  unfolding registry_record
  register_model registry manifest mbom actor now = do
    r ← registry_record manifest mbom actor now
    register py registry r

  pub register_model-get :
      (registry : LocalRegistry) (manifest : Manifest) (mbom : MlBom) (actor now : String)
      (r : RegistryRecord) (after : LocalRegistry)
      → register_model registry manifest mbom actor now ≡ ok (r, after)
      → (get py after r.model_id r.version ≡ ok (some r))
        × (r.manifest ≡ manifest)
        × (r.mbom ≡ mbom)
        × (r.artifact_digest ≡ manifest.algorithm <> ":" <> manifest.digest)
        × (is_artifact_digest r.artifact_digest ≡ true)
  unfolding register_model
  register_model-get registry manifest mbom actor now r after h =
      bind_elim (registry_record manifest mbom actor now) _ h λ q made h1.
        let (safe_m, safe_v, _, same) = registered py registry q (r, after) h1 in
        let (from_manifest, with_mbom, by_digest, of_form) =
          fields_of manifest mbom actor now q made in
        let is_q : q ≡ r = sym (ap (λ x. x.0) same) in
        subst (IsRecordOf after) is_q (
          register-get py registry q (r, after) h1 q.model_id q.version safe_m safe_v
              ∙ at_own_key q (get py registry q.model_id q.version),
          from_manifest,
          with_mbom,
          by_digest,
          of_form,
        )
    where
      IsRecordOf : LocalRegistry → RegistryRecord → Type 0
      IsRecordOf after r =
          (get py after r.model_id r.version ≡ ok (some r))
          × (r.manifest ≡ manifest)
          × (r.mbom ≡ mbom)
          × (r.artifact_digest ≡ manifest.algorithm <> ":" <> manifest.digest)
          × (is_artifact_digest r.artifact_digest ≡ true)
