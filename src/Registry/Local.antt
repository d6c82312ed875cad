-- ===== src/Registry/Local.antt =====
-- src/modelguard/registry/local.py: the registry below a root directory. `records` is the directory
-- of record files by model and version, `digest_index` and `revocation_log` are the two files.
pub mod Records
pub mod Replay
pub mod Revocations
use modelguard.Base.{
  ℕ, String, TextMethods, Bool, true, false, not, Option, none, some, List, [], ◌∷◌, ◌++◌, select,
}
use modelguard.Base.{Eq, ◌==◌, string_eq, string_discrete, text_le, if◌then◌else◌}
use modelguard.Base.Bytes.{Bytes}
use modelguard.Base.Dict
use modelguard.Base.Dict.{Dict}
use modelguard.Base.Json.{Json, text, object, Members, end, member}
use modelguard.Base.Result.{Result, ok, err, ◌>>=◌, ◌>>◌, require}
use modelguard.Base.Sorting.{sorted}
use modelguard.Exceptions.{Exception, duplicate_registration, key_error, validation_error}
use modelguard.JsonRecord.{get_member, is_text, text_member}
use modelguard.Audit.Chain.{ChainEntry, LogFile, Disk, append_on, read_all_entries}
use modelguard.Registry.Identifiers.{validate_identifier}
use modelguard.Registry.Models.{RegistryRecord, RevocationRecord}

-- The place of a record file: the model's directory and the version's file.
abbrev pub Key : Type 0
Key = String × String

Key-discrete : Discrete Key
Key-discrete = hlevel string_discrete

instance unfoldable pub key_eq : Eq Key
unfolding Key-discrete
key_eq = record { dec = Key-discrete }

pub record LocalRegistry : Type 0 where
  pub records : Dict Key RegistryRecord
  pub digest_index : Dict String Key
  pub revocation_log : LogFile

abbrev pub empty_registry : LocalRegistry
empty_registry = record { records = []; digest_index = []; revocation_log = none }

-- `if record.artifact_digest not in index: index[...] = ...`
unfoldable pub index_first : Dict String Key → String → Key → Dict String Key
index_first index digest key = if Dict.has index digest then index else Dict.set index digest key

-- `{"action": "revoke", **record.model_dump()}`
unfoldable pub revoke_json : RevocationRecord → Json
revoke_json r = object (
    member "action" (text "revoke") (
      member "model_id" (text r.model_id) (
        member "version" (text r.version) (
          member "revoked_by" (text r.revoked_by)
            (member "reason" (text r.reason) (member "revoked_at" (text r.revoked_at) end))))))

unfoldable pub unrevoke_json : String → String → String → String → Json
unrevoke_json model_id version actor reason = object (
    member "action" (text "unrevoke") (
      member "model_id" (text model_id) (
        member "version" (text version)
          (member "revoked_by" (text actor) (member "reason" (text reason) end)))))

unfoldable pub revocation_of : Json → Result Exception RevocationRecord
revocation_of r = do
  model_id ← text_member r "model_id"
  version ← text_member r "version"
  revoked_by ← text_member r "revoked_by"
  reason ← text_member r "reason"
  revoked_at ← text_member r "revoked_at"
  ok (record {
    model_id = model_id;
    version = version;
    revoked_by = revoked_by;
    reason = reason;
    revoked_at = revoked_at;
  })

-- The rest of the body of the loop of `is_revoked`, for an entry about this model and version.
unfoldable pub apply_action :
    Json → Option RevocationRecord → Result Exception (Option RevocationRecord)
apply_action r latest = do
  action ← get_member r "action"
  let revoked = do revocation ← revocation_of r; ok (some revocation)
  if is_text action "revoke"
      then revoked
      else if is_text action "unrevoke"
      then ok none
      else ok latest

unfoldable pub replay_entry :
    String → String → Json → Option RevocationRecord → Result Exception (Option RevocationRecord)
replay_entry model_id version r latest = do
  named ← get_member r "model_id"
  if not (is_text named model_id) then ok latest else do
    versioned ← get_member r "version"
    if not (is_text versioned version) then ok latest else apply_action r latest

-- The loop of `is_revoked`.
unfoldable pub replay :
    String
    → String
    → List ChainEntry
    → Option RevocationRecord
    → Result Exception (Option RevocationRecord)
replay model_id version [] latest = ok latest
replay model_id version (entry ∷ entries) latest = do
  next ← replay_entry model_id version entry.entry_record latest
  replay model_id version entries next

module _ (py : TextMethods) where
  -- `_version_path`
  unfoldable pub version_path : String → String → Result Exception Key
  version_path model_id version = do
    directory ← validate_identifier py model_id "identifier"
    file ← validate_identifier py version "identifier"
    ok (directory, file)

  -- The returned record with the registry after the call; an exception leaves the registry as it was.
  unfoldable pub register :
      LocalRegistry → RegistryRecord → Result Exception (RegistryRecord × LocalRegistry)
  register registry r = do
    key ← version_path r.model_id r.version
    require (not (Dict.has registry.records key)) (duplicate_registration r.model_id r.version)
    ok (
      r,
      record registry {
        records = Dict.set registry.records key r;
        digest_index = index_first registry.digest_index r.artifact_digest (r.model_id, r.version);
      },
    )

  unfoldable pub get : LocalRegistry → String → String → Result Exception (Option RegistryRecord)
  get registry model_id version = do
    key ← version_path model_id version
    ok (Dict.get registry.records key)

  unfoldable pub get_by_digest : LocalRegistry → String → Result Exception (Option RegistryRecord)
  get_by_digest registry artifact_digest = elim (Dict.get registry.digest_index artifact_digest) [
    | none ↦ ok none
    | some (model_id, version) ↦ get registry model_id version
  ]

  unfoldable pub list_versions : LocalRegistry → String → Result Exception (List String)
  list_versions registry model_id = do
    directory ← validate_identifier py model_id "identifier"
    ok (
        sorted text_le
          (Dict.values (select (λ (k : Key). k.0 == directory) (Dict.keys registry.records))))

  unfoldable pub is_revoked :
      LocalRegistry → String → String → Result Exception (Option RevocationRecord)
  is_revoked registry model_id version = do
    _ ← validate_identifier py model_id "model_id"
    _ ← validate_identifier py version "version"
    entries ← read_all_entries registry.revocation_log
    replay model_id version entries none

  -- `validate_identifier(..., "model_id")` and `validate_identifier(..., "version")`
  unfoldable pub check_names : String → String → Result Exception (Unit {0})
  check_names model_id version = do
    _ ← validate_identifier py model_id "model_id"
    _ ← validate_identifier py version "version"
    ok tt

  module _ (sha256 : Bytes → String) where
    -- The write of an action, once the names are checked, with the registry that it leaves.
    unfoldable pub append_action :
        Disk
        → LocalRegistry
        → Json
        → Result Exception (Unit {0})
        → Result Exception ChainEntry × LocalRegistry
    unfolding append_on
    append_action disk registry action (err e) = (err e, registry)
    append_action disk registry action (ok _) =
        let done = append_on sha256 disk registry.revocation_log action in
        (done.0, record registry { revocation_log = done.1 })

    -- What is returned or raised, with the registry after the call.
    unfoldable pub revoke :
        Disk → LocalRegistry → RevocationRecord → Result Exception RevocationRecord × LocalRegistry
    unfolding append_action check_names
    revoke disk registry r =
        let done = append_action disk registry (revoke_json r) (check_names r.model_id r.version) in
        ((done.0 >>= λ _. ok r), done.1)

    unfoldable pub unrevoke :
        Disk
        → LocalRegistry
        → String
        → String
        → String
        → String
        → Result Exception (Unit {0}) × LocalRegistry
    unfolding append_action check_names
    unrevoke disk registry model_id version actor reason =
        let done =
          append_action disk registry (unrevoke_json model_id version actor reason)
            (check_names model_id version) in
        ((done.0 >>= λ _. ok tt), done.1)
