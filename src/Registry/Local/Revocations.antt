-- ===== src/Registry/Local/Revocations.antt =====
-- The revocation log of the local registry: `is_revoked` follows the latest action on a version, and
-- leaves the other versions alone.
use mathlib.Core.Path.{subst}
use modelguard.Base.{
  String, ◌≡◌, ◌≢◌, refl, sym, ap, ◌∙◌, ◌⊎◌, inl, All, Option, none, some, List, [], ◌∷◌, ◌++◌,
  TextMethods,
}
use modelguard.Base.{string_eq, if◌then◌else◌}
use modelguard.Base.Bytes.{Bytes}
use modelguard.Base.Json.{Json}
use modelguard.Base.Result.{ok}
use modelguard.Audit.Chain.{
  completes, settled, append_on, ChainEntry, LogFile, lines_of, append_entry, read_all_entries,
  verify_chain,
}
use modelguard.Audit.Chain.Appending.{append_entry-ended}
use modelguard.Audit.Chain.Reading.{EndsLine}
use modelguard.Registry.Identifiers.{validate_identifier, IsSafe, validate_identifier_iff}
use modelguard.Registry.Models.{RevocationRecord}
use modelguard.Registry.Local.{
  LocalRegistry, revoke_json, unrevoke_json, is_revoked, revoke, unrevoke, check_names,
}
use modelguard.Registry.Local.Replay.{
  same, not_empty, revoke_json-members, unrevoke_json-members, updated, replay-entry, Acts,
  IsAction, replay-returns, All-append,
}

module _ (py : TextMethods) where
  valid : (value field : String) → IsSafe py value → validate_identifier py value field ≡ ok value
  valid value field safe = (validate_identifier_iff py value field value).1 (safe, refl)

  is_revoked-entry :
      (registry : LocalRegistry) (log' : LogFile) (es : List ChainEntry) (e : ChainEntry)
      (m v : String) (action : Option RevocationRecord)
      → read_all_entries registry.revocation_log ≡ ok es
      → read_all_entries log' ≡ ok (es ++ e ∷ [])
      → Acts e.entry_record m v action
      → (model_id version : String) → IsSafe py model_id
      → IsSafe py version
      → is_revoked py (record registry { revocation_log = log' }) model_id version
        ≡ updated model_id version m v action (is_revoked py registry model_id version)
  unfolding is_revoked
  is_revoked-entry registry log' es e m v action h h' a model_id version safe_model safe_version =
      rw (valid model_id "model_id" safe_model, valid version "version" safe_version, h, h')
        (replay-entry model_id version m v es e action a.named a.versioned a.acts)

  module _ (sha256 : Bytes → String) where
    -- An accepted log that holds an entry or no line at all, whose last line is ended, and whose entries
    -- are actions on versions.
    pub record IsSound (registry : LocalRegistry) (es : List ChainEntry) : Type 0 where
      pub read : read_all_entries registry.revocation_log ≡ ok es
      pub accepted : verify_chain sha256 registry.revocation_log ≡ ok tt
      pub used : (es ≢ []) ⊎ (lines_of registry.revocation_log ≡ [])
      pub ended : EndsLine registry.revocation_log
      pub actions : All IsAction es

    is_revoked-returns :
        (registry : LocalRegistry) (es : List ChainEntry) (model_id version : String)
        → IsSound registry es
        → IsSafe py model_id
        → IsSafe py version
        → (answer : Option RevocationRecord) × (is_revoked py registry model_id version ≡ ok answer)
    unfolding is_revoked
    is_revoked-returns registry es model_id version sound safe_model safe_version =
        rw (valid model_id "model_id" safe_model, valid version "version" safe_version, sound.read)
          (replay-returns model_id version es none sound.actions)

    -- What `is_revoked` answers after an action on the version `m` and `v` of a sound registry.
    abbrev pub Answers :
        LocalRegistry → LocalRegistry → String → String → Option RevocationRecord → Type 0
    Answers registry after m v action =
        (model_id version : String)
        → IsSafe py model_id
        → IsSafe py version
        → (before : Option RevocationRecord) × (is_revoked py registry model_id version ≡ ok before)
          × (is_revoked py after model_id version
              ≡ ok (if same model_id version m v then action else before))

    appended :
        (registry : LocalRegistry) (es : List ChainEntry) (j : Json) (m v : String)
        (action : Option RevocationRecord)
        → IsSound registry es
        → Acts j m v action
        → (e : ChainEntry) × (log' : LogFile) × (append_entry sha256 registry.revocation_log j
            ≡ ok (e, log'))
          × IsSound (record registry { revocation_log = log' }) (es ++ e ∷ [])
          × Answers registry (record registry { revocation_log = log' }) m v action
    appended registry es j m v action sound a =
        let (e, log', done, about, read, accepted, ended) =
          append_entry-ended sha256 registry.revocation_log j es sound.read sound.accepted
            sound.used sound.ended in
        let acts : Acts e.entry_record m v action =
          subst (λ (k : Json). Acts k m v action) (sym about) a in
        (
          e,
          log',
          done,
          record {
            read = read;
            accepted = accepted;
            used = inl (not_empty es e);
            ended = ended;
            actions = All-append es e sound.actions (m, v, action, acts);
          },
          λ model_id version safe_model safe_version.
              let (before, at_before) =
                is_revoked-returns registry es model_id version sound safe_model safe_version in
              (
                before,
                at_before,
                is_revoked-entry registry log' es e m v action sound.read read acts model_id version
                      safe_model safe_version
                    ∙ ap (λ b. updated model_id version m v action b) at_before,
              ),
        )

    -- A revocation of a version with safe identifiers, in a registry with a sound log, is written where the write completes:
    -- the log stays sound, with one more entry; `is_revoked` returns before and after, from then on
    -- it gives the record for that version, and for every other version it answers as before.
    pub revoke-is_revoked :
        (registry : LocalRegistry) (es : List ChainEntry) (r : RevocationRecord)
        → IsSound registry es
        → IsSafe py r.model_id
        → IsSafe py r.version
        → (after : LocalRegistry) × (e : ChainEntry) × (revoke py sha256 completes registry r
            ≡ (ok r, after))
          × IsSound after (es ++ e ∷ [])
          × Answers registry after r.model_id r.version (some r)
    unfolding revoke append_on settled check_names
    revoke-is_revoked registry es r sound safe_model safe_version =
        let (a, b, c) = revoke_json-members r in
        let (e, log', done, still, state) =
          appended registry es (revoke_json r) r.model_id r.version (some r) sound
            (record { named = a; versioned = b; acts = c }) in
        (
          record registry { revocation_log = log' },
          e,
          rw (valid r.model_id "model_id" safe_model, valid r.version "version" safe_version, done)
              refl,
          still,
          state,
        )

    -- In the same way, where the write completes, `unrevoke` keeps the log sound with one more entry, makes `is_revoked` give
    -- nothing for its version, and leaves the answers for every other version as they were.
    pub unrevoke-is_revoked :
        (registry : LocalRegistry) (es : List ChainEntry) (m v actor reason : String)
        → IsSound registry es
        → IsSafe py m
        → IsSafe py v
        → (after : LocalRegistry) × (e : ChainEntry) × (unrevoke py sha256 completes registry m v
              actor reason
            ≡ (ok tt, after))
          × IsSound after (es ++ e ∷ [])
          × Answers registry after m v none
    unfolding unrevoke append_on settled check_names
    unrevoke-is_revoked registry es m v actor reason sound safe_model safe_version =
        let (a, b, c) = unrevoke_json-members m v actor reason in
        let (e, log', done, still, state) =
          appended registry es (unrevoke_json m v actor reason) m v none sound
            (record { named = a; versioned = b; acts = c }) in
        (
          record registry { revocation_log = log' },
          e,
          rw (valid m "model_id" safe_model, valid v "version" safe_version, done) refl,
          still,
          state,
        )
