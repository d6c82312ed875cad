-- ===== src/Tests/AuditRuns.antt =====
-- The hash chain (src/modelguard/audit/chain.py) under a stand-in for SHA-256.
use modelguard.Base.{String, ◌≡◌, ◌⊎◌, inl, refl, some, [], ◌∷◌, string_eq, nat_eq}
use modelguard.Base.{is_sha256_hex}
use modelguard.Base.Bytes.{Bytes}
use modelguard.Base.Json.{text, null}
use modelguard.Base.Result.{ok, err}
use modelguard.Exceptions.{value_error}
use modelguard.Audit.Chain.{
  ChainEntry, LogFile, written, nothing, unended, link_behind, with_line, link_behind, genesis_hash,
  link_hash, append_entry, read_all_entries, verify_entries, verify_chain,
}
use modelguard.Audit.Chain.Appending.{append_entry-verify_chain}
use modelguard.Audit.Chain.Tampering.{
  IsDigest, Collide, SameRecords, verified_logs_agree, deletion_is_detected,
}

abbrev digest_zero : Bytes → String
digest_zero bytes = genesis_hash

digest_zero-IsDigest : (b : Bytes) → IsDigest (digest_zero b)
unfolding is_sha256_hex nat_eq
digest_zero-IsDigest b = refl

abbrev first : ChainEntry
first = record {
  index = 0;
  entry_record = text "a";
  record_hash = genesis_hash;
  prev_hash = genesis_hash;
}

abbrev second : ChainEntry
second = record first { index = 1; entry_record = null }

abbrev log : LogFile
log = some (written first ∷ [], nothing)

-- The same log without its last line break.
abbrev unended_log : LogFile
unended_log = some ([], unended first)

append_entry-verify_chain_example :
    (e : ChainEntry) × (log' : LogFile) × (append_entry digest_zero log null ≡ ok (e, log'))
    × (e.entry_record ≡ null)
    × (read_all_entries log' ≡ ok (first ∷ e ∷ []))
    × (verify_chain digest_zero log' ≡ ok tt)
unfolding read_all_entries verify_chain verify_entries link_hash string_eq
append_entry-verify_chain_example =
    append_entry-verify_chain digest_zero log null (first ∷ []) refl refl (inl (λ e. cc))

unended_log_breaks :
    (e : ChainEntry) × (log' : LogFile) × (append_entry digest_zero unended_log null ≡ ok (e, log'))
    × (verify_chain digest_zero log' ≡ err value_error)
unfolding read_all_entries verify_chain verify_entries append_entry link_behind with_line
unended_log_breaks = (_, _, refl, refl)

verified_logs_agree_example :
    Collide digest_zero (first ∷ []) (second ∷ []) ⊎ SameRecords (first ∷ []) (second ∷ [])
unfolding verify_entries link_hash string_eq
verified_logs_agree_example =
    verified_logs_agree digest_zero digest_zero-IsDigest (first ∷ []) (second ∷ []) refl refl refl
      refl

deletion_is_detected_example :
    link_hash digest_zero first.entry_record first.prev_hash ≡ first.prev_hash
unfolding verify_entries link_hash string_eq
deletion_is_detected_example = deletion_is_detected digest_zero [] [] first second refl refl
