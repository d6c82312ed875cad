-- ===== src/Signing/Envelope.antt =====
-- src/modelguard/signing/envelope.py: the payload that is signed, the envelope, and the reading of a
-- signature file.
use modelguard.Base.{ℕ, String, Option, none, some, ltb, if◌then◌else◌, length}
use modelguard.Base.Bytes.{Bytes}
use modelguard.Base.Json.{Json, text, object, Members, end, member, dumps}
use modelguard.Base.Result.{Result, ok, err}
use modelguard.Exceptions.{Exception, malformed_signature}

pub record SignaturePayload : Type 0 where
  pub schema_version : String
  pub artifact_digest : String
  pub mbom_digest : String
  pub model_id : Option String
  pub version : Option String
  pub signer_identity : String
  pub signed_at : String
  pub signature_algorithm : Option String
  pub key_id : Option String

pub record SignatureEnvelope : Type 0 where
  pub signature_type : String
  pub payload : SignaturePayload
  pub signature : String
  pub public_key : String

-- A member that `exclude_none` leaves out where the value is `None`.
abbrev pub optional : String → Option String → Members → Members
optional name none rest = rest
optional name (some value) rest = member name (text value) rest

-- The members in the order of the fields.
unfoldable pub payload_json : SignaturePayload → Json
payload_json p = object (
    member "schema_version" (text p.schema_version) (
      member "artifact_digest" (text p.artifact_digest) (
        member "mbom_digest" (text p.mbom_digest) (
          optional "model_id" p.model_id (
            optional "version" p.version (
              member "signer_identity" (text p.signer_identity) (
                member "signed_at" (text p.signed_at) (
                  optional "signature_algorithm" p.signature_algorithm
                    (optional "key_id" p.key_id end)))))))))

unfoldable pub canonical_json : SignaturePayload → Bytes
unfolding payload_json dumps
canonical_json p = dumps (payload_json p)

abbrev pub max_envelope_bytes : ℕ
max_envelope_bytes = 65536

-- `load_envelope`. A file is its bytes, or `none` where the system cannot open or read it; `parse` is
-- the decoding as UTF-8, the JSON parser and the validation against the schema.
unfoldable pub load_envelope :
    (Bytes → Option SignatureEnvelope) → Option Bytes → Result Exception SignatureEnvelope
load_envelope parse none = err malformed_signature
load_envelope parse (some raw) =
    if ltb max_envelope_bytes (length raw)
    then err malformed_signature
    else elim (parse raw) [ none ↦ err malformed_signature | some envelope ↦ ok envelope ]
