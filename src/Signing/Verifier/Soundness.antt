-- ===== src/Signing/Verifier/Soundness.antt =====
-- What a verification that returns has established, as an independent statement, and that nothing
-- else is asked for.
use mathlib.Core.Path.{subst}
use text.Mathlib.TextEquality.{eq_iff}
use modelguard.Base.{
  String, ◌≢◌, ◌≡◌, refl, ap, ◌↔◌, ◌⊎◌, inl, inr, Bool, true, Option, none, some, arith,
}
use modelguard.Base.{string_eq, is_some, if◌then◌else◌}
use modelguard.Base.Bytes.{Bytes}
use modelguard.Base.Dict
use modelguard.Base.Result.{ok, ran_through, bind_elim, ok-injective}
use modelguard.Signing.Envelope.{SignatureEnvelope, canonical_json}
use modelguard.Signing.Schemes.{SignatureVerifier, Registry, key_fingerprint, decode_hex_strict}
use modelguard.Signing.Verifier.{
  SignatureCheck, Scheme, bound_scheme_of, signed_scheme, find_verifier, check_key_binding,
  verify_under, verify_envelope_signature,
}

-- A format version 1 envelope, which commits to no key and is always Ed25519.
pub record IsLegacy (envelope : SignatureEnvelope) (scheme : Scheme) : Type 0 where
  pub version : envelope.payload.schema_version ≡ "1"
  pub no_algorithm : envelope.payload.signature_algorithm ≡ none
  pub no_key : envelope.payload.key_id ≡ none
  pub label : envelope.signature_type ≡ "ed25519-local"
  pub scheme_is : scheme ≡ ("ed25519", none)

-- A format version 2 envelope, whose signed payload names the algorithm and the key.
pub record IsBound (envelope : SignatureEnvelope) (scheme : Scheme) : Type 0 where
  pub version : envelope.payload.schema_version ≡ "2"
  pub algorithm : envelope.payload.signature_algorithm ≡ some scheme.0
  pub key : envelope.payload.key_id ≡ scheme.1
  pub committed : is_some scheme.1 ≡ true
  pub label : envelope.signature_type ≡ scheme.0

bound_scheme_of_sound :
    (label : String) (algorithm key_id : Option String) (scheme : Scheme)
    → bound_scheme_of label algorithm key_id ≡ ok scheme
    → (algorithm ≡ some scheme.0)
      × (key_id ≡ scheme.1)
      × (is_some scheme.1 ≡ true)
      × (label ≡ scheme.0)
bound_scheme_of_sound label none key_id scheme h = cc
bound_scheme_of_sound label (some a) none scheme h = cc
bound_scheme_of_sound label (some a) (some k) scheme h = ground arith

signed_scheme_sound :
    (envelope : SignatureEnvelope) (allow : Bool) (scheme : Scheme)
    → signed_scheme envelope allow ≡ ok scheme
    → ((allow ≡ true) × IsLegacy envelope scheme) ⊎ IsBound envelope scheme
unfolding signed_scheme
signed_scheme_sound envelope allow scheme h = ground (
  arith,
  bound_scheme_of_sound envelope.signature_type envelope.payload.signature_algorithm
      envelope.payload.key_id scheme,
)

versions_differ : ◌≢◌ {A = String} "2" "1"
versions_differ = ground (arith, eq_iff "2" "1")

signed_scheme_complete :
    (envelope : SignatureEnvelope) (allow : Bool) (scheme : Scheme)
    → ((allow ≡ true) × IsLegacy envelope scheme) ⊎ IsBound envelope scheme
    → signed_scheme envelope allow ≡ ok scheme
unfolding signed_scheme
signed_scheme_complete envelope allow scheme (inl (a, h)) = ground arith
signed_scheme_complete envelope allow (algorithm, none) (inr h) = cc
signed_scheme_complete envelope allow (algorithm, some k) (inr h) = ground (arith, versions_differ)

module _ (sha256 : Bytes → String) where
  -- All that a returned `SignatureCheck` rests on.
  pub record Established (envelope : SignatureEnvelope) (verifiers : Registry) (allow : Bool)
      (check : SignatureCheck) : Type 0 where
    pub claimed : Option String
    pub scheme :
        ((allow ≡ true) × IsLegacy envelope (check.algorithm, claimed))
        ⊎ IsBound envelope (check.algorithm, claimed)
    pub bound : check.key_bound ≡ is_some claimed
    pub committed : (k : String) → claimed ≡ some k → k ≡ check.key_fingerprint
    pub format : check.format_version ≡ envelope.payload.schema_version
    pub verifier : SignatureVerifier
    pub registered : Dict.get verifiers check.algorithm ≡ some verifier
    pub public_key : Bytes
    pub key_decoded : decode_hex_strict envelope.public_key "public_key" 128 ≡ ok public_key
    pub signature : Bytes
    pub signature_decoded : decode_hex_strict envelope.signature "signature" 128 ≡ ok signature
    pub accepted : verifier.verify public_key signature (canonical_json envelope.payload) ≡ ok tt
    pub fingerprint : check.key_fingerprint ≡ sha256 public_key

  find_verifier_sound :
      (verifiers : Registry) (algorithm : String) (v : SignatureVerifier)
      → find_verifier verifiers algorithm ≡ ok v
      → Dict.get verifiers algorithm ≡ some v
  unfolding find_verifier
  find_verifier_sound verifiers algorithm v h = ground arith

  find_verifier_complete :
      (verifiers : Registry) (algorithm : String) (v : SignatureVerifier)
      → Dict.get verifiers algorithm ≡ some v
      → find_verifier verifiers algorithm ≡ ok v
  unfolding find_verifier
  find_verifier_complete verifiers algorithm v h = ground arith

  check_key_binding_sound :
      (claimed : Option String) (fp : String)
      → check_key_binding claimed fp ≡ ok tt
      → (k : String) → claimed ≡ some k
      → k ≡ fp
  unfolding check_key_binding
  check_key_binding_sound claimed fp h k e = ground arith

  check_key_binding_complete :
      (claimed : Option String) (fp : String)
      → ((k : String) → claimed ≡ some k → k ≡ fp)
      → check_key_binding claimed fp ≡ ok tt
  unfolding check_key_binding
  check_key_binding_complete none fp h = refl
  check_key_binding_complete (some k) fp h = ground (arith, h k refl)

  verify_under_sound :
      (envelope : SignatureEnvelope) (verifiers : Registry) (allow : Bool) (check : SignatureCheck)
      (scheme : Scheme)
      → ((allow ≡ true) × IsLegacy envelope scheme) ⊎ IsBound envelope scheme
      → verify_under sha256 envelope verifiers scheme ≡ ok check
      → Established envelope verifiers allow check
  unfolding verify_under key_fingerprint
  verify_under_sound envelope verifiers allow check (algorithm, claimed) s h =
      bind_elim _ _ h λ verifier found h₁. bind_elim _ _ h₁ λ public_key pk h₂.
        bind_elim _ _ h₂ λ signature sg h₃. bind_elim _ _ h₃ λ _ b h₄. bind_elim _ _ h₄ λ _ v h₅.
          subst (Established envelope verifiers allow) (ok-injective h₅) (record {
            claimed = claimed;
            scheme = s;
            bound = refl;
            committed = check_key_binding_sound claimed (sha256 public_key) b;
            format = refl;
            verifier = verifier;
            registered = find_verifier_sound verifiers algorithm verifier found;
            public_key = public_key;
            key_decoded = pk;
            signature = signature;
            signature_decoded = sg;
            accepted = v;
            fingerprint = refl;
          })

  verify_under_complete :
      (envelope : SignatureEnvelope) (verifiers : Registry) (allow : Bool) (check : SignatureCheck)
      → (e : Established envelope verifiers allow check)
      → verify_under sha256 envelope verifiers (check.algorithm, e.claimed) ≡ ok check
  unfolding verify_under key_fingerprint
  verify_under_complete envelope verifiers allow check e =
      rw
        (
          find_verifier_complete verifiers check.algorithm e.verifier e.registered,
          e.key_decoded,
          e.signature_decoded,
          check_key_binding_complete e.claimed (sha256 e.public_key)
              (rw (← e.fingerprint) e.committed),
          e.accepted,
        )
        (ground (arith, e.fingerprint, e.format, e.bound))

  pub verify_envelope_signature_sound :
      (envelope : SignatureEnvelope) (verifiers : Registry) (allow : Bool) (check : SignatureCheck)
      → verify_envelope_signature sha256 envelope verifiers allow ≡ ok check
      → Established envelope verifiers allow check
  unfolding verify_envelope_signature
  verify_envelope_signature_sound envelope verifiers allow check h =
      let (scheme, s, u) =
        ran_through (signed_scheme envelope allow) (verify_under sha256 envelope verifiers) h in
      verify_under_sound envelope verifiers allow check scheme
        (signed_scheme_sound envelope allow scheme s) u

  pub verify_envelope_signature_complete :
      (envelope : SignatureEnvelope) (verifiers : Registry) (allow : Bool) (check : SignatureCheck)
      → Established envelope verifiers allow check
      → verify_envelope_signature sha256 envelope verifiers allow ≡ ok check
  unfolding verify_envelope_signature
  verify_envelope_signature_complete envelope verifiers allow check e =
      rw (signed_scheme_complete envelope allow (check.algorithm, e.claimed) e.scheme)
        (verify_under_complete envelope verifiers allow check e)

  -- A verification returns a check exactly when: the payload is a consistent version 1 one (no
  -- algorithm, no key, the Ed25519 label, and legacy signatures allowed) or a consistent version 2
  -- one (algorithm and key present, the label equal to the signed algorithm); a verifier is
  -- registered for the algorithm that is thereby fixed; key and signature decode; a key that the
  -- payload names is the fingerprint of the key bytes; and that verifier accepts the signature over
  -- the canonical bytes of the payload. The check then reports that algorithm and fingerprint.
  pub verify_envelope_signature_iff :
      (envelope : SignatureEnvelope) (verifiers : Registry) (allow : Bool) (check : SignatureCheck)
      → (verify_envelope_signature sha256 envelope verifiers allow ≡ ok check)
        ↔ Established envelope verifiers allow check
  verify_envelope_signature_iff envelope verifiers allow check = (
    verify_envelope_signature_sound envelope verifiers allow check,
    verify_envelope_signature_complete envelope verifiers allow check,
  )

  claims_of :
      (envelope : SignatureEnvelope) (allow : Bool) (check : SignatureCheck) (k : Option String)
      → ((allow ≡ true) × IsLegacy envelope (check.algorithm, k))
        ⊎ IsBound envelope (check.algorithm, k)
      → check.key_bound ≡ is_some k
      → ((j : String) → k ≡ some j → j ≡ check.key_fingerprint)
      → (envelope.payload.signature_algorithm
          ≡ (if check.key_bound then some check.algorithm else none))
        × (envelope.payload.key_id ≡ (if check.key_bound then some check.key_fingerprint else none))
  claims_of envelope allow check none (inl (_, l)) b f = ground arith
  claims_of envelope allow check none (inr l) b f = cc (l.committed)
  claims_of envelope allow check (some j) (inl (_, l)) b f =
      cc (ap (λ (s : Scheme). s.1) l.scheme_is)
  claims_of envelope allow check (some j) (inr l) b f = ground (arith, f j refl)

  -- What the signed payload itself claims, from the check.
  payload_of_check :
      (envelope : SignatureEnvelope) (verifiers : Registry) (allow : Bool) (check : SignatureCheck)
      → verify_envelope_signature sha256 envelope verifiers allow ≡ ok check
      → (envelope.payload.signature_algorithm
          ≡ (if check.key_bound then some check.algorithm else none))
        × (envelope.payload.key_id ≡ (if check.key_bound then some check.key_fingerprint else none))
  payload_of_check envelope verifiers allow check h =
      let x = verify_envelope_signature_sound envelope verifiers allow check h in
      claims_of envelope allow check x.claimed x.scheme x.bound x.committed

  -- Two envelopes with one payload, of which a first verifies under a key that the payload names,
  -- cannot verify under another algorithm or another key fingerprint, whatever their labels and
  -- keys.
  pub bound_payload_fixes_key :
      (e e' : SignatureEnvelope) (verifiers verifiers' : Registry) (allow allow' : Bool)
      (c c' : SignatureCheck)
      → e.payload ≡ e'.payload
      → verify_envelope_signature sha256 e verifiers allow ≡ ok c
      → verify_envelope_signature sha256 e' verifiers' allow' ≡ ok c'
      → c.key_bound ≡ true
      → (c'.algorithm ≡ c.algorithm)
        × (c'.key_fingerprint ≡ c.key_fingerprint)
        × (c'.key_bound ≡ true)
  bound_payload_fixes_key e e' verifiers verifiers' allow allow' c c' same h h' b = ground (
    arith,
    same,
    payload_of_check e verifiers allow c h,
    payload_of_check e' verifiers' allow' c' h',
  )
