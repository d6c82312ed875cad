-- ===== src/Signing/TrustConfig/Trusted.antt =====
-- When `evaluate_trust` trusts a key: an independent statement of the conditions, and the proof that
-- the reasons are empty exactly when they hold.
use mathlib.Core.Option.{some-injective}
use modelguard.Base.{
  ℕ, ◌≤◌, String, ◌≡◌, refl, ◌↔◌, ◌⊎◌, inl, inr, true, false, Bool, not, ◌&&◌, Option, none, some,
  List, [],
}
use modelguard.Base.{◌∷◌, any, select, is_empty, ◌==◌, string_eq, option_eq, arith}
use modelguard.Base.{if◌then◌else◌, Option-cases, List-cases}
use modelguard.Signing.TrustConfig.{
  TrustedKeyEntry, active, status_eq, TrustConfig, TrustReason, TrustQuery, note_if,
  wrong_algorithm, too_early, too_late, wrong_identity, out_of_scope, key_reasons, evaluate_matches,
  evaluate_trust, TrustEvaluation,
}

-- The entry of a fingerprint: the first one, if there are several.
unfoldable pub entry_for : List TrustedKeyEntry → String → Option TrustedKeyEntry
entry_for [] fp = none
entry_for (key ∷ keys) fp = if key.key_id == fp then some key else entry_for keys fp

module _ (fnmatch : String → String → Bool) where
  -- The conditions under which a key is trusted for a verified signature.
  pub record Trusts (key : TrustedKeyEntry) (q : TrustQuery) : Type 0 where
    pub algorithm : (a : String) → key.algorithm ≡ some a → a ≡ q.algorithm
    pub status : key.status ≡ active
    pub begun : (t : ℕ) → key.not_before ≡ some t → t ≤ q.clock
    pub lasting : (t : ℕ) → key.not_after ≡ some t → q.clock ≤ t
    pub identity : (i : String) → key.signer_identity ≡ some i → q.claimed_signer_identity ≡ some i
    pub scope :
        (key.scope_model_id_patterns ≡ [])
        ⊎ ((m : String) × (q.model_id ≡ some m)
            × (any (fnmatch m) key.scope_model_id_patterns ≡ true))

  is_empty-note_if :
      (b : Bool) (r : TrustReason) (rs : List TrustReason)
      → is_empty (note_if b r rs) ≡ (not b && is_empty rs)
  is_empty-note_if true r [] = refl
  is_empty-note_if true r (_ ∷ _) = refl
  is_empty-note_if false r rs = refl

  is_empty-key_reasons :
      (key : TrustedKeyEntry) (q : TrustQuery)
      → (is_empty (key_reasons fnmatch key q) ≡ true) ↔ (
          (out_of_scope fnmatch key q ≡ false)
          × (wrong_identity key q ≡ false)
          × (too_late key q ≡ false)
          × (too_early key q ≡ false)
          × (key.status ≡ active)
          × (wrong_algorithm key q ≡ false))
  unfolding key_reasons
  is_empty-key_reasons key q = simp is_empty-note_if (ground arith)

  in_scope :
      (key : TrustedKeyEntry) (q : TrustQuery)
      → (out_of_scope fnmatch key q ≡ false) ↔ (
          (key.scope_model_id_patterns ≡ [])
          ⊎ ((m : String) × (q.model_id ≡ some m)
              × (any (fnmatch m) key.scope_model_id_patterns ≡ true)))
  unfolding out_of_scope
  in_scope key q = elim (Option-cases q.model_id) [
    | inl e ↦ rw e (ground arith, λ h. ground arith)
    | inr (m, e) ↦ rw e (
      λ h. elim (List-cases key.scope_model_id_patterns) [
        | inl p ↦ inl p
        | inr p ↦ inr (m, refl, ground arith)
      ],
      λ h. ground arith,
    )
  ]

right_algorithm :
    (key : TrustedKeyEntry) (q : TrustQuery)
    → (wrong_algorithm key q ≡ false) ↔ ((a : String) → key.algorithm ≡ some a → a ≡ q.algorithm)
unfolding wrong_algorithm
right_algorithm key q = elim (Option-cases key.algorithm) [
  | inl e ↦ rw e (ground arith)
  | inr (v, e) ↦ rw e (λ h w. ground arith, λ h. ground (arith, h v refl))
]

right_identity :
    (key : TrustedKeyEntry) (q : TrustQuery)
    → (wrong_identity key q ≡ false)
      ↔ ((i : String) → key.signer_identity ≡ some i → q.claimed_signer_identity ≡ some i)
unfolding wrong_identity
right_identity key q = elim (Option-cases key.signer_identity) [
  | inl e ↦ rw e (ground arith)
  | inr (v, e) ↦ rw e (λ h w. ground arith, λ h. ground (arith, h v refl))
]

not_too_early :
    (key : TrustedKeyEntry) (q : TrustQuery)
    → (too_early key q ≡ false) ↔ ((t : ℕ) → key.not_before ≡ some t → t ≤ q.clock)
unfolding too_early
not_too_early key q = elim (Option-cases key.not_before) [
  | inl e ↦ rw e (ground arith)
  | inr (v, e) ↦ rw e (λ h w. ground arith, λ h. ground (arith, h v refl))
]

not_too_late :
    (key : TrustedKeyEntry) (q : TrustQuery)
    → (too_late key q ≡ false) ↔ ((t : ℕ) → key.not_after ≡ some t → q.clock ≤ t)
unfolding too_late
not_too_late key q = elim (Option-cases key.not_after) [
  | inl e ↦ rw e (ground arith)
  | inr (v, e) ↦ rw e (λ h w. ground arith, λ h. ground (arith, h v refl))
]

module _ (fnmatch : String → String → Bool) where
  key_reasons_iff :
      (key : TrustedKeyEntry) (q : TrustQuery)
      → (is_empty (key_reasons fnmatch key q) ≡ true) ↔ Trusts fnmatch key q
  key_reasons_iff key q = (
    λ h.
        let (scope, identity, late, early, status, algorithm) =
          (is_empty-key_reasons fnmatch key q).0 h in
        record {
          algorithm = (right_algorithm key q).0 algorithm;
          status = status;
          begun = (not_too_early key q).0 early;
          lasting = (not_too_late key q).0 late;
          identity = (right_identity key q).0 identity;
          scope = (in_scope fnmatch key q).0 scope;
        },
    λ t. (is_empty-key_reasons fnmatch key q).1 (
      (in_scope fnmatch key q).1 t.scope,
      (right_identity key q).1 t.identity,
      (not_too_late key q).1 t.lasting,
      (not_too_early key q).1 t.begun,
      t.status,
      (right_algorithm key q).1 t.algorithm,
    ),
  )

  abbrev evaluate_entry : String → TrustQuery → Option TrustedKeyEntry → TrustEvaluation
  evaluate_entry fp q none = evaluate_matches fnmatch fp q []
  evaluate_entry fp q (some key) = evaluate_matches fnmatch fp q (key ∷ [])

  evaluate_matches-select :
      (fp : String) (keys : List TrustedKeyEntry) (q : TrustQuery)
      → evaluate_matches fnmatch fp q (select (λ key. key.key_id == fp) keys)
        ≡ evaluate_entry fp q (entry_for keys fp)
  unfolding evaluate_matches entry_for
  evaluate_matches-select fp [] q = refl
  evaluate_matches-select fp (key ∷ keys) q = ground (arith, evaluate_matches-select fp keys q)

  evaluate_entry_iff :
      (fp : String) (q : TrustQuery) (o : Option TrustedKeyEntry)
      → ((evaluate_entry fp q o).trusted ≡ true)
        ↔ ((key : TrustedKeyEntry) × (o ≡ some key) × Trusts fnmatch key q)
  unfolding evaluate_matches
  evaluate_entry_iff fp q none = (λ h. cc, λ (key, e, t). cc)
  evaluate_entry_iff fp q (some key) = (
    λ h. (key, refl, (key_reasons_iff key q).0 h),
    λ (key', e, t). (key_reasons_iff key q).1 (rw (some-injective key key' e) t),
  )

  -- A verified key is trusted exactly when the configuration has an entry for its fingerprint, and
  -- for that entry: the algorithm is the configured one, the status is active, the verifier's clock
  -- lies in the validity window, the claimed identity is the one that the entry binds, and the
  -- model identifier matches a scope pattern; each condition only if the entry sets it.
  pub evaluate_trust-trusted_iff :
      (fp : String) (config : TrustConfig) (q : TrustQuery)
      → ((evaluate_trust fnmatch fp config q).trusted ≡ true)
        ↔ ((key : TrustedKeyEntry) × (entry_for config.keys fp ≡ some key) × Trusts fnmatch key q)
  unfolding evaluate_trust
  evaluate_trust-trusted_iff fp config q =
      rw (evaluate_matches-select fp config.keys q) (evaluate_entry_iff fp q _)

  -- An evaluation gives a reason exactly when it does not trust the key.
  pub evaluate_trust-reasons :
      (fp : String) (config : TrustConfig) (q : TrustQuery)
      → is_empty (evaluate_trust fnmatch fp config q).reasons
        ≡ (evaluate_trust fnmatch fp config q).trusted
  unfolding evaluate_trust
  evaluate_trust-reasons fp config q = reasons_of (select (λ key. key.key_id == fp) config.keys)
    where
      reasons_of :
          (keys : List TrustedKeyEntry)
          → is_empty (evaluate_matches fnmatch fp q keys).reasons
            ≡ (evaluate_matches fnmatch fp q keys).trusted
      reasons_of [] = refl
      reasons_of (key ∷ keys) = refl
