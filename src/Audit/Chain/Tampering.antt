-- ===== src/Audit/Chain/Tampering.antt =====
-- Which changes of a log `verify_chain` detects. SHA-256 is a parameter, of which only the form of
-- `hexdigest()` is used; a change that stays undetected shows two entries with one digest.
use mathlib.Core.Path.{ap₂}
use text.Mathlib.TextEquality.{Char-path}
use native.Mathlib.Decide.{ℕ_discrete}
use Prim.Native.Char.{code}
use modelguard.Base.{
  ℕ, suc, String, ◌≡◌, ◌≢◌, refl, sym, ap, ◌∙◌, ◌↔◌, ◌⊎◌, inl, inr, true, false, List, [], ◌∷◌,
  ◌++◌,
}
use modelguard.Base.{
  string_eq, arith, length, append_inj, all_codes, Bool, nat_eq, is_lower_hex, code_count,
  is_sha256_hex, ◌&&◌,
}
use modelguard.Base.Bytes.{Bytes, encode, utf8_code, codes}
use modelguard.Base.Result.{ok}
use modelguard.Audit.Chain.{ChainEntry, genesis_hash, record_bytes, link_hash, verify_entries}

module _ (sha256 : Bytes → String) where
  -- Each entry takes up the hash before it, and its own hash is that of its contents.
  abbrev pub Chained : String → List ChainEntry → Type 0
  Chained prev [] = Unit
  Chained prev (e ∷ es) =
      (e.prev_hash ≡ prev)
      × (link_hash sha256 e.entry_record e.prev_hash ≡ e.record_hash)
      × Chained e.record_hash es

  -- The hash that the next entry would take up.
  abbrev pub end_hash : String → List ChainEntry → String
  end_hash prev [] = prev
  end_hash prev (e ∷ es) = end_hash e.record_hash es

  -- `verify_chain` accepts entries exactly when they are chained.
  pub verify_entries_iff :
      (prev : String) (es : List ChainEntry)
      → (verify_entries sha256 prev es ≡ ok tt) ↔ Chained prev es
  unfolding verify_entries
  verify_entries_iff prev [] = (λ h. tt, λ h. refl)
  verify_entries_iff prev (e ∷ es) = ground (arith, verify_entries_iff e.record_hash es)

  pub Chained-append :
      (prev : String) (es fs : List ChainEntry)
      → Chained prev (es ++ fs) ↔ (Chained prev es × Chained (end_hash prev es) fs)
  Chained-append prev [] fs = (λ h. (tt, h), λ h. h.1)
  Chained-append prev (e ∷ es) fs = ground (arith, Chained-append e.record_hash es fs)

ascii_code : (c : ℕ) → is_lower_hex c ≡ true → utf8_code c ≡ c ∷ []
unfolding utf8_code is_lower_hex
ascii_code c h = ground arith

encode-hex : (s : String) → all_codes is_lower_hex s ≡ true → encode s ≡ codes s
unfolding encode
encode-hex String.[] h = refl
encode-hex (String.◌∷◌ c s) h =
    let (now, later) = both_true (is_lower_hex (code c)) (all_codes is_lower_hex s) h in
    rw (ascii_code (code c) now, encode-hex s later)
  where
    both_true : (a b : Bool) → (a && b) ≡ true → (a ≡ true) × (b ≡ true)
    both_true true b e = (refl, e)
    both_true false b e = cc

codes-injective : (s t : String) → codes s ≡ codes t → s ≡ t
codes-injective String.[] String.[] h = refl
codes-injective String.[] (String.◌∷◌ d t) h = cc
codes-injective (String.◌∷◌ c s) String.[] h = cc
codes-injective (String.◌∷◌ c s) (String.◌∷◌ d t) h =
    ap₂ String.◌∷◌ (Char-path c d (cc h)) (codes-injective s t (cc h))

length-codes : (s : String) → length (codes s) ≡ code_count s
length-codes String.[] = refl
length-codes (String.◌∷◌ c s) = ap suc (length-codes s)

-- The bytes of a digest are its 64 codes.
encode-digest :
    (s : String) → is_sha256_hex s ≡ true → (encode s ≡ codes s) × (length (encode s) ≡ 64)
encode-digest s h =
    let (n, hex) = parts in
    let e : encode s ≡ codes s = encode-hex s hex in (e, rw e (length-codes s ∙ n))
  where
    parts : (code_count s ≡ 64) × (all_codes is_lower_hex s ≡ true)
    parts = unfold is_sha256_hex in ground arith

Bytes-discrete : Discrete Bytes
Bytes-discrete = hlevel ℕ_discrete

abbrev pub IsDigest : String → Type 0
IsDigest s = is_sha256_hex s ≡ true

-- The records are equal, one by one, as the bytes that are hashed.
abbrev pub SameRecords : List ChainEntry → List ChainEntry → Type 0
SameRecords [] [] = Unit
SameRecords (e ∷ es) (f ∷ fs) =
    (record_bytes e.entry_record ≡ record_bytes f.entry_record) × SameRecords es fs
SameRecords _ _ = ⊥

-- What `record_hash` is the digest of.
abbrev pub hashed_input : ChainEntry → Bytes
hashed_input e = record_bytes e.entry_record ++ encode e.prev_hash

module _ (sha256 : Bytes → String) where
  -- Somewhere the two logs hold, at one place, entries whose hashed inputs differ while the digests of
  -- those inputs are the same.
  abbrev pub Collide : List ChainEntry → List ChainEntry → Type 0
  Collide [] _ = ⊥
  Collide _ [] = ⊥
  Collide (e ∷ es) (f ∷ fs) =
      ((hashed_input e ≢ hashed_input f) × (sha256 (hashed_input e) ≡ sha256 (hashed_input f)))
      ⊎ Collide es fs

module _ (sha256 : Bytes → String) (hexdigest : (b : Bytes) → IsDigest (sha256 b)) where
  link_hash-inj :
      (e f : ChainEntry)
      → IsDigest e.prev_hash
      → IsDigest f.prev_hash
      → link_hash sha256 e.entry_record e.prev_hash ≡ link_hash sha256 f.entry_record f.prev_hash
      → ((hashed_input e ≢ hashed_input f) × (sha256 (hashed_input e) ≡ sha256 (hashed_input f)))
        ⊎ ((record_bytes e.entry_record ≡ record_bytes f.entry_record)
            × (e.prev_hash ≡ f.prev_hash))
  unfolding link_hash
  link_hash-inj e f d d' h =
      elim (Bytes-discrete (record_bytes e.entry_record ++ encode e.prev_hash)
        (record_bytes f.entry_record ++ encode f.prev_hash)) [
          | no n ↦ inl (n, h)
          | yes p ↦
              let (x, m) = encode-digest e.prev_hash d in
              let (y, n) = encode-digest f.prev_hash d' in
              let (q, r) =
                append_inj (record_bytes e.entry_record) (record_bytes f.entry_record) _ _
                  (m ∙ sym n) p in
              inr (q, codes-injective e.prev_hash f.prev_hash (sym x ∙ r ∙ y))
        ]

  Chained-same :
      (es fs : List ChainEntry) (prev prev' : String)
      → IsDigest prev
      → IsDigest prev'
      → length es ≡ length fs
      → Chained sha256 prev es
      → Chained sha256 prev' fs
      → end_hash sha256 prev es ≡ end_hash sha256 prev' fs
      → Collide sha256 es fs ⊎ ((prev ≡ prev') × SameRecords es fs)
  Chained-same [] [] prev prev' d d' n c c' h = inr (h, tt)
  Chained-same [] (f ∷ fs) prev prev' d d' n c c' h = absurd (omega arith)
  Chained-same (e ∷ es) [] prev prev' d d' n c c' h = absurd (omega arith)
  Chained-same (e ∷ es) (f ∷ fs) prev prev' d d' n (p, l, c) (p', l', c') h =
      elim (Chained-same es fs e.record_hash f.record_hash (rw (← l) (digest_of e))
        (rw (← l') (digest_of f)) (omega arith) c c' h) [
          | inl x ↦ inl (inr x)
          | inr (r, same) ↦ elim (link_hash-inj e f (rw p d) (rw p' d') (l ∙ r ∙ sym l')) [
            | inl x ↦ inl (inl x)
            | inr (q, s) ↦ inr (sym p ∙ s ∙ p', (q, same))
          ]
        ]
    where
      digest_of : (e : ChainEntry) → IsDigest (link_hash sha256 e.entry_record e.prev_hash)
      digest_of e = unfold link_hash in hexdigest _

  -- Two logs that are accepted, have equally many entries and end in the same hash hold the same
  -- records, or two of their entries at one place were hashed from different bytes to one digest: no
  -- record of an accepted log can be edited, replaced or exchanged for another one while the number of
  -- entries and the last hash stay, unless the digests of these very entries collide.
  pub verified_logs_agree :
      (es fs : List ChainEntry)
      → length es ≡ length fs
      → end_hash sha256 genesis_hash es ≡ end_hash sha256 genesis_hash fs
      → verify_entries sha256 genesis_hash es ≡ ok tt
      → verify_entries sha256 genesis_hash fs ≡ ok tt
      → Collide sha256 es fs ⊎ SameRecords es fs
  verified_logs_agree es fs n h v w =
      elim (Chained-same es fs genesis_hash genesis_hash genesis_digest genesis_digest n
        ((verify_entries_iff sha256 genesis_hash es).0 v)
        ((verify_entries_iff sha256 genesis_hash fs).0 w) h) [
          | inl x ↦ inl x
          | inr (_, same) ↦ inr same
        ]
    where
      genesis_digest : IsDigest genesis_hash
      genesis_digest = unfold is_sha256_hex is_lower_hex nat_eq in refl

module _ (sha256 : Bytes → String) where
  -- Taking an entry out of the middle of a log leaves an accepted log only if the entry's own hash
  -- is the hash that it was linked to.
  pub deletion_is_detected :
      (xs ys : List ChainEntry) (e y : ChainEntry)
      → verify_entries sha256 genesis_hash (xs ++ e ∷ y ∷ ys) ≡ ok tt
      → verify_entries sha256 genesis_hash (xs ++ y ∷ ys) ≡ ok tt
      → link_hash sha256 e.entry_record e.prev_hash ≡ e.prev_hash
  deletion_is_detected xs ys e y v w =
      let (_, t) =
        (Chained-append sha256 genesis_hash xs (e ∷ y ∷ ys)).0
          ((verify_entries_iff sha256 genesis_hash _).0 v) in
      let (_, u) =
        (Chained-append sha256 genesis_hash xs (y ∷ ys)).0
          ((verify_entries_iff sha256 genesis_hash _).0 w) in
      t.1 ∙ sym t.2.0 ∙ u.0 ∙ sym t.0

  -- Cutting entries off the end of an accepted log is never detected.
  pub truncation_is_undetected :
      (xs ys : List ChainEntry)
      → verify_entries sha256 genesis_hash (xs ++ ys) ≡ ok tt
      → verify_entries sha256 genesis_hash xs ≡ ok tt
  truncation_is_undetected xs ys v =
      (verify_entries_iff sha256 genesis_hash xs).1
        ((Chained-append sha256 genesis_hash xs ys).0
          ((verify_entries_iff sha256 genesis_hash (xs ++ ys)).0 v)).0
